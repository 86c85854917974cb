-- ===== src/Repo/Calls.antt =====
-- src/smartdialer/repo/calls.py: creating a call and advancing it under the rank guard.
pub mod Keeping
use text.Mathlib.Text.{◌==◌ as str_eq}
use smart_dialer.Common.{
  ℕ, ◌+◌, String, Bool, false, ◌&&◌, Option, none, some, List, [], ◌∷◌, ◌++◌, if◌then◌else◌, leb,
  ltb, ◌==◌, coalesce, find, select, update_where, returning, take, order_by,
}
use smart_dialer.Domain.Enums.{CallState, same_call_state}
use smart_dialer.Domain.Transitions.{rank, terminal_rank, contains_state}
use smart_dialer.Store.{Call, IdempotencyKey, Db}

abbrev pub has_id : ℕ → Call → Bool
has_id call_id c = c.id == call_id

abbrev pub same_key : IdempotencyKey → IdempotencyKey → Bool
same_key k l = k.campaign == l.campaign && k.borrower == l.borrower && k.attempt == l.attempt

abbrev pub has_key : IdempotencyKey → Call → Bool
has_key k c = same_key c.idempotency_key k

abbrev pub new_call : ℕ → ℕ → ℕ → ℕ → String → ℕ → IdempotencyKey → String → ℕ → Call
new_call call_id campaign_id agent_id borrower_id provider attempt_no idem worker lease_until =
    record {
      id = call_id;
      campaign_id = campaign_id;
      agent_id = some agent_id;
      borrower_id = borrower_id;
      provider = provider;
      provider_call_id = none;
      state = CallState.reserved;
      state_rank = 1;
      attempt_no = attempt_no;
      idempotency_key = idem;
      lease_owner = some worker;
      lease_expires_at = some lease_until;
      initiated_at = none;
      ringing_at = none;
      answered_at = none;
      connected_at = none;
      terminal_at = none;
      failure_reason = none;
    }

-- CREATE. `none` is the UniqueViolationError of UNIQUE (idempotency_key).
unfoldable pub create : ℕ → ℕ → ℕ → String → ℕ → IdempotencyKey → String → ℕ → Db → Option (Db × ℕ)
create campaign_id agent_id borrower_id provider attempt_no idem worker lease_until db =
    elim (find (has_key idem) db.calls) [
      | some _ ↦ none
      | none ↦ some (
        record db {
          calls =
              db.calls
              ++ new_call db.next_call campaign_id agent_id borrower_id provider attempt_no idem
                  worker lease_until
                ∷ [];
          next_call = db.next_call + 1;
        },
        db.next_call,
      )
    ]

-- `CASE WHEN $2 = stage THEN now() END`
abbrev stamp : CallState → CallState → ℕ → Option ℕ
stamp stage state now = if same_call_state state stage then some now else none

-- The WHERE clause of ADVANCE, and what it sets.
abbrev pub below : ℕ → ℕ → Call → Bool
below call_id r c = c.id == call_id && ltb c.state_rank r

abbrev pub advanced : CallState → Option String → Option ℕ → Option String → ℕ → Call → Call
advanced state provider_call_id lease_until failure_reason now c = record c {
  state = state;
  state_rank = rank state;
  provider_call_id = coalesce c.provider_call_id provider_call_id;
  initiated_at = coalesce c.initiated_at (stamp CallState.initiated state now);
  ringing_at = coalesce c.ringing_at (stamp CallState.ringing state now);
  answered_at = coalesce c.answered_at (stamp CallState.answered state now);
  connected_at = coalesce c.connected_at (stamp CallState.connected state now);
  terminal_at = if leb terminal_rank (rank state) then some now else c.terminal_at;
  lease_expires_at = if leb terminal_rank (rank state) then none else lease_until;
  failure_reason = coalesce failure_reason c.failure_reason;
}

unfoldable pub advance :
    ℕ → CallState → Option String → Option ℕ → Option String → ℕ → Db → Db × Option Call
advance call_id state provider_call_id lease_until failure_reason now db =
    let f = advanced state provider_call_id lease_until failure_reason now in
    (
      record db { calls = update_where (below call_id (rank state)) f db.calls },
      returning (below call_id (rank state)) f db.calls,
    )

unfoldable pub fail : ℕ → String → ℕ → Db → Db × Option Call
unfolding advance
fail call_id reason now db = advance call_id CallState.failed none none (some reason) now db

unfoldable pub cancel : ℕ → String → ℕ → Db → Db × Option Call
unfolding advance
cancel call_id reason now db = advance call_id CallState.cancelled none none (some reason) now db

abbrev pub not_answered : CallState → Bool
not_answered s = contains_state s (CallState.initiated ∷ CallState.ringing ∷ [])

abbrev pub cancellable : ℕ → Call → Bool
cancellable call_id c = c.id == call_id && not_answered c.state

abbrev pub cancelled_for : String → ℕ → Call → Call
cancelled_for reason now c = record c {
  state = CallState.cancelled;
  state_rank = 6;
  terminal_at = some now;
  lease_expires_at = none;
  failure_reason = some reason;
}

-- CANCEL_IF_NOT_ANSWERED
unfoldable pub cancel_if_not_answered : ℕ → String → ℕ → Db → Db × Option Call
cancel_if_not_answered call_id reason now db = (
  record db { calls = update_where (cancellable call_id) (cancelled_for reason now) db.calls },
  returning (cancellable call_id) (cancelled_for reason now) db.calls,
)

unfoldable pub get : ℕ → Db → Option Call
get call_id db = find (has_id call_id) db.calls

-- `column = value` in SQL, which no NULL satisfies.
abbrev pub matches : Option String → Option String → Bool
matches (some s) (some t) = str_eq s t
matches _ _ = false

abbrev pub has_ref : String → Option String → Call → Bool
has_ref provider ref c = str_eq c.provider provider && matches c.provider_call_id ref

unfoldable pub get_by_provider_ref : String → Option String → Db → Option Call
get_by_provider_ref provider ref db = find (has_ref provider ref) db.calls

abbrev in_flight : CallState → Bool
in_flight s = contains_state s (
    CallState.reserved ∷ CallState.initiated ∷ CallState.ringing ∷ CallState.answered
    ∷ CallState.connected ∷ [])

-- ORDER BY initiated_at ASC NULLS LAST: the key of a row without the column is past every other.
abbrev or_last : ℕ → Option ℕ → ℕ
or_last last none = last + 1
or_last last (some t) = t

abbrev latest : List Call → ℕ
latest [] = 0
latest (c ∷ cs) =
    let rest = latest cs in
    elim c.initiated_at [ none ↦ rest | some t ↦ if leb rest t then t else rest ]

abbrev pub oldest_first : List Call → List Call
oldest_first cs = order_by (λ c. or_last (latest cs) c.initiated_at) cs

unfoldable pub list_inflight : ℕ → Db → List Call
list_inflight campaign_id db =
    oldest_first (select (λ c. c.campaign_id == campaign_id && in_flight c.state) db.calls)

abbrev pub ringing_in : ℕ → Call → Bool
ringing_in campaign_id c = c.campaign_id == campaign_id && not_answered c.state

unfoldable pub list_ringing_oldest : ℕ → ℕ → Db → List Call
list_ringing_oldest campaign_id limit db =
    take limit (oldest_first (select (ringing_in campaign_id) db.calls))
