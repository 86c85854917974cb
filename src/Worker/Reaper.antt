-- ===== src/Worker/Reaper.antt =====
-- src/smartdialer/worker/reaper.py: the sweep that ends calls and frees agents whose lease is past.
-- `now` is the database's time, `clock_now` the worker's clock.
pub mod Keeping
pub mod Sweep
use smart_dialer.Common.{
  ℕ, ◌+◌, String, Bool, true, false, not, ◌&&◌, ◌||◌, Option, none, some, List, [], ◌∷◌, ◌++◌, map,
  if◌then◌else◌, is_some, length, select, update_where, expired_at,
}
use smart_dialer.Domain.Enums.{AgentState, CallState, is_reserved, is_dialing, is_wrap_up}
use smart_dialer.Domain.Transitions.{contains_state}
use smart_dialer.Store.{Agent, Call, Db, seconds}
use smart_dialer.Repo.Agents
use smart_dialer.Repo.Borrowers
use smart_dialer.Worker.EventApplier.{truthy}

-- RECLAIM_AGENTS
abbrev pub lease_expired : ℕ → Agent → Bool
lease_expired clock_now a =
    (is_reserved a.state || is_dialing a.state) && expired_at clock_now a.lease_expires_at

abbrev pub reclaimed : ℕ → Agent → Agent
reclaimed now a = record a {
  state = if is_reserved a.state then AgentState.available else a.state;
  version = a.version + 1;
  lease_owner = none;
  lease_expires_at = none;
  updated_at = now;
}

unfoldable pub reclaim_agents : ℕ → ℕ → Db → Db × List Agent
reclaim_agents clock_now now db = (
  record db { agents = update_where (lease_expired clock_now) (reclaimed now) db.agents },
  map (reclaimed now) (select (lease_expired clock_now) db.agents),
)

-- FAIL_ORPHAN_CALLS
abbrev pub orphaned : ℕ → Call → Bool
orphaned clock_now c =
    not (is_some c.terminal_at)
    && expired_at clock_now c.lease_expires_at
    && contains_state c.state (CallState.queued ∷ CallState.reserved ∷ CallState.initiated ∷ [])

abbrev pub orphan_failed : ℕ → Call → Call
orphan_failed now c = record c {
  state = CallState.failed;
  state_rank = 6;
  terminal_at = some now;
  failure_reason = some "LEASE_EXPIRED_NO_EVENTS";
}

unfoldable pub fail_orphan_calls : ℕ → ℕ → Db → Db × List Call
fail_orphan_calls clock_now now db = (
  record db { calls = update_where (orphaned clock_now) (orphan_failed now) db.calls },
  map (orphan_failed now) (select (orphaned clock_now) db.calls),
)

-- RELEASE_WRAPUP
abbrev pub wrapped_up : ℕ → Agent → Bool
wrapped_up clock_now a = is_wrap_up a.state && expired_at clock_now a.lease_expires_at

abbrev pub wrap_up_released : ℕ → Agent → Agent
wrap_up_released now a = record a {
  state = AgentState.available;
  version = a.version + 1;
  updated_at = now;
  state_changed_at = now;
  lease_expires_at = none;
  current_call_id = none;
}

unfoldable pub release_wrapup : ℕ → ℕ → Db → Db × List Agent
release_wrapup clock_now now db = (
  record db { agents = update_where (wrapped_up clock_now) (wrap_up_released now) db.agents },
  map (wrap_up_released now) (select (wrapped_up clock_now) db.agents),
)

-- A provider's `cancel` that the reaper starts without waiting for it.
abbrev pub CancelRequest : Type 0
CancelRequest = String × String

abbrev is_empty : String → Bool
is_empty String.[] = true
is_empty _ = false

-- _schedule_cancel. The registry is given by the names it knows. An empty reference is
-- no reference.
unfoldable pub schedule_cancel : Option (String → Bool) → Call → List CancelRequest
schedule_cancel none o = []
schedule_cancel (some known) o = elim o.provider_call_id [
  | none ↦ []
  | some ref ↦ if known o.provider && not (is_empty ref) then (o.provider, ref) ∷ [] else []
]

-- The body of the loop over the orphans, less `_schedule_cancel`.
unfoldable pub settle_orphan : ℕ → Call → Db → Db
settle_orphan now o db =
    let db' : Db = elim (truthy o.agent_id) [ none ↦ db | some i ↦ (Agents.release i now db).0 ] in
    Borrowers.reschedule o.borrower_id (seconds 120) now db'

unfoldable pub settle_orphans : ℕ → List Call → Db → Db
unfolding settle_orphan
settle_orphans now [] db = db
settle_orphans now (o ∷ orphans) db = settle_orphans now orphans (settle_orphan now o db)

abbrev pub cancel_requests : Option (String → Bool) → List Call → List CancelRequest
cancel_requests registry [] = []
cancel_requests registry (o ∷ orphans) =
    schedule_cancel registry o ++ cancel_requests registry orphans

-- The counts that `reap` returns.
pub record Reaped : Type 0 where
  pub orphans_failed : ℕ
  pub agents_reclaimed : ℕ
  pub agents_wrapup_released : ℕ
  pub stale_borrower_locks : ℕ
  pub cancels : List CancelRequest

-- reap: one transaction.
unfoldable pub reap : Option (String → Bool) → ℕ → ℕ → Db → Db × Reaped
unfolding fail_orphan_calls settle_orphans reclaim_agents release_wrapup
reap registry clock_now now db =
    let (failed, orphans) = fail_orphan_calls clock_now now db in
    let settled = settle_orphans now orphans failed in
    let (swept, agents) = reclaim_agents clock_now now settled in
    let (rested, wrapped) = release_wrapup clock_now now swept in
    let (done, stale) = Borrowers.reclaim_expired_locks now rested in
    (
      done,
      record {
        orphans_failed = length orphans;
        agents_reclaimed = length agents;
        agents_wrapup_released = length wrapped;
        stale_borrower_locks = length stale;
        cancels = cancel_requests registry orphans;
      },
    )
