-- ===== src/LiveStatus/Sums.antt =====
-- The numbers of the live view of src/smartdialer/live_status.py add up.
use text.Mathlib.Text.{◌==◌ as str_eq}
use mathlib.Core.Path.{fun_ext}
use smart_dialer.Common.{
  ℕ, ◌+◌, ◌-◌, ◌≡◌, refl, ap, sym, ◌∙◌, Float, String, Bool, true, false, ◌&&◌, List, [], ◌∷◌,
  arith, count, length, select,
}
use smart_dialer.Domain.Enums.{AgentState, CallState, BorrowerState, same_call_state}
use smart_dialer.Domain.Names.{agent_state_text, call_state_text, borrower_state_text}
use smart_dialer.Store.{Agent, Call, Db}
use smart_dialer.Repo.Counters.{one_if}
use smart_dialer.Repo.Metrics.{agent_in, call_in}
use smart_dialer.LiveStatus.{
  agent_states, call_states, borrower_states, borrower_in, grouped, get_or_zero, counts, sum_values,
  ended_as, campaign_snapshot,
}
use smart_dialer.LiveStatus.Counting.{
  occurs, get_or_zero-grouped, sum_values-counts, length-select, count-select,
}

agent_state_listed : (s : AgentState) → occurs (agent_state_text s) agent_states ≡ 1
agent_state_listed AgentState.offline = refl
agent_state_listed _ = refl

call_state_listed : (s : CallState) → occurs (call_state_text s) call_states ≡ 1
call_state_listed CallState.queued = refl
call_state_listed _ = refl

borrower_state_listed : (s : BorrowerState) → occurs (borrower_state_text s) borrower_states ≡ 1
borrower_state_listed BorrowerState.pending = refl
borrower_state_listed _ = refl

abbrev pub logged_in : AgentState → Bool
logged_in AgentState.offline = false
logged_in _ = true

-- Neither idle, nor paused, nor gone.
abbrev pub at_work : AgentState → Bool
at_work AgentState.offline = false
at_work AgentState.paused = false
at_work AgentState.available = false
at_work _ = true

state_parts :
    (s : AgentState)
    → one_if (at_work s)
        + one_if (str_eq (agent_state_text s) "AVAILABLE")
        + one_if (str_eq (agent_state_text s) "OFFLINE")
        + one_if (str_eq (agent_state_text s) "PAUSED")
      ≡ 1
state_parts AgentState.offline = refl
state_parts _ = refl

logged_in_parts :
    (s : AgentState) → one_if (logged_in s) + one_if (str_eq (agent_state_text s) "OFFLINE") ≡ 1
logged_in_parts AgentState.offline = refl
logged_in_parts _ = refl

abbrev has_text : String → Agent → Bool
has_text s a = str_eq (agent_state_text a.state) s

busy_parts :
    (xs : List Agent)
    → count (λ a. at_work a.state) xs
        + count (has_text "AVAILABLE") xs
        + count (has_text "OFFLINE") xs
        + count (has_text "PAUSED") xs
      ≡ length xs
busy_parts [] = refl
busy_parts (a ∷ xs) = ground (arith, state_parts a.state, busy_parts xs)

staffed_parts :
    (xs : List Agent)
    → count (λ a. logged_in a.state) xs + count (has_text "OFFLINE") xs ≡ length xs
staffed_parts [] = refl
staffed_parts (a ∷ xs) = ground (arith, logged_in_parts a.state, staffed_parts xs)

abbrev agent_rows : List Agent → List (String × ℕ)
agent_rows xs = counts (grouped (λ a. agent_state_text a.state) xs) agent_states

agents_sum : (xs : List Agent) → sum_values (agent_rows xs) ≡ length xs
agents_sum xs =
    sum_values-counts (λ a. agent_state_text a.state) agent_states (λ a. agent_state_listed a.state)
      xs

-- What the dictionary has for a listed state.
row_of :
    (s : String) (xs : List Agent)
    → get_or_zero s (grouped (λ a. agent_state_text a.state) xs) ≡ count (has_text s) xs
row_of s xs = get_or_zero-grouped (λ a. agent_state_text a.state) s xs

busy_lem :
    (xs : List Agent)
    → sum_values (agent_rows xs)
        - get_or_zero "AVAILABLE" (agent_rows xs)
        - get_or_zero "OFFLINE" (agent_rows xs)
        - get_or_zero "PAUSED" (agent_rows xs)
      ≡ count (λ a. at_work a.state) xs
unfolding counts
busy_lem xs = omega (
  arith,
  agents_sum xs,
  row_of "AVAILABLE" xs,
  row_of "OFFLINE" xs,
  row_of "PAUSED" xs,
  busy_parts xs,
)

staffed_lem :
    (xs : List Agent)
    → sum_values (agent_rows xs) - get_or_zero "OFFLINE" (agent_rows xs)
      ≡ count (λ a. logged_in a.state) xs
unfolding counts
staffed_lem xs = omega (arith, agents_sum xs, row_of "OFFLINE" xs, staffed_parts xs)

module _ (campaign_id : ℕ) (db : Db) where
  abbrev call_rows : List (String × ℕ)
  call_rows =
      counts (grouped (λ c. call_state_text c.state) (select (call_in campaign_id) db.calls))
        call_states

  ended_text :
      (s : CallState) (t : String)
      → ((c : Call) → str_eq (call_state_text c.state) t ≡ same_call_state c.state s)
      → ended_as campaign_id s db
        ≡ get_or_zero t
            (grouped (λ c. call_state_text c.state) (select (call_in campaign_id) db.calls))
  ended_text s t h =
      ap (λ p. count (λ c. call_in campaign_id c && p c) db.calls) (sym (fun_ext h))
      ∙ sym (count-select (call_in campaign_id) (λ c. str_eq (call_state_text c.state) t) db.calls)
      ∙ sym (
          get_or_zero-grouped (λ c. call_state_text c.state) t
            (select (call_in campaign_id) db.calls))

abbrev SameAs : CallState → String → Type 0
SameAs s t = (c : CallState) → str_eq (call_state_text c) t ≡ same_call_state c s

is_completed : SameAs CallState.completed "COMPLETED"
is_completed CallState.queued = refl
is_completed _ = refl

is_failed : SameAs CallState.failed "FAILED"
is_failed CallState.queued = refl
is_failed _ = refl

is_cancelled : SameAs CallState.cancelled "CANCELLED"
is_cancelled CallState.queued = refl
is_cancelled _ = refl

is_abandoned : SameAs CallState.abandoned "ABANDONED"
is_abandoned CallState.queued = refl
is_abandoned _ = refl

-- In the view of a campaign every agent, call and borrower of it is counted under one state; `busy`
-- is the number of agents in a call, before or after one; `staffed` that of the agents logged in;
-- and the totals are the counts of the states that a call ends in.
pub snapshot_adds_up :
    (fl : Float) (round : ℕ → fl.Number → fl.Number) (c n m : ℕ) (db : Db)
    → let s = campaign_snapshot fl round c n m db in
      (sum_values s.agents ≡ count (agent_in c) db.agents)
      × (sum_values s.calls ≡ count (call_in c) db.calls)
      × (sum_values s.borrowers ≡ count (borrower_in c) db.borrowers)
      × (s.busy ≡ count (λ a. agent_in c a && at_work a.state) db.agents)
      × (s.staffed ≡ count (λ a. agent_in c a && logged_in a.state) db.agents)
      × (s.totals.completed ≡ get_or_zero "COMPLETED" s.calls)
      × (s.totals.failed ≡ get_or_zero "FAILED" s.calls)
      × (s.totals.cancelled ≡ get_or_zero "CANCELLED" s.calls)
      × (s.totals.abandoned ≡ get_or_zero "ABANDONED" s.calls)
unfolding campaign_snapshot
snapshot_adds_up fl round c n m db = (
  agents_sum (select (agent_in c) db.agents) ∙ length-select (agent_in c) db.agents,
  sum_values-counts (λ x. call_state_text x.state) call_states (λ x. call_state_listed x.state)
        (select (call_in c) db.calls)
      ∙ length-select (call_in c) db.calls,
  sum_values-counts (λ b. borrower_state_text b.state) borrower_states
        (λ b. borrower_state_listed b.state) (select (borrower_in c) db.borrowers)
      ∙ length-select (borrower_in c) db.borrowers,
  busy_lem (select (agent_in c) db.agents)
      ∙ count-select (agent_in c) (λ a. at_work a.state) db.agents,
  staffed_lem (select (agent_in c) db.agents)
      ∙ count-select (agent_in c) (λ a. logged_in a.state) db.agents,
  ended_text c db CallState.completed "COMPLETED" (λ x. is_completed x.state),
  ended_text c db CallState.failed "FAILED" (λ x. is_failed x.state),
  ended_text c db CallState.cancelled "CANCELLED" (λ x. is_cancelled x.state),
  ended_text c db CallState.abandoned "ABANDONED" (λ x. is_abandoned x.state),
)
