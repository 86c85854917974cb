-- ===== src/LiveStatus.antt =====
-- src/smartdialer/live_status.py: the view of one campaign that the terminal and the dashboard show.
-- The campaign's own row and the JSON of the decisions are left out, and the rounding of the
-- utilization is an argument.
pub mod Counting
pub mod Sums
use text.Mathlib.Text.{◌==◌ as str_eq}
use smart_dialer.Common.{
  ℕ, ◌+◌, ◌-◌, Float, String, Bool, false, ◌&&◌, Option, none, some, List, [], ◌∷◌, if◌then◌else◌,
  ◌==◌, map, select, take, reverse_onto, count, find,
}
use smart_dialer.Domain.Enums.{AgentState, CallState, same_call_state}
use smart_dialer.Domain.Names.{agent_state_text, call_state_text, borrower_state_text}
use smart_dialer.Store.{Agent, Borrower, Call, Event, Decision, Db}
use smart_dialer.Repo.Calls
use smart_dialer.Repo.Decisions
use smart_dialer.Repo.Metrics.{agent_in, call_in}

abbrev pub agent_states : List String
agent_states =
    "AVAILABLE" ∷ "RESERVED" ∷ "DIALING" ∷ "CONNECTED" ∷ "WRAP_UP" ∷ "PAUSED" ∷ "OFFLINE" ∷ []

abbrev pub call_states : List String
call_states =
    "QUEUED" ∷ "RESERVED" ∷ "INITIATED" ∷ "RINGING" ∷ "ANSWERED" ∷ "CONNECTED" ∷ "COMPLETED"
    ∷ "FAILED" ∷ "CANCELLED" ∷ "ABANDONED" ∷ []

abbrev pub borrower_states : List String
borrower_states = "PENDING" ∷ "LOCKED" ∷ "IN_CALL" ∷ "DONE" ∷ "EXHAUSTED" ∷ "SUPPRESSED" ∷ []

abbrev pub borrower_in : ℕ → Borrower → Bool
borrower_in campaign_id b = b.campaign_id == campaign_id

-- GROUP BY: a row for each text that occurs, with how often it does.
abbrev pub bump : String → List (String × ℕ) → List (String × ℕ)
bump s [] = (s, 1) ∷ []
bump s (r ∷ rs) = let rest = bump s rs in if str_eq r.0 s then (r.0, r.1 + 1) ∷ rs else r ∷ rest

-- SELECT state::text, count(*) AS n … GROUP BY state
unfoldable pub grouped : {A : Type 0} → (A → String) → List A → List (String × ℕ)
grouped text_of [] = []
grouped text_of (x ∷ xs) = bump (text_of x) (grouped text_of xs)

-- `have.get(s, 0)`, and `agents["…"]` for a key that is there.
abbrev pub get_or_zero : String → List (String × ℕ) → ℕ
get_or_zero s [] = 0
get_or_zero s (r ∷ rs) = if str_eq r.0 s then r.1 else get_or_zero s rs

-- _counts
unfoldable pub counts : List (String × ℕ) → List String → List (String × ℕ)
counts rows states = map (λ s. (s, get_or_zero s rows)) states

abbrev pub sum_values : List (String × ℕ) → ℕ
sum_values [] = 0
sum_values (r ∷ rs) = r.1 + sum_values rs

pub record Totals : Type 0 where
  pub completed : ℕ
  pub failed : ℕ
  pub cancelled : ℕ
  pub abandoned : ℕ

-- The dictionary of the code, with its local variables `busy` and `staffed`.
pub record LiveSnapshot (F : Type 0) : Type 0 where
  pub campaign_id : ℕ
  pub agents : List (String × ℕ)
  pub calls : List (String × ℕ)
  pub borrowers : List (String × ℕ)
  pub totals : Totals
  pub busy : ℕ
  pub staffed : ℕ
  pub utilization : F
  pub decisions : List Decision
  pub events : List Event

-- `count(*) FILTER (WHERE state='…') … WHERE campaign_id=$1`
abbrev pub ended_as : ℕ → CallState → Db → ℕ
ended_as campaign_id s db = count (λ c. call_in campaign_id c && same_call_state c.state s) db.calls

-- The row that the JOIN gives an event, if its call is one of the campaign's.
abbrev pub joined : ℕ → Db → Event → Bool
joined campaign_id db e = elim e.call_id [
  | none ↦ false
  | some i ↦ elim (Calls.get i db) [ none ↦ false | some c ↦ call_in campaign_id c ]
]

module _ (fl : Float) where
  open fl use {Number, literal, of_ℕ, div, mul}

  unfoldable pub campaign_snapshot : (ℕ → Number → Number) → ℕ → ℕ → ℕ → Db → LiveSnapshot Number
  unfolding grouped counts Decisions.latest
  campaign_snapshot round campaign_id recent_decisions recent_events db =
      let agents =
        counts (grouped (λ a. agent_state_text a.state) (select (agent_in campaign_id) db.agents))
          agent_states in
      let total_agents = sum_values agents in
      let busy =
        total_agents
        - get_or_zero "AVAILABLE" agents
        - get_or_zero "OFFLINE" agents
        - get_or_zero "PAUSED" agents in
      let staffed = total_agents - get_or_zero "OFFLINE" agents in
      record {
        campaign_id = campaign_id;
        agents = agents;
        calls =
            counts (grouped (λ c. call_state_text c.state) (select (call_in campaign_id) db.calls))
              call_states;
        borrowers =
            counts
              (grouped (λ b. borrower_state_text b.state)
                (select (borrower_in campaign_id) db.borrowers))
              borrower_states;
        totals = record {
          completed = ended_as campaign_id CallState.completed db;
          failed = ended_as campaign_id CallState.failed db;
          cancelled = ended_as campaign_id CallState.cancelled db;
          abandoned = ended_as campaign_id CallState.abandoned db;
        };
        busy = busy;
        staffed = staffed;
        utilization = round 1 (
            if staffed == 0
            then literal 0 0
            else mul (div (of_ℕ busy) (of_ℕ staffed)) (literal 100 0));
        decisions = Decisions.latest campaign_id recent_decisions db;
        events = take recent_events (reverse_onto (select (joined campaign_id db) db.events) []);
      }
