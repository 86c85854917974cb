-- ===== src/Domain/Transitions.antt =====
-- src/smartdialer/domain/transitions.py: ranks, legal successors, and the test that decides
-- whether a provider's event moves a call.
pub mod Order
use smart_dialer.Common.{
  ℕ, Bool, true, false, ◌||◌, Option, none, some, List, [], ◌∷◌, ◌++◌, if◌then◌else◌, leb, ltb,
  ◌==◌, select,
}
use smart_dialer.Domain.Enums.{AgentState, CallState, same_call_state}

-- RANK
abbrev pub rank : CallState → ℕ
rank CallState.queued = 0
rank CallState.reserved = 1
rank CallState.initiated = 2
rank CallState.ringing = 3
rank CallState.answered = 4
rank CallState.connected = 5
rank CallState.completed = 6
rank CallState.failed = 6
rank CallState.cancelled = 6
rank CallState.abandoned = 6

abbrev pub terminal_rank : ℕ
terminal_rank = 6

-- The keys of RANK.
abbrev pub call_states : List CallState
call_states =
    CallState.queued ∷ CallState.reserved ∷ CallState.initiated ∷ CallState.ringing
    ∷ CallState.answered ∷ CallState.connected ∷ CallState.completed ∷ CallState.failed
    ∷ CallState.cancelled ∷ CallState.abandoned ∷ []

-- TERMINAL
abbrev pub terminal : List CallState
terminal = select (λ s. rank s == terminal_rank) call_states

-- LEGAL_NEXT
abbrev pub legal_next : CallState → List CallState
legal_next CallState.queued = CallState.reserved ∷ terminal
legal_next CallState.reserved = CallState.initiated ∷ terminal
legal_next CallState.initiated = CallState.ringing ∷ CallState.answered ∷ terminal
legal_next CallState.ringing = CallState.answered ∷ terminal
legal_next CallState.answered = CallState.connected ∷ terminal
legal_next CallState.connected = terminal
legal_next _ = []

-- `s in states`
abbrev pub contains_state : CallState → List CallState → Bool
contains_state s [] = false
contains_state s (t ∷ ts) = same_call_state s t || contains_state s ts

-- The anomalies that the event applier records.
pub data Anomaly : Type 0 where
  out_of_order illegal_transition unknown_call : Anomaly

unfoldable pub can_apply : CallState → CallState → Bool × Option Anomaly
can_apply current incoming =
    if leb terminal_rank (rank current)
    then (false, some Anomaly.out_of_order)
    else if leb (rank incoming) (rank current)
    then (false, some Anomaly.out_of_order)
    else if contains_state incoming (legal_next current)
    then (true, none)
    else (false, some Anomaly.illegal_transition)

-- AGENT_ON_CALL_STATE.get
abbrev pub agent_on_call_state : CallState → Option AgentState
agent_on_call_state CallState.initiated = some AgentState.dialing
agent_on_call_state CallState.connected = some AgentState.connected
agent_on_call_state CallState.completed = some AgentState.wrap_up
agent_on_call_state CallState.failed = some AgentState.available
agent_on_call_state CallState.cancelled = some AgentState.available
agent_on_call_state CallState.abandoned = some AgentState.available
agent_on_call_state _ = none
