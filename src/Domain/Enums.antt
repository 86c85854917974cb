-- ===== src/Domain/Enums.antt =====
-- src/smartdialer/domain/enums.py: the states of agents, calls and borrowers, pacing modes, and
-- the reason codes. The tests stand for Python's `==` and SQL's `=` on these values.
use smart_dialer.Common.{Bool, true, false}

pub data AgentState : Type 0 where
  offline available reserved dialing connected wrap_up paused : AgentState

pub data CallState : Type 0 where
  queued reserved initiated ringing answered connected : CallState
  completed failed cancelled abandoned : CallState

pub data BorrowerState : Type 0 where
  pending locked in_call done exhausted suppressed : BorrowerState

pub data PacingMode : Type 0 where
  progressive predictive : PacingMode

pub data ReasonCode : Type 0 where
  ok no_agents overdial_cap abandon_budget_breach provider_degraded : ReasonCode
  insufficient_samples estimator_unstable ringing_hard_cap : ReasonCode
  cooldown_forced_progressive campaign_paused : ReasonCode

abbrev pub is_available : AgentState → Bool
is_available AgentState.available = true
is_available _ = false

abbrev pub is_reserved : AgentState → Bool
is_reserved AgentState.reserved = true
is_reserved _ = false

abbrev pub is_dialing : AgentState → Bool
is_dialing AgentState.dialing = true
is_dialing _ = false

abbrev pub is_wrap_up : AgentState → Bool
is_wrap_up AgentState.wrap_up = true
is_wrap_up _ = false

abbrev pub is_pending : BorrowerState → Bool
is_pending BorrowerState.pending = true
is_pending _ = false

abbrev pub is_locked : BorrowerState → Bool
is_locked BorrowerState.locked = true
is_locked _ = false

-- `a == b` on call states.
abbrev pub same_call_state : CallState → CallState → Bool
same_call_state CallState.queued CallState.queued = true
same_call_state CallState.reserved CallState.reserved = true
same_call_state CallState.initiated CallState.initiated = true
same_call_state CallState.ringing CallState.ringing = true
same_call_state CallState.answered CallState.answered = true
same_call_state CallState.connected CallState.connected = true
same_call_state CallState.completed CallState.completed = true
same_call_state CallState.failed CallState.failed = true
same_call_state CallState.cancelled CallState.cancelled = true
same_call_state CallState.abandoned CallState.abandoned = true
same_call_state _ _ = false
