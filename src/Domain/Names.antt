-- ===== src/Domain/Names.antt =====
-- The texts of the states of src/smartdialer/domain/enums.py, which are also the values of the
-- database's enumerations: `state::text`.
use smart_dialer.Common.{String}
use smart_dialer.Domain.Enums.{AgentState, CallState, BorrowerState, ReasonCode}

abbrev pub agent_state_text : AgentState → String
agent_state_text AgentState.offline = "OFFLINE"
agent_state_text AgentState.available = "AVAILABLE"
agent_state_text AgentState.reserved = "RESERVED"
agent_state_text AgentState.dialing = "DIALING"
agent_state_text AgentState.connected = "CONNECTED"
agent_state_text AgentState.wrap_up = "WRAP_UP"
agent_state_text AgentState.paused = "PAUSED"

abbrev pub call_state_text : CallState → String
call_state_text CallState.queued = "QUEUED"
call_state_text CallState.reserved = "RESERVED"
call_state_text CallState.initiated = "INITIATED"
call_state_text CallState.ringing = "RINGING"
call_state_text CallState.answered = "ANSWERED"
call_state_text CallState.connected = "CONNECTED"
call_state_text CallState.completed = "COMPLETED"
call_state_text CallState.failed = "FAILED"
call_state_text CallState.cancelled = "CANCELLED"
call_state_text CallState.abandoned = "ABANDONED"

abbrev pub borrower_state_text : BorrowerState → String
borrower_state_text BorrowerState.pending = "PENDING"
borrower_state_text BorrowerState.locked = "LOCKED"
borrower_state_text BorrowerState.in_call = "IN_CALL"
borrower_state_text BorrowerState.done = "DONE"
borrower_state_text BorrowerState.exhausted = "EXHAUSTED"
borrower_state_text BorrowerState.suppressed = "SUPPRESSED"

abbrev pub reason_text : ReasonCode → String
reason_text ReasonCode.ok = "OK"
reason_text ReasonCode.no_agents = "NO_AGENTS"
reason_text ReasonCode.overdial_cap = "OVERDIAL_CAP"
reason_text ReasonCode.abandon_budget_breach = "ABANDON_BUDGET_BREACH"
reason_text ReasonCode.provider_degraded = "PROVIDER_DEGRADED"
reason_text ReasonCode.insufficient_samples = "INSUFFICIENT_SAMPLES"
reason_text ReasonCode.estimator_unstable = "ESTIMATOR_UNSTABLE"
reason_text ReasonCode.ringing_hard_cap = "RINGING_HARD_CAP"
reason_text ReasonCode.cooldown_forced_progressive = "COOLDOWN_FORCED_PROGRESSIVE"
reason_text ReasonCode.campaign_paused = "CAMPAIGN_PAUSED"
