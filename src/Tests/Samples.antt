-- ===== src/Tests/Samples.antt =====
-- A campaign with two agents and two borrowers. Agent 1 dials borrower 1: its call 1 is ringing at
-- provider "mock_a" under the reference "P-1". Agent 2 and borrower 2 are free.
use smart_dialer.Common.{false, none, some, [], ◌∷◌, arith}
use smart_dialer.Domain.Enums.{AgentState, BorrowerState, CallState}
use smart_dialer.Store.{Agent, Borrower, Call, Db, Event}
use smart_dialer.Store.Validity.{IsValid}

abbrev pub dialing_agent : Agent
dialing_agent = record {
  id = 1;
  campaign_id = 1;
  ext_ref = "agent-1";
  state = AgentState.dialing;
  version = 2;
  lease_owner = some "w1";
  lease_expires_at = some 46_000;
  current_call_id = some 1;
  state_changed_at = 1_000;
  updated_at = 1_000;
}

abbrev pub free_agent : Agent
free_agent = record {
  id = 2;
  campaign_id = 1;
  ext_ref = "agent-2";
  state = AgentState.available;
  version = 5;
  lease_owner = none;
  lease_expires_at = none;
  current_call_id = none;
  state_changed_at = 500;
  updated_at = 500;
}

abbrev pub called_borrower : Borrower
called_borrower = record {
  id = 1;
  campaign_id = 1;
  phone = "+15550001";
  priority = 100;
  state = BorrowerState.locked;
  attempt_count = 0;
  max_attempts = 3;
  next_eligible_at = 0;
  locked_by = some "w1";
  locked_until = some 30_000;
}

abbrev pub waiting_borrower : Borrower
waiting_borrower = record {
  id = 2;
  campaign_id = 1;
  phone = "+15550002";
  priority = 100;
  state = BorrowerState.pending;
  attempt_count = 1;
  max_attempts = 3;
  next_eligible_at = 900;
  locked_by = none;
  locked_until = none;
}

abbrev pub ringing_call : Call
ringing_call = record {
  id = 1;
  campaign_id = 1;
  agent_id = some 1;
  borrower_id = 1;
  provider = "mock_a";
  provider_call_id = some "P-1";
  state = CallState.ringing;
  state_rank = 3;
  attempt_no = 1;
  idempotency_key = record { campaign = 1; borrower = 1; attempt = 1 };
  lease_owner = some "w1";
  lease_expires_at = none;
  initiated_at = some 1_000;
  ringing_at = some 1_200;
  answered_at = none;
  connected_at = none;
  terminal_at = none;
  failure_reason = none;
}

abbrev pub sample : Db
sample = record {
  agents = dialing_agent ∷ free_agent ∷ [];
  borrowers = called_borrower ∷ waiting_borrower ∷ [];
  calls = ringing_call ∷ [];
  events = [];
  decisions = [];
  next_agent = 3;
  next_borrower = 3;
  next_call = 2;
  next_event = 1;
}

pub sample-IsValid : IsValid sample
sample-IsValid = ground arith

-- The same with the call at its end.
abbrev pub ended_call : Call
ended_call = record ringing_call {
  state = CallState.completed;
  state_rank = 6;
  answered_at = some 1_500;
  connected_at = some 1_500;
  terminal_at = some 9_000;
}

abbrev pub ended : Db
ended = record sample { agents = free_agent ∷ []; calls = ended_call ∷ [] }

pub ended-IsValid : IsValid ended
ended-IsValid = ground arith

-- What the provider says of call 1.
abbrev pub answered_event : Event
answered_event = record {
  id = 1;
  provider = "mock_a";
  provider_event_id = "e-1";
  provider_call_id = some "P-1";
  call_id = none;
  event_type = "answered";
  provider_ts = 1_500;
  received_at = 1_510;
  applied = false;
  anomaly = none;
}

abbrev pub ringing_event : Event
ringing_event = record answered_event { id = 2; provider_event_id = "e-2"; event_type = "ringing" }
