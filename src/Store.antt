-- ===== src/Store.antt =====
-- The tables of migrations/001_init.sql that the repositories of src/smartdialer/repo read and
-- write: one record per row, and the database as the lists of its rows in the order of insertion.
-- A time is a number of milliseconds since some origin; a nullable column
-- is an `Option`. The id columns count up from the database's `next_…` (BIGSERIAL).
pub mod Statements
pub mod Evolution
pub mod Validity
pub mod Keeping
use smart_dialer.Common.{ℕ, ◌*◌, String, Option, Bool, List}
use smart_dialer.Domain.Enums.{AgentState, BorrowerState, CallState, PacingMode, ReasonCode}
use smart_dialer.Domain.Transitions.{Anomaly}

-- A duration that the source gives in seconds.
abbrev pub seconds : ℕ → ℕ
seconds n = n * 1000

pub record Agent : Type 0 where
  pub id : ℕ
  pub campaign_id : ℕ
  pub ext_ref : String
  pub state : AgentState
  pub version : ℕ
  pub lease_owner : Option String
  pub lease_expires_at : Option ℕ
  pub current_call_id : Option ℕ
  pub state_changed_at : ℕ
  pub updated_at : ℕ

pub record Borrower : Type 0 where
  pub id : ℕ
  pub campaign_id : ℕ
  pub phone : String
  pub priority : ℕ
  pub state : BorrowerState
  pub attempt_count : ℕ
  pub max_attempts : ℕ
  pub next_eligible_at : ℕ
  pub locked_by : Option String
  pub locked_until : Option ℕ

-- The text `campaign:borrower:attempt`, by its three numbers.
pub record IdempotencyKey : Type 0 where
  pub campaign : ℕ
  pub borrower : ℕ
  pub attempt : ℕ

pub record Call : Type 0 where
  pub id : ℕ
  pub campaign_id : ℕ
  pub agent_id : Option ℕ
  pub borrower_id : ℕ
  pub provider : String
  pub provider_call_id : Option String
  pub state : CallState
  pub state_rank : ℕ
  pub attempt_no : ℕ
  pub idempotency_key : IdempotencyKey
  pub lease_owner : Option String
  pub lease_expires_at : Option ℕ
  pub initiated_at : Option ℕ
  pub ringing_at : Option ℕ
  pub answered_at : Option ℕ
  pub connected_at : Option ℕ
  pub terminal_at : Option ℕ
  pub failure_reason : Option String

-- A row of `provider_events`; the payload is not read by the program and is left out.
pub record Event : Type 0 where
  pub id : ℕ
  pub provider : String
  pub provider_event_id : String
  pub provider_call_id : Option String
  pub call_id : Option ℕ
  pub event_type : String
  pub provider_ts : ℕ
  pub received_at : ℕ
  pub applied : Bool
  pub anomaly : Option Anomaly

-- A row of `pacing_decisions`, less the JSON column `inputs`.
pub record Decision : Type 0 where
  pub campaign_id : ℕ
  pub tick_at : ℕ
  pub sim_tick : Option ℕ
  pub mode : PacingMode
  pub requested : ℕ
  pub approved : ℕ
  pub reason_code : ReasonCode

pub record Db : Type 0 where
  pub agents : List Agent
  pub borrowers : List Borrower
  pub calls : List Call
  pub events : List Event
  pub decisions : List Decision
  pub next_agent : ℕ
  pub next_borrower : ℕ
  pub next_call : ℕ
  pub next_event : ℕ
