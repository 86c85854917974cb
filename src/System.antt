-- ===== src/System.antt =====
-- The whole program as a transition system: every transaction that the workers, the webhook route
-- and the simulator run on the database is a step, in any order and with any arguments. A worker
-- that crashes is one that takes no further step.
pub mod Histories
pub mod Counting
pub mod Replay
pub mod Uniqueness
pub mod Allocation
use smart_dialer.Common.{ℕ, ◌≡◌, String, Bool, Option, List}
use smart_dialer.Store.{Decision, Db}
use smart_dialer.Repo.Agents
use smart_dialer.Repo.Borrowers
use smart_dialer.Repo.Decisions
use smart_dialer.Repo.Events
use smart_dialer.Allocator.{
  Attempt, Outcome, Registry, Reservation, reserve_tx, reject_tx, record_tx, pull_back_tx,
}
use smart_dialer.Worker.EventApplier.{drain}
use smart_dialer.Worker.Reaper.{reap}

pub data Step (d : Db) : Db → Type 1 where
  create_agent :
      (campaign_id : ℕ) (ext_ref : String) (now : ℕ)
      → Step d (Agents.create campaign_id ext_ref now d).0
  login : (agent_id now : ℕ) → Step d (Agents.login agent_id now d).0
  logout : (agent_id now : ℕ) → Step d (Agents.logout agent_id now d).0
  pause : (agent_id now : ℕ) → Step d (Agents.pause agent_id now d).0
  seed :
      (campaign_id : ℕ) (phones : List String) (now : ℕ)
      → Step d (Borrowers.seed_many campaign_id phones now d)
  ingest :
      (provider event_id : String) (ref : Option String) (etype : String) (ts now : ℕ)
      → Step d (Events.ingest provider event_id ref etype ts now d).0
  apply_events :
      (locked : ℕ → Bool) (limit clock_now wrapup_s now : ℕ)
      → Step d (drain locked limit clock_now wrapup_s now d).0
  sweep :
      (registry : Option (String → Bool)) (clock_now now : ℕ)
      → Step d (reap registry clock_now now d).0
  reserve :
      {R : Type 0} (registry : Registry R) (campaign_id : ℕ) (worker : String) (lease : ℕ)
      (t : Attempt) (r : R) {e : Db} {v : Option Reservation}
      → (reserve_tx registry campaign_id worker lease t r d).1 ≡ Outcome.commit e v
      → Step d e
  reject : (v : Reservation) (now : ℕ) → Step d (reject_tx v now d)
  record_call :
      (v : Reservation) (pcid worker : String) (dial_lease now : ℕ)
      → Step d (record_tx v pcid worker dial_lease now d)
  pull_back : (call_id now : ℕ) → Step d (pull_back_tx call_id now d).0
  decide : (r : Decision) → Step d (Decisions.record_decision r d)

pub data Reach (d : Db) : Db → Type 1 where
  here : Reach d d
  next : {e f : Db} → Reach d e → Step e f → Reach d f
