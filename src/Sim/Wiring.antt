-- ===== src/Sim/Wiring.antt =====
-- How run_scenario of src/smartdialer/sim/runner.py puts the program's parts together: the safety
-- controller is given the program's own allocator and log of decisions.
use smart_dialer.Common.{ℕ, Bool, String, Option, none, some, List}
use smart_dialer.Store.{Db, Decision}
use smart_dialer.Repo.Decisions
use smart_dialer.Allocator
use smart_dialer.Allocator.{Config, Registry, World}
use smart_dialer.Allocator.Batch
use smart_dialer.Safety.{Outside}
use smart_dialer.System.{Step, Reach}
use smart_dialer.System.Allocation.{Reach-allocate_batch, Reach-cancel_excess_ringing}

-- What the allocator meets when it is called with a campaign, a number and the database: the state
-- of the providers' registry, the world and the schedule of the batch; and, in a pull-back, what
-- other tasks do before each call, the deadlocks and the time.
pub record Surroundings (R : Type 0) : Type 0 where
  pub state : ℕ → ℕ → Db → R
  pub worlds : ℕ → ℕ → Db → ℕ → World
  pub schedule : ℕ → ℕ → Db → List ℕ
  pub meanwhile : ℕ → ℕ → Db → ℕ → Db → Db
  pub deadlocks : ℕ → ℕ → Db → ℕ → ℕ → Bool
  pub now : ℕ → ℕ → Db → ℕ

-- A batch that raises ends the simulator's loop: what is modelled of it are the turns before.
abbrev pub placed_of : Option ℕ → ℕ
placed_of none = 0
placed_of (some k) = k

module _ {R : Type 0} (registry : Registry R) (cfg : Config) (worker : String)
    (around : Surroundings R) where
  -- `allocator` and `repos.decisions`, as `controller` has them.
  unfoldable pub wired : Outside Db
  unfolding Batch.allocate_batch Allocator.cancel_excess_ringing
  wired = record {
    record_decision = λ r db. Decisions.record_decision r db;
    allocate_batch = λ c n db.
        let (r, db', placed) =
          Batch.allocate_batch registry cfg worker c n (around.worlds c n db)
            (around.schedule c n db) (around.state c n db) db in
        (db', placed_of placed);
    cancel_excess_ringing = λ c n db.
        Allocator.cancel_excess_ringing c n (around.meanwhile c n db) (around.deadlocks c n db)
          (around.now c n db) db;
  }

-- What the pacing loop calls runs transactions of the system only.
pub record RunsSteps (outside : Outside Db) : Type 1 where
  pub records : (r : Decision) (d : Db) → Reach d (outside.record_decision r d)
  pub places : (c n : ℕ) (d : Db) → Reach d (outside.allocate_batch c n d).0
  pub pulls_back : (c n : ℕ) (d : Db) → Reach d (outside.cancel_excess_ringing c n d).0

-- What other tasks do between the transactions of a pull-back is a history.
abbrev pub IsSurrounded : {R : Type 0} → Surroundings R → Type 1
IsSurrounded around = (c n : ℕ) (d : Db) (i : ℕ) (e : Db) → Reach e (around.meanwhile c n d i e)

pub wired-RunsSteps :
    {R : Type 0} (registry : Registry R) (cfg : Config) (worker : String) (around : Surroundings R)
    → IsSurrounded around
    → RunsSteps (wired registry cfg worker around)
unfolding wired
wired-RunsSteps registry cfg worker around h = record {
  records = λ r d. Reach.next Reach.here (Step.decide r);
  places = λ c n d.
      Reach-allocate_batch registry cfg worker c n (around.worlds c n d) (around.schedule c n d)
        (around.state c n d) d;
  pulls_back = λ c n d.
      Reach-cancel_excess_ringing c n (around.meanwhile c n d) (around.deadlocks c n d)
        (around.now c n d) d (h c n d);
}
