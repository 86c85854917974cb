-- ===== src/Allocator/Batch/Settling.antt =====
-- The tables after a batch of allocations (allocate_batch of
-- src/smartdialer/allocator/allocator.py).
use smart_dialer.Common.{ℕ, zero, suc, String, Option, none, some, List, [], ◌∷◌}
use smart_dialer.Store.{Db}
use smart_dialer.Store.Evolution.{Evolves}
use smart_dialer.Store.Validity.{IsValid}
use smart_dialer.Store.Keeping.{Keeps, Keeps-refl, Keeps-trans}
use smart_dialer.Allocator.{
  Config, Registry, Reservation, Outcome, World, reserve_and_create, reserve_until,
  max_deadlock_retries,
}
use smart_dialer.Allocator.Keeping.{left_by, reserve_and_create-Keeps, finish_one-Keeps}
use smart_dialer.Allocator.Batch.{
  Task, reserved, turn, turn_at, interleave, started, allocate_batch,
}

module _ {R : Type 0} (registry : Registry R) (cfg : Config) (worker : String)
    (campaign_id : ℕ) where
  reserved-Keeps :
      (w : World) (p : R × Outcome (Option Reservation)) (d : Db)
      → Keeps d (left_by d p.1)
      → Keeps d (reserved registry cfg worker campaign_id w p d).1
  reserved-Keeps w (r, Outcome.unique_violation) d k = Keeps-refl d
  reserved-Keeps w (r, Outcome.commit e none) d k = k
  reserved-Keeps w (r, Outcome.commit e (some v)) d k = k

  turn-Keeps : (t : Task) (r : R) (d : Db) → Keeps d (turn registry cfg worker campaign_id t r d).1
  unfolding turn
  turn-Keeps (Task.waiting w) r d =
      reserved-Keeps w
        (reserve_and_create registry campaign_id worker max_deadlock_retries
          (reserve_until w.clock_now cfg) w.attempts r d)
        d
        (reserve_and_create-Keeps registry campaign_id worker max_deadlock_retries
          (reserve_until w.clock_now cfg) w.attempts r d)
  turn-Keeps (Task.asking w v) r d = finish_one-Keeps registry cfg worker w v w.answer r d
  turn-Keeps (Task.finished b) r d = Keeps-refl d
  turn-Keeps Task.raised r d = Keeps-refl d

  turn_at-Keeps :
      (i : ℕ) (ts : List Task) (r : R) (d : Db)
      → Keeps d (turn_at registry cfg worker campaign_id i ts r d).1
  unfolding turn_at
  turn_at-Keeps i [] r d = Keeps-refl d
  turn_at-Keeps zero (t ∷ ts) r d = turn-Keeps t r d
  turn_at-Keeps (suc i) (t ∷ ts) r d = turn_at-Keeps i ts r d

  interleave-Keeps :
      (schedule : List ℕ) (ts : List Task) (r : R) (d : Db)
      → Keeps d (interleave registry cfg worker campaign_id schedule ts r d).1
  unfolding interleave
  interleave-Keeps [] ts r d = Keeps-refl d
  interleave-Keeps (i ∷ schedule) ts r d =
      let (r', d', ts') = turn_at registry cfg worker campaign_id i ts r d in
      Keeps-trans d d' _ (turn_at-Keeps i ts r d) (interleave-Keeps schedule ts' r' d')

  -- From valid tables: whatever the world does, a batch of any schedule leaves valid tables, whose
  -- rows followed their evolution.
  pub batch-IsValid :
      (n : ℕ) (worlds : ℕ → World) (schedule : List ℕ) (r : R) (d : Db)
      → IsValid d
      → let e = (allocate_batch registry cfg worker campaign_id n worlds schedule r d).1 in
        IsValid e × Evolves d e
  unfolding allocate_batch
  batch-IsValid n worlds schedule r d v =
      interleave-Keeps schedule (started registry cfg worker campaign_id n worlds) r d v
