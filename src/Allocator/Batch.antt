-- ===== src/Allocator/Batch.antt =====
-- allocate_batch of src/smartdialer/allocator/allocator.py: `asyncio.gather` runs as many
-- allocations as are asked for, and they interleave between their transactions. A schedule names
-- the allocation whose turn it is.
pub mod Settling
pub mod Sequential
use smart_dialer.Common.{
  ℕ, ◌≤◌, ◌≡◌, refl, zero, suc, String, Bool, true, false, Option, none, some, List, [], ◌∷◌, arith,
  if◌then◌else◌, length, select, Bool-cases, inl, inr, ◌==◌,
}
use smart_dialer.Store.{Db}
use smart_dialer.Allocator.{
  Config, Registry, Reservation, Outcome, World, reserve_and_create, reserve_until,
  max_deadlock_retries, finish_one,
}

-- Where an allocation is: before its first transaction, waiting for the provider with its
-- reservation, finished, or ended by an exception.
pub data Task : Type 0 where
  waiting : World → Task
  asking : World → Reservation → Task
  finished : Bool → Task
  raised : Task

abbrev pub succeeded : Task → Bool
succeeded (Task.finished b) = b
succeeded _ = false

abbrev pub is_raised : Task → Bool
is_raised Task.raised = true
is_raised _ = false

module _ {R : Type 0} (registry : Registry R) (cfg : Config) (worker : String)
    (campaign_id : ℕ) where
  abbrev pub reserved : World → R × Outcome (Option Reservation) → Db → R × Db × Task
  reserved w (r, Outcome.unique_violation) db = (r, db, Task.raised)
  reserved w (r, Outcome.commit db' none) db = (r, db', Task.finished false)
  reserved w (r, Outcome.commit db' (some v)) db = (r, db', Task.asking w v)

  -- A turn of an allocation.
  unfoldable pub turn : Task → R → Db → R × Db × Task
  turn (Task.waiting w) r db =
      reserved w
        (reserve_and_create registry campaign_id worker max_deadlock_retries
          (reserve_until w.clock_now cfg) w.attempts r db)
        db
  turn (Task.asking w v) r db =
      let (r', db', ok) = finish_one registry cfg worker w v w.answer r db in
      (r', db', Task.finished ok)
  turn t r db = (r, db, t)

  -- The turn of the allocation with the number.
  unfoldable pub turn_at : ℕ → List Task → R → Db → R × Db × List Task
  unfolding turn
  turn_at i [] r db = (r, db, [])
  turn_at zero (t ∷ ts) r db = let (r', db', t') = turn t r db in (r', db', t' ∷ ts)
  turn_at (suc i) (t ∷ ts) r db = let (r', db', ts') = turn_at i ts r db in (r', db', t ∷ ts')

  unfoldable pub interleave : List ℕ → List Task → R → Db → R × Db × List Task
  unfolding turn_at
  interleave [] ts r db = (r, db, ts)
  interleave (i ∷ schedule) ts r db =
      let (r', db', ts') = turn_at i ts r db in interleave schedule ts' r' db'

  -- `[self._allocate_one(campaign_id) for _ in range(n)]`
  abbrev pub started : ℕ → (ℕ → World) → List Task
  started zero worlds = []
  started (suc n) worlds = Task.waiting (worlds n) ∷ started n worlds

  -- `sum(1 for ok in results if ok)`; `none` when an allocation raised.
  abbrev pub gathered : List Task → Option ℕ
  gathered ts =
      if length (select is_raised ts) == 0 then some (length (select succeeded ts)) else none

  unfoldable pub allocate_batch : ℕ → (ℕ → World) → List ℕ → R → Db → R × Db × Option ℕ
  unfolding interleave
  allocate_batch n worlds schedule r db =
      let (r', db', ts) = interleave schedule (started n worlds) r db in (r', db', gathered ts)

  length-turn_at :
      (i : ℕ) (ts : List Task) (r : R) (db : Db) → length (turn_at i ts r db).2 ≡ length ts
  unfolding turn_at
  length-turn_at i [] r db = refl
  length-turn_at zero (t ∷ ts) r db = refl
  length-turn_at (suc i) (t ∷ ts) r db = omega (arith, length-turn_at i ts r db)

  length-interleave :
      (schedule : List ℕ) (ts : List Task) (r : R) (db : Db)
      → length (interleave schedule ts r db).2 ≡ length ts
  unfolding interleave
  length-interleave [] ts r db = refl
  length-interleave (i ∷ schedule) ts r db =
      let (r', db', ts') = turn_at i ts r db in
      omega (arith, length-interleave schedule ts' r' db', length-turn_at i ts r db)

  length-started : (n : ℕ) (worlds : ℕ → World) → length (started n worlds) ≡ n
  length-started zero worlds = refl
  length-started (suc n) worlds = omega (arith, length-started n worlds)

  select-le : (p : Task → Bool) (ts : List Task) → length (select p ts) ≤ length ts
  select-le p [] = omega arith
  select-le p (t ∷ ts) = ground (arith, select-le p ts)

  -- However its allocations interleave, whatever the world does and whichever of them have
  -- finished, a batch reports no more calls than it was told to place.
  pub batch_bounded :
      (n : ℕ) (worlds : ℕ → World) (schedule : List ℕ) (r : R) (db : Db) (k : ℕ)
      → (allocate_batch n worlds schedule r db).2 ≡ some k
      → k ≤ n
  unfolding allocate_batch
  batch_bounded n worlds schedule r db k h =
      let ts = (interleave schedule (started n worlds) r db).2 in
      let e = length-interleave schedule (started n worlds) r db in
      let l = select-le succeeded ts in
      elim (Bool-cases (length (select is_raised ts) == 0)) [
        | inl t ↦
            let q : length (select succeeded ts) ≡ k = ground arith in
            omega (arith, length-started n worlds)
        | inr t ↦ absurd (ground arith)
      ]
