-- ===== src/System/Allocation.antt =====
-- The transactions of src/smartdialer/allocator/allocator.py as steps of the system, and its batches
-- and pull-backs as histories.
use smart_dialer.Common.{
  ℕ, zero, suc, ◌≡◌, refl, inl, inr, String, Bool, Option, none, some, List, [], ◌∷◌, ◌-◌, ◌==◌,
  length, select, Bool-cases,
}
use smart_dialer.Store.{Call, Db}
use smart_dialer.Repo.Calls
use smart_dialer.Allocator.{
  Config, Registry, Attempt, Fate, Reservation, Outcome, World, reserve_tx, reserve_and_create,
  record_initiated, finish_one, pull_back, pull_back_each, cancel_excess_ringing,
  max_deadlock_retries, reserve_until, dial_until,
}
use smart_dialer.Allocator.Keeping.{left_by}
use smart_dialer.Allocator.Batch.{
  Task, reserved, turn, turn_at, interleave, started, allocate_batch,
}
use smart_dialer.System.{Step, Reach}
use smart_dialer.System.Histories.{Reach-trans}

Reach-step : {d e : Db} → Step d e → Reach d e
Reach-step s = Reach.next Reach.here s

module _ {R : Type 0} (registry : Registry R) (cfg : Config) (worker : String)
    (campaign_id : ℕ) where
  -- The transaction of a reservation, by what it ended with.
  Reach-outcome :
      (lease : ℕ) (t : Attempt) (r : R) (d : Db) (o : Outcome (Option Reservation))
      → (reserve_tx registry campaign_id worker lease t r d).1 ≡ o
      → Reach d (left_by d o)
  Reach-outcome lease t r d (Outcome.commit e v) h =
      Reach-step (Step.reserve registry campaign_id worker lease t r h)
  Reach-outcome lease t r d Outcome.unique_violation h = Reach.here

  Reach-on_fate :
      (left lease : ℕ) (attempts : ℕ → Attempt) (r : R) (d : Db) (f : Fate)
      → (attempts left).fate ≡ f
      → ((r' : R)
          → Reach d (
              left_by d
                (reserve_and_create registry campaign_id worker left lease attempts r' d).1))
      → Reach d (
          left_by d
            (reserve_and_create registry campaign_id worker (suc left) lease attempts r d).1)
  unfolding reserve_and_create
  Reach-on_fate left lease attempts r d Fate.runs e ih =
      rw (e, reserve_and_create)
        (Reach-outcome lease (attempts left) r d
          (reserve_tx registry campaign_id worker lease (attempts left) r d).1 refl)
  Reach-on_fate left lease attempts r d Fate.deadlocks_early e ih =
      rw (e, reserve_and_create) (ih r)
  Reach-on_fate left lease attempts r d Fate.deadlocks_late e ih =
      rw (e, reserve_and_create) (ih (registry.pick r).0)

  Reach-reserve_and_create :
      (left lease : ℕ) (attempts : ℕ → Attempt) (r : R) (d : Db)
      → Reach d
          (left_by d (reserve_and_create registry campaign_id worker left lease attempts r d).1)
  unfolding reserve_and_create
  Reach-reserve_and_create zero lease attempts r d = Reach.here
  Reach-reserve_and_create (suc left) lease attempts r d =
      Reach-on_fate left lease attempts r d (attempts left).fate refl
        (λ r'. Reach-reserve_and_create left lease attempts r' d)

  Reach-record_initiated :
      (left : ℕ) (deadlocks : ℕ → Bool) (v : Reservation) (pcid : String) (dial_lease now : ℕ)
      (d : Db)
      → Reach d (record_initiated left deadlocks v pcid worker dial_lease now d).0
  unfolding record_initiated
  Reach-record_initiated zero deadlocks v pcid dial_lease now d = Reach.here
  Reach-record_initiated (suc left) deadlocks v pcid dial_lease now d =
      elim (Bool-cases (deadlocks left)) [
        | inl e ↦
            rw (e, record_initiated) (Reach-record_initiated left deadlocks v pcid dial_lease now d)
        | inr e ↦
            rw (e, record_initiated) (Reach-step (Step.record_call v pcid worker dial_lease now))
      ]

  Reach-finish_one :
      (w : World) (v : Reservation) (answer : Option String) (r : R) (d : Db)
      → Reach d (finish_one registry cfg worker w v answer r d).1
  unfolding finish_one
  Reach-finish_one w v none r d = Reach-step (Step.reject v w.now)
  Reach-finish_one w v (some pcid) r d =
      Reach-record_initiated max_deadlock_retries w.deadlocks v pcid (dial_until w.answered_at cfg)
        w.now d

  Reach-reserved :
      (w : World) (p : R × Outcome (Option Reservation)) (d : Db)
      → Reach d (left_by d p.1)
      → Reach d (reserved registry cfg worker campaign_id w p d).1
  Reach-reserved w (r, Outcome.unique_violation) d h = Reach.here
  Reach-reserved w (r, Outcome.commit e none) d h = h
  Reach-reserved w (r, Outcome.commit e (some v)) d h = h

  Reach-turn : (t : Task) (r : R) (d : Db) → Reach d (turn registry cfg worker campaign_id t r d).1
  unfolding turn
  Reach-turn (Task.waiting w) r d =
      let lease = reserve_until w.clock_now cfg in
      Reach-reserved w
        (reserve_and_create registry campaign_id worker max_deadlock_retries lease w.attempts r d) d
        (Reach-reserve_and_create max_deadlock_retries lease w.attempts r d)
  Reach-turn (Task.asking w v) r d = Reach-finish_one w v w.answer r d
  Reach-turn (Task.finished b) r d = Reach.here
  Reach-turn Task.raised r d = Reach.here

  Reach-turn_at :
      (i : ℕ) (ts : List Task) (r : R) (d : Db)
      → Reach d (turn_at registry cfg worker campaign_id i ts r d).1
  unfolding turn_at
  Reach-turn_at i [] r d = Reach.here
  Reach-turn_at zero (t ∷ ts) r d = Reach-turn t r d
  Reach-turn_at (suc i) (t ∷ ts) r d = Reach-turn_at i ts r d

  Reach-interleave :
      (schedule : List ℕ) (ts : List Task) (r : R) (d : Db)
      → Reach d (interleave registry cfg worker campaign_id schedule ts r d).1
  unfolding interleave
  Reach-interleave [] ts r d = Reach.here
  Reach-interleave (i ∷ schedule) ts r d =
      let (r', d', ts') = turn_at registry cfg worker campaign_id i ts r d in
      Reach-trans (Reach-turn_at i ts r d) (Reach-interleave schedule ts' r' d')

  -- A batch is a history of the system, whatever its schedule and the world.
  pub Reach-allocate_batch :
      (n : ℕ) (worlds : ℕ → World) (schedule : List ℕ) (r : R) (d : Db)
      → Reach d (allocate_batch registry cfg worker campaign_id n worlds schedule r d).1
  unfolding allocate_batch
  Reach-allocate_batch n worlds schedule r d =
      Reach-interleave schedule (started registry cfg worker campaign_id n worlds) r d

Reach-pull_back :
    (left : ℕ) (deadlocks : ℕ → Bool) (call_id now : ℕ) (d : Db)
    → Reach d (pull_back left deadlocks call_id now d).0
unfolding pull_back
Reach-pull_back zero deadlocks call_id now d = Reach.here
Reach-pull_back (suc left) deadlocks call_id now d = elim (Bool-cases (deadlocks left)) [
  | inl e ↦ rw (e, pull_back) (Reach-pull_back left deadlocks call_id now d)
  | inr e ↦ rw (e, pull_back) (Reach-step (Step.pull_back call_id now))
]

Reach-pull_back_each :
    (rows : List Call) (meanwhile : ℕ → Db → Db) (deadlocks : ℕ → ℕ → Bool) (now n : ℕ) (d : Db)
    → ((i : ℕ) (e : Db) → Reach e (meanwhile i e))
    → Reach d (pull_back_each rows meanwhile deadlocks now n d).0
unfolding pull_back_each
Reach-pull_back_each [] meanwhile deadlocks now n d h = Reach.here
Reach-pull_back_each (c ∷ rows) meanwhile deadlocks now n d h = Reach-trans (h c.id d) (
    Reach-trans (Reach-pull_back max_deadlock_retries (deadlocks c.id) c.id now (meanwhile c.id d))
      (Reach-pull_back_each rows meanwhile deadlocks now _ _ h))

-- A pull-back is a history of the system, if what other tasks do between its transactions is one.
pub Reach-cancel_excess_ringing :
    (campaign_id allowed : ℕ) (meanwhile : ℕ → Db → Db) (deadlocks : ℕ → ℕ → Bool) (now : ℕ)
    (d : Db)
    → ((i : ℕ) (e : Db) → Reach e (meanwhile i e))
    → Reach d (cancel_excess_ringing campaign_id allowed meanwhile deadlocks now d).0
unfolding cancel_excess_ringing
Reach-cancel_excess_ringing campaign_id allowed meanwhile deadlocks now d h =
    let excess = length (select (Calls.ringing_in campaign_id) d.calls) - allowed in
    elim (Bool-cases (excess == 0)) [
      | inl e ↦ rw (e, cancel_excess_ringing) Reach.here
      | inr e ↦
          rw (e, cancel_excess_ringing)
            (Reach-pull_back_each (Calls.list_ringing_oldest campaign_id excess d) meanwhile
              deadlocks now 0 d h)
    ]
