-- ===== src/Clock/Driving.antt =====
-- Driving the virtual clock of src/smartdialer/clock.py up to a time.
use smart_dialer.Common.{
  ℕ, ◌≤◌, ◌<◌, ◌≡◌, refl, List, [], ◌∷◌, ◌++◌, arith, All, ltb, Bool-cases, inl, inr,
}
use smart_dialer.Clock.{
  VirtualClock, sleep, Advance, advance_to_next, Use, used, Stop, Run, run_until, woken_at,
  driven_on,
}
use smart_dialer.Clock.Order.{ClockIsValid, IsOnTime, sleep-ClockIsValid, advance_to_next-IsOnTime}

used-ClockIsValid :
    (us : List Use) (c : VirtualClock)
    → ClockIsValid c
    → ClockIsValid (used us c) × ((used us c).now ≡ c.now)
unfolding used sleep
used-ClockIsValid [] c h = (h, refl)
used-ClockIsValid (Use.sleeps ms ∷ us) c h =
    used-ClockIsValid us (sleep ms c) (sleep-ClockIsValid ms c h)
used-ClockIsValid (Use.enters ∷ us) c h = used-ClockIsValid us _ h
used-ClockIsValid (Use.leaves ∷ us) c h = used-ClockIsValid us _ h

-- What a reason to stop says of the clock.
abbrev pub StopsRightly : ℕ → Stop → VirtualClock → Type 0
StopsRightly end Stop.reached c = end ≤ c.now
StopsRightly end Stop.deserted c = (c.now < end) × (c.waiters ≡ [])
StopsRightly end Stop.running c = c.now < end

-- A waking at the waiter's deadline, between two times.
abbrev pub OnTime : ℕ → ℕ → ℕ × (ℕ × ℕ) → Type 0
OnTime lo hi p = (p.0 ≡ p.1.0) × (lo ≤ p.0) × (p.0 ≤ hi)

pub record RunIsRight (end : ℕ) (c : VirtualClock) (r : Run) : Type 0 where
  pub forward : c.now ≤ r.clock.now
  pub valid : ClockIsValid r.clock
  pub on_time : All (OnTime c.now r.clock.now) r.woken
  pub stops : StopsRightly end r.stop r.clock

OnTime-from :
    (lo mid hi : ℕ) (ps : List (ℕ × (ℕ × ℕ)))
    → lo ≤ mid
    → All (OnTime mid hi) ps
    → All (OnTime lo hi) ps
OnTime-from lo mid hi [] l h = tt
OnTime-from lo mid hi (p ∷ ps) l h =
    ((h.0.0, omega (arith, h.0.1), h.0.2), OnTime-from lo mid hi ps l h.1)

OnTime-woken :
    (lo now hi : ℕ) (due : List (ℕ × ℕ)) (ps : List (ℕ × (ℕ × ℕ)))
    → lo ≤ now
    → now ≤ hi
    → All (λ w. (now ≤ w.0) × (w.0 ≤ now)) due
    → All (OnTime lo hi) ps
    → All (OnTime lo hi) (woken_at now due ++ ps)
OnTime-woken lo now hi [] ps l m h k = k
OnTime-woken lo now hi (w ∷ due) ps l m h k =
    ((omega (arith, h.0.0, h.0.1), l, m), OnTime-woken lo now hi due ps l m h.1 k)

driven_on-RunIsRight :
    (end : ℕ) (c c1 : VirtualClock) (go_on : VirtualClock → Run)
    → ((x : VirtualClock) → ClockIsValid x → RunIsRight end x (go_on x))
    → c.now < end
    → c1.now ≡ c.now
    → ClockIsValid c1
    → (a : Advance) → IsOnTime c1 a
    → RunIsRight end c (driven_on c1 go_on a)
driven_on-RunIsRight end c c1 go_on h l q v Advance.held t =
    let k = h c1 v in
    record {
      forward = omega (arith, q, k.forward);
      valid = k.valid;
      on_time = OnTime-from c.now c1.now _ _ (omega arith) k.on_time;
      stops = k.stops;
    }
driven_on-RunIsRight end c c1 go_on h l q v Advance.idle t = record {
  forward = omega arith;
  valid = v;
  on_time = tt;
  stops = (omega arith, t);
}
driven_on-RunIsRight end c c1 go_on h l q v (Advance.woke c2 due) t =
    let k = h c2 t.0 in
    record {
      forward = omega (arith, t.1, k.forward);
      valid = k.valid;
      on_time =
          OnTime-woken c.now c2.now _ due _ (omega (arith, t.1)) k.forward t.2
            (OnTime-from c.now c2.now _ _ (omega (arith, t.1)) k.on_time);
      stops = k.stops;
    }

-- From a clock without overdue waiters, driving it up to a time, whatever the tasks do to it in
-- between: the time never goes back, no waiter is overdue at the end, every waking is at the
-- waiter's deadline, and the driver stops only when the time has come or when nobody waits.
pub run_until-RunIsRight :
    (end : ℕ) (turns : List (List Use)) (c : VirtualClock)
    → ClockIsValid c
    → RunIsRight end c (run_until end turns c)
unfolding run_until
run_until-RunIsRight end [] c h = elim (Bool-cases (ltb c.now end)) [
  | inl e ↦ rw e (record { forward = omega arith; valid = h; on_time = tt; stops = ground arith })
  | inr e ↦ rw e (record { forward = omega arith; valid = h; on_time = tt; stops = ground arith })
]
run_until-RunIsRight end (us ∷ turns) c h = elim (Bool-cases (ltb c.now end)) [
  | inl e ↦
      let u = used-ClockIsValid us c h in
      rw e (
        driven_on-RunIsRight end c (used us c) (λ x. run_until end turns x)
          (λ x v. run_until-RunIsRight end turns x v) (ground arith) u.1 u.0
          (advance_to_next (used us c)) (advance_to_next-IsOnTime (used us c) u.0))
  | inr e ↦ rw e (record { forward = omega arith; valid = h; on_time = tt; stops = ground arith })
]
