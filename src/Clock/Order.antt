-- ===== src/Clock/Order.antt =====
-- The virtual clock of src/smartdialer/clock.py never goes back and wakes nobody early or late.
use smart_dialer.Common.{
  ℕ, ◌+◌, ◌≤◌, ◌<◌, ◌≡◌, refl, List, [], ◌∷◌, arith, All, ltb, leb, Bool-cases, inl, inr, ◌==◌,
}
use smart_dialer.Clock.{VirtualClock, heappush, sleep, pop_due, Advance, advance_to_next}

-- The deadlines rise, from `lo` on.
abbrev pub Sorted : ℕ → List (ℕ × ℕ) → Type 0
Sorted lo [] = Unit
Sorted lo (w ∷ ws) = (lo ≤ w.0) × Sorted w.0 ws

-- No waiter is overdue.
abbrev pub ClockIsValid : VirtualClock → Type 0
ClockIsValid c = Sorted c.now c.waiters

Sorted-le : (a b : ℕ) (ws : List (ℕ × ℕ)) → a ≤ b → Sorted b ws → Sorted a ws
Sorted-le a b [] l h = tt
Sorted-le a b (w ∷ ws) l h = (omega (arith, h.0), h.1)

Sorted-heappush :
    (lo : ℕ) (w : ℕ × ℕ) (ws : List (ℕ × ℕ)) → lo ≤ w.0 → Sorted lo ws → Sorted lo (heappush w ws)
Sorted-heappush lo w [] l h = (l, tt)
Sorted-heappush lo w (v ∷ vs) l h = elim (Bool-cases (ltb w.0 v.0)) [
  | inl e ↦ rw (e, heappush) (l, (ground arith, h.1))
  | inr e ↦ rw (e, heappush) (h.0, Sorted-heappush v.0 w vs (ground arith) h.1)
]

pub sleep-ClockIsValid : (ms : ℕ) (c : VirtualClock) → ClockIsValid c → ClockIsValid (sleep ms c)
unfolding sleep
sleep-ClockIsValid ms c h = Sorted-heappush c.now (c.now + ms, c.seq + 1) c.waiters (omega arith) h

Sorted-above : (now lo : ℕ) (ws : List (ℕ × ℕ)) → now < lo → Sorted lo ws → All (λ w. now < w.0) ws
Sorted-above now lo [] l h = tt
Sorted-above now lo (w ∷ ws) l h =
    (omega (arith, h.0), Sorted-above now w.0 ws (omega (arith, h.0)) h.1)

due_from :
    (lo lo' now : ℕ) (ws : List (ℕ × ℕ))
    → lo ≤ lo'
    → All (λ w. (lo' ≤ w.0) × (w.0 ≤ now)) ws
    → All (λ w. (lo ≤ w.0) × (w.0 ≤ now)) ws
due_from lo lo' now [] l h = tt
due_from lo lo' now (w ∷ ws) l h = ((omega arith, h.0.1), due_from lo lo' now ws l h.1)

-- Of sorted waiters, the due ones are those with a deadline up to now, and the rest is later.
pop_due-splits :
    (now lo : ℕ) (ws : List (ℕ × ℕ))
    → Sorted lo ws
    → All (λ w. (lo ≤ w.0) × (w.0 ≤ now)) (pop_due now ws).0
      × All (λ w. now < w.0) (pop_due now ws).1
      × Sorted now (pop_due now ws).1
pop_due-splits now lo [] h = (tt, tt, tt)
pop_due-splits now lo (w ∷ ws) h = elim (Bool-cases (leb w.0 now)) [
  | inl e ↦
      let k = pop_due-splits now w.0 ws h.1 in
      rw (e, pop_due) (((h.0, ground arith), due_from lo w.0 now _ h.0 k.0), k.1, k.2)
  | inr e ↦
      let l : now < w.0 = ground arith in
      rw (e, pop_due) (tt, (l, Sorted-above now w.0 ws l h.1), (omega arith, h.1))
]

-- What an advance of a clock may come to.
abbrev pub IsOnTime : VirtualClock → Advance → Type 0
IsOnTime c Advance.held = 0 < c.critical_depth
IsOnTime c Advance.idle = c.waiters ≡ []
IsOnTime c (Advance.woke c' due) =
    ClockIsValid c'
    × (c.now ≤ c'.now)
    × All (λ w. (c'.now ≤ w.0) × (w.0 ≤ c'.now)) due
    × All (λ w. c'.now < w.0) c'.waiters

-- From a clock without overdue waiters: an advance is held only while a task is critical and idle
-- only without waiters. Else it never goes back, wakes only waiters whose deadline is the new time,
-- and leaves those waiting whose deadlines are later still.
pub advance_to_next-IsOnTime : (c : VirtualClock) → ClockIsValid c → IsOnTime c (advance_to_next c)
unfolding advance_to_next
advance_to_next-IsOnTime c h = elim (Bool-cases (c.critical_depth == 0)) [
  | inl t ↦ rw (t, advance_to_next) (woken c.waiters h)
  | inr t ↦ rw (t, advance_to_next) (ground arith)
]
  where
    woken :
        (ws : List (ℕ × ℕ))
        → Sorted c.now ws
        → IsOnTime
            (record c { waiters = ws })
            (elim ws [
              | [] ↦ Advance.idle
              | w ∷ ws ↦
                  Advance.woke
                    (record c { now = w.0; waiters = (pop_due w.0 (w ∷ ws)).1 })
                    (pop_due w.0 (w ∷ ws)).0
            ])
    woken [] h = refl
    woken (w ∷ ws) h =
        let k = pop_due-splits w.0 w.0 (w ∷ ws) (omega arith, h.1) in (k.2, h.0, k.0, k.1)
