-- ===== src/Clock.antt =====
-- src/smartdialer/clock.py: the virtual clock. Times are in milliseconds, and a waiter is its
-- deadline with the number of its `sleep`, which the heap orders by.
pub mod Order
pub mod Driving
use smart_dialer.Common.{
  ℕ, map, ◌++◌, ◌-◌, ◌+◌, ◌≤◌, Bool, List, [], ◌∷◌, if◌then◌else◌, ltb, leb, ◌==◌,
}

pub record VirtualClock : Type 0 where
  pub now : ℕ
  pub waiters : List (ℕ × ℕ)
  pub seq : ℕ
  pub critical_depth : ℕ

-- heapq.heappush: the heap as the list in its order. A later number goes behind equal deadlines.
abbrev pub heappush : ℕ × ℕ → List (ℕ × ℕ) → List (ℕ × ℕ)
heappush w [] = w ∷ []
heappush w (v ∷ vs) = let rest = heappush w vs in if ltb w.0 v.0 then w ∷ v ∷ vs else v ∷ rest

-- sleep, up to the wait itself.
unfoldable pub sleep : ℕ → VirtualClock → VirtualClock
sleep ms c = record c { seq = c.seq + 1; waiters = heappush (c.now + ms, c.seq + 1) c.waiters }

-- critical, at its begin and at its end.
abbrev pub enter : VirtualClock → VirtualClock
enter c = record c { critical_depth = c.critical_depth + 1 }

abbrev pub leave : VirtualClock → VirtualClock
leave c = record c { critical_depth = c.critical_depth - 1 }

-- The loop of heappop: the waiters that are due, and those that are left.
abbrev pub pop_due : ℕ → List (ℕ × ℕ) → List (ℕ × ℕ) × List (ℕ × ℕ)
pop_due now [] = ([], [])
pop_due now (w ∷ ws) =
    let (due, left) = pop_due now ws in if leb w.0 now then (w ∷ due, left) else ([], w ∷ ws)

-- What advance_to_next comes to: it waits while a task is critical, finds no waiter, or wakes some.
pub data Advance : Type 0 where
  held idle : Advance
  woke : VirtualClock → List (ℕ × ℕ) → Advance

unfoldable pub advance_to_next : VirtualClock → Advance
advance_to_next c =
    if c.critical_depth == 0
    then elim c.waiters [
      | [] ↦ Advance.idle
      | w ∷ ws ↦
          let (due, left) = pop_due w.0 (w ∷ ws) in
          Advance.woke (record c { now = w.0; waiters = left }) due
    ]
    else Advance.held

-- What a task does to the clock, and what the tasks that can run do to it one after the other.
pub data Use : Type 0 where
  sleeps : ℕ → Use
  enters leaves : Use

unfoldable pub used : List Use → VirtualClock → VirtualClock
unfolding sleep
used [] c = c
used (Use.sleeps ms ∷ us) c = used us (sleep ms c)
used (Use.enters ∷ us) c = used us (enter c)
used (Use.leaves ∷ us) c = used us (leave c)

-- Why run_until is where it is: the end is reached, nobody waits any more, or it still runs.
pub data Stop : Type 0 where
  reached deserted running : Stop

-- The time of each waking, and the waiter.
pub record Run : Type 0 where
  pub stop : Stop
  pub clock : VirtualClock
  pub woken : List (ℕ × (ℕ × ℕ))

abbrev pub woken_at : ℕ → List (ℕ × ℕ) → List (ℕ × (ℕ × ℕ))
woken_at now due = map (λ w. (now, w)) due

-- How the driver goes on by what an advance came to: while a task is critical the advance looks
-- again, and without a waiter it gives up.
abbrev pub driven_on : VirtualClock → (VirtualClock → Run) → Advance → Run
driven_on c go_on Advance.held = go_on c
driven_on c go_on Advance.idle = record { stop = Stop.deserted; clock = c; woken = [] }
driven_on c go_on (Advance.woke c' due) =
    let rest = go_on c' in record rest { woken = woken_at c'.now due ++ rest.woken }

-- run_until. Before each look at the waiters the tasks that can run do so.
unfoldable pub run_until : ℕ → List (List Use) → VirtualClock → Run
unfolding used advance_to_next
run_until end [] c = record {
  stop = if ltb c.now end then Stop.running else Stop.reached;
  clock = c;
  woken = [];
}
run_until end (us ∷ turns) c =
    let c1 = used us c in
    if ltb c.now end
    then driven_on c1 (λ x. run_until end turns x) (advance_to_next c1)
    else record { stop = Stop.reached; clock = c; woken = [] }
