-- ===== src/Tests/SimTests.antt =====
-- The theorems about the virtual clock and the simulated provider.
use smart_dialer.Common.{List, ◌≡◌, none, arith, true, [], ◌∷◌, Bool, count, ltb}
use smart_dialer.Clock.{VirtualClock, Use, run_until}
use smart_dialer.Clock.Driving.{RunIsRight, run_until-RunIsRight}
use smart_dialer.Providers.Mock.{Life, MockEvent, run_lifecycle}
use smart_dialer.Providers.Mock.Delivery.{emitted, all_delivered}

abbrev clock : VirtualClock
clock = record {
  now = 1_000;
  waiters = (1_250, 3) ∷ (1_250, 5) ∷ (90_000, 2) ∷ [];
  seq = 5;
  critical_depth = 0;
}

-- Two tasks wait again, the second one for too long.
abbrev turns : List (List Use)
turns = [] ∷ (Use.enters ∷ Use.leaves ∷ Use.sleeps 250 ∷ []) ∷ (Use.sleeps 5_000 ∷ []) ∷ []

run_until-RunIsRight_example : RunIsRight 3_000 clock (run_until 3_000 turns clock)
run_until-RunIsRight_example = run_until-RunIsRight 3_000 turns clock (ground arith)

abbrev life : Life
life = record {
  started_at = 1_000;
  rung_at = 1_300;
  ended_at = 91_300;
  answered = true;
  first_id = 1;
  second_id = 2;
  third_id = 3;
  duplicate = λ i. ltb i 2;
  reorder = λ i. ltb 1 i;
}

abbrev is_late : MockEvent → Bool
is_late e = ltb 1_000 e.ts

all_delivered_example :
    ((run_lifecycle life none).0 ≡ none)
    × (count is_late (run_lifecycle life none).1 ≡ count is_late (emitted life))
all_delivered_example = all_delivered life is_late
