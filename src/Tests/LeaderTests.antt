-- ===== src/Tests/LeaderTests.antt =====
-- Advisory locks as the list of what is held, and two workers that elect a leader with them.
use smart_dialer.Common.{
  ℕ, ◌-◌, ◌≡◌, ◌≢◌, ◌↔◌, refl, Bool, true, false, not, ◌&&◌, ◌||◌, List, [], ◌∷◌, if◌then◌else◌,
  ◌==◌, count, select, arith,
}
use smart_dialer.Repo.Counters.{one_if}
use smart_dialer.Worker.Leader.{
  Locks, AreDocumented, Pacer, Fleet, IsFresh, Step, Reach, iterate, after_move,
}
use smart_dialer.Worker.Leader.Invariant.{holds}
use smart_dialer.Worker.Leader.Election.{one_leader, poll_wins_iff, two_leaders}

abbrev is_held : ℕ → ℕ → ℕ × ℕ → Bool
is_held i k h = h.0 == i && h.1 == k

-- Another session has the key.
abbrev taken : ℕ → ℕ → List (ℕ × ℕ) → Bool
taken i k [] = false
taken i k (h ∷ hs) = (h.1 == k && not (h.0 == i)) || taken i k hs

abbrev remove_one : ℕ → ℕ → List (ℕ × ℕ) → List (ℕ × ℕ)
remove_one i k [] = []
remove_one i k (h ∷ hs) = if is_held i k h then hs else h ∷ remove_one i k hs

abbrev held_list : Locks
held_list = record {
  Server = List (ℕ × ℕ);
  depth = λ s i k. count (is_held i k) s;
  try_lock = λ i k s. if taken i k s then (s, false) else ((i, k) ∷ s, true);
  unlock = remove_one;
  disconnect = λ i s. select (λ h. not (h.0 == i)) s;
}

not_taken :
    (i k : ℕ) (s : List (ℕ × ℕ)) → taken i k s ≡ false → (j : ℕ) → j ≢ i → count (is_held j k) s ≡ 0
not_taken i k [] e j n = refl
not_taken i k (h ∷ hs) e j n = ground (arith, not_taken i k hs (ground arith) j n)

free_for :
    (i k : ℕ) (s : List (ℕ × ℕ))
    → ((j : ℕ) → j ≢ i → count (is_held j k) s ≡ 0)
    → taken i k s ≡ false
free_for i k [] h = refl
free_for i k (g ∷ gs) h = ground (arith, h g.0, free_for i k gs (λ j n. ground (arith, h j n)))

count-remove_one :
    (i k j m : ℕ) (s : List (ℕ × ℕ))
    → count (is_held j m) (remove_one i k s) ≡ count (is_held j m) s - one_if (j == i && m == k)
count-remove_one i k j m [] = ground arith
count-remove_one i k j m (h ∷ hs) = ground (arith, count-remove_one i k j m hs)

count-select :
    (i j m : ℕ) (s : List (ℕ × ℕ))
    → count (is_held j m) (select (λ h. not (h.0 == i)) s)
      ≡ (if j == i then 0 else count (is_held j m) s)
count-select i j m [] = ground arith
count-select i j m (h ∷ hs) = ground (arith, count-select i j m hs)

held_list-AreDocumented : AreDocumented held_list
held_list-AreDocumented = record {
  granted = λ i k s e j n. not_taken i k s (ground arith) j n;
  grants = λ i k s h. ground (arith, free_for i k s h);
  try_depth = λ i k s j m. ground arith;
  unlock_depth = λ i k s j m. count-remove_one i k j m s;
  disconnect_depth = λ i s j m. count-select i j m s;
}

abbrev newcomer : Pacer
newcomer = record { campaign = 7; leader = false; running = true; ticking = false; linked = true }

abbrev morning : Fleet held_list
morning = record { server = []; pacer = λ i. newcomer }

morning-IsFresh : IsFresh held_list morning
morning-IsFresh = record { follows = λ i. refl; waits = λ i. refl; free = λ i k. refl }

-- Worker 0 has polled and is in its first tick.
abbrev led : Fleet held_list
led = after_move held_list 0 (iterate held_list) morning

led-Reach : Reach held_list morning led
led-Reach = Reach.next Reach.here (Step.iterates 0 refl refl)

one_leader_example : ◌≡◌ {A = ℕ} 0 0
unfolding iterate
one_leader_example =
    one_leader held_list held_list-AreDocumented morning-IsFresh led-Reach 0 0 refl refl refl

poll_wins_iff_example : ((iterate held_list 1 (led.pacer 1) led.server).1.ticking ≡ true) ↔ (
    (j : ℕ) → j ≢ 1 → (led.pacer j).campaign ≡ (led.pacer 1).campaign → holds (led.pacer j) ≡ false)
poll_wins_iff_example =
    poll_wins_iff held_list held_list-AreDocumented morning-IsFresh led-Reach 1 refl refl

two_leaders_example :
    (h : Fleet held_list) × Reach held_list morning h
    × ((h.pacer 0).ticking ≡ true)
    × ((h.pacer 1).ticking ≡ true)
    × ((h.pacer 1).campaign ≡ (h.pacer 0).campaign)
unfolding iterate
two_leaders_example =
    two_leaders held_list held_list-AreDocumented morning-IsFresh led-Reach 0 1 (omega arith) refl
      (refl, refl, refl) (refl, refl, refl, refl)
