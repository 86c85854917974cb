-- ===== src/Sim/Runner/Turns.antt =====
-- What the loop of src/smartdialer/sim/runner.py does in any number of turns.
use native.Mathlib.Nat.{
  div-add-mod, mul-add-div, div-eq_of_lt, mul-add-mod_self_left, mod-eq_of_lt, mul-div_right,
  mul-mod_right, mod-lt,
}
use smart_dialer.Common.{
  ℕ, ◌+◌, ◌*◌, ◌/◌, ◌%◌, ◌≤◌, ◌<◌, ◌≡◌, refl, ap, ◌∙◌, Float, List, [], ◌∷◌, ◌++◌, ◌⊎◌, inl, inr,
  arith, if◌then◌else◌, length, ◌==◌, ltb, Bool-cases,
}
use smart_dialer.Domain.Enums.{PacingMode}
use smart_dialer.Store.{Db}
use smart_dialer.Safety.{Outside}
use smart_dialer.Sim.Runner.{SimRow, Turn, SimState, sim_row, sim_turn, sim_loop}

-- The rows are numbered from a number on.
abbrev Numbered : {F : Type 0} → ℕ → List (SimRow F) → Type 0
Numbered n [] = Unit
Numbered n (r ∷ rs) = (r.tick ≡ n) × Numbered (n + 1) rs

Numbered-snoc :
    {F : Type 0} (n : ℕ) (rs : List (SimRow F)) (r : SimRow F)
    → Numbered n rs
    → r.tick ≡ n + length rs
    → Numbered n (rs ++ r ∷ [])
Numbered-snoc n [] r h e = (omega arith, tt)
Numbered-snoc n (x ∷ rs) r h e = (h.0, Numbered-snoc (n + 1) rs r h.1 (omega arith))

length-snoc : {A : Type 0} (xs : List A) (x : A) → length (xs ++ x ∷ []) ≡ length xs + 1
length-snoc [] x = refl
length-snoc (y ∷ xs) x = omega (arith, length-snoc xs x)

-- From a quotient and a remainder of n, those of n + 1.
next_quotient :
    (k n : ℕ)
    → 0 < k
    → (((n + 1) / k ≡ n / k) × ((n + 1) % k ≡ n % k + 1))
      ⊎ (((n + 1) / k ≡ n / k + 1) × ((n + 1) % k ≡ 0))
next_quotient k n h =
    let step : n + 1 ≡ k * (n / k) + (n % k + 1) = omega (arith, div-add-mod n k) in
    elim (Bool-cases (ltb (n % k + 1) k)) [
      | inl e ↦
          let small : n % k + 1 < k = ground arith in
          inl (
            ap (λ m. m / k) step
                ∙ mul-add-div h (n / k) (n % k + 1)
                ∙ omega (arith, div-eq_of_lt small),
            ap (λ m. m % k) step ∙ mul-add-mod_self_left k (n / k) (n % k + 1) ∙ mod-eq_of_lt small,
          )
      | inr e ↦
          let big : k ≤ n % k + 1 = ground arith in
          let full : n + 1 ≡ k * (n / k + 1) = omega (arith, step, mod-lt n h) in
          inr (
            ap (λ m. m / k) full ∙ mul-div_right (n / k + 1) h,
            ap (λ m. m % k) full ∙ mul-mod_right k (n / k + 1),
          )
    ]

module _ (fl : Float) (round : ℕ → fl.Number → fl.Number) (reap_every : ℕ) where
  -- What the state of the loop says of the turns so far.
  record OnSchedule (s : SimState fl round) : Type 0 where
    numbered : Numbered 1 s.rows
    rows_count : length s.rows ≡ s.tick_i
    reaps_count : s.reaps ≡ s.tick_i / reap_every

module _ (fl : Float) (round : ℕ → fl.Number → fl.Number) (outside : Outside Db) (mode : PacingMode)
    (campaign_id wrapup_s reap_every : ℕ) where
  reaps_next :
      (n reaps : ℕ)
      → 0 < reap_every
      → reaps ≡ n / reap_every
      → (if (n + 1) % reap_every == 0 then reaps + 1 else reaps) ≡ (n + 1) / reap_every
  reaps_next n reaps h e = elim (next_quotient reap_every n h) [
    | inl q ↦ ground arith
    | inr q ↦ ground arith
  ]

  sim_turn-OnSchedule :
      (t : Turn fl round) (s : SimState fl round)
      → 0 < reap_every
      → OnSchedule fl round reap_every s
      → OnSchedule fl round reap_every
          (sim_turn fl round outside mode campaign_id wrapup_s reap_every t s)
  unfolding sim_turn sim_row
  sim_turn-OnSchedule t s h o = record {
    numbered = Numbered-snoc 1 s.rows _ o.numbered (omega (arith, o.rows_count));
    rows_count = length-snoc s.rows _ ∙ ap (λ n. n + 1) o.rows_count;
    reaps_count = reaps_next s.tick_i s.reaps h o.reaps_count;
  }

  sim_turn-tick_i :
      (t : Turn fl round) (s : SimState fl round)
      → (sim_turn fl round outside mode campaign_id wrapup_s reap_every t s).tick_i ≡ s.tick_i + 1
  unfolding sim_turn
  sim_turn-tick_i t s = refl

  -- A loop whose state is on schedule stays so, and takes one number for each turn: a row per turn,
  -- numbered from 1, and one call of the reaper for every `reap_every` turns.
  sim_loop-OnSchedule :
      (ts : List (Turn fl round)) (s : SimState fl round)
      → 0 < reap_every
      → OnSchedule fl round reap_every s
      → let e = sim_loop fl round outside mode campaign_id wrapup_s reap_every ts s in
        OnSchedule fl round reap_every e × (e.tick_i ≡ s.tick_i + length ts)
  unfolding sim_loop
  sim_loop-OnSchedule [] s h o = (o, omega arith)
  sim_loop-OnSchedule (t ∷ ts) s h o =
      let rest =
        sim_loop-OnSchedule ts (sim_turn fl round outside mode campaign_id wrapup_s reap_every t s)
          h (sim_turn-OnSchedule t s h o) in
      (rest.0, omega (arith, rest.1, sim_turn-tick_i t s))
