-- ===== src/Pacing/Estimators/Window.antt =====
-- The bounds of the estimates of src/smartdialer/pacing/estimators.py.
use smart_dialer.Common.{
  ℕ, zero, suc, ◌-◌, ◌+◌, ◌≡◌, ◌≤◌, ◌<◌, refl, Float, Irreflexive, min_of, max_of, min, Bool, true,
  false, List, [], ◌∷◌, ◌++◌, arith, length, drop, Bool-cases, inl, inr, ◌==◌,
}
use smart_dialer.Pacing.Estimators.{appended, WilsonLowerBound, record_answer, wilson_bounds}

length-drop : {A : Type 0} (n : ℕ) (xs : List A) → length (drop n xs) ≡ length xs - n
length-drop zero xs = omega arith
length-drop (suc n) [] = omega arith
length-drop (suc n) (x ∷ xs) = omega (arith, length-drop n xs)

length-snoc : {A : Type 0} (xs : List A) (x : A) → length (xs ++ x ∷ []) ≡ suc (length xs)
length-snoc [] x = refl
length-snoc (y ∷ ys) x = omega (arith, length-snoc ys x)

length-appended :
    {A : Type 0} (window : ℕ) (x : A) (xs : List A)
    → length (appended window x xs) ≡ min (suc (length xs)) window
length-appended window x xs =
    omega (arith, length-drop (length (xs ++ x ∷ []) - window) (xs ++ x ∷ []), length-snoc xs x)

-- No number is both below and above another: true of every IEEE format.
abbrev pub Asymmetric : Float → Type 0
Asymmetric fl = (x y : fl.Number) → fl.lt x y ≡ true → fl.lt y x ≡ false

module _ (fl : Float) where
  open fl use {Number, literal, lt}

  abbrev pub observed : List Bool → WilsonLowerBound fl → WilsonLowerBound fl
  observed [] w = w
  observed (b ∷ bs) w = observed bs (record_answer fl b w)

  -- An estimator that starts within its window holds, after any observations, as many as it was
  -- given, up to its window.
  pub samples_observed :
      (bs : List Bool) (w : WilsonLowerBound fl)
      → length w.obs ≤ w.window
      → length (observed bs w).obs ≡ min (length w.obs + length bs) w.window
  unfolding record_answer
  samples_observed [] w h = omega arith
  samples_observed (b ∷ bs) w h =
      let e = length-appended w.window b w.obs in
      let k = samples_observed bs (record_answer fl b w) (omega arith) in omega arith

  -- With floats of which none is below itself and no two below each other: from at least one
  -- sample, the lower Wilson bound is not below 0.01 and the upper one is not above 1.
  wilson_within :
      (phat : Number) (n : ℕ) (z : Number)
      → Irreflexive fl
      → Asymmetric fl
      → 0 < n
      → (lt (wilson_bounds fl phat n z).0 (literal 1 2) ≡ false)
        × (lt (literal 1 0) (wilson_bounds fl phat n z).1 ≡ false)
  unfolding wilson_bounds
  wilson_within phat n z irr asym h =
      let e : (n == 0) ≡ false = ground arith in
      rw (e, wilson_bounds) (floor_holds _ _, cap_holds _ _)
    where
      floor_holds : (a x : Number) → lt (max_of fl a x) a ≡ false
      floor_holds a x = elim (Bool-cases (lt a x)) [
        | inl t ↦ rw t (asym a x t)
        | inr t ↦ rw t (irr a)
      ]

      cap_holds : (a x : Number) → lt a (min_of fl a x) ≡ false
      cap_holds a x = elim (Bool-cases (lt x a)) [
        | inl t ↦ rw t (asym x a t)
        | inr t ↦ rw t (irr a)
      ]
