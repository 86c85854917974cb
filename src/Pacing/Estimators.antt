-- ===== src/Pacing/Estimators.antt =====
-- src/smartdialer/pacing/estimators.py: Wilson bounds of an answer rate, and running estimates over
-- a deque that keeps the latest observations.
pub mod Window
use smart_dialer.Common.{
  ℕ, ◌-◌, ◌+◌, ◌*◌, Float, min_of, max_of, Bool, true, false, Option, none, some, List, [], ◌∷◌,
  ◌++◌, if◌then◌else◌, ltb, ◌==◌, length, drop, count,
}

-- `deque(maxlen=window).append(x)`
abbrev pub appended {ℓ} : {A : Type ℓ} → ℕ → A → List A → List A
appended window x xs = drop (length (xs ++ x ∷ []) - window) (xs ++ x ∷ [])

module _ (fl : Float) where
  open fl use {Number, literal, of_ℕ, add, sub, mul, div, sqrt, lt}

  -- wilson_bounds
  abbrev pub centre_of : Number → Number → Number → Number
  centre_of phat n z = add phat (div (mul z z) (mul (literal 2 0) n))

  abbrev pub margin_of : Number → Number → Number → Number
  margin_of phat n z = mul z (
      sqrt (
        add (div (mul phat (sub (literal 1 0) phat)) n)
          (div (mul z z) (mul (mul (literal 4 0) n) n))))

  unfoldable pub wilson_bounds : Number → ℕ → Number → Number × Number
  wilson_bounds phat n z =
      let m = of_ℕ n in
      let denom = add (literal 1 0) (div (mul z z) m) in
      if n == 0 then (literal 5 2, literal 1 0) else (
        max_of fl (literal 1 2) (div (sub (centre_of phat m z) (margin_of phat m z)) denom),
        min_of fl (literal 1 0) (div (add (centre_of phat m z) (margin_of phat m z)) denom),
      )

  -- `sum(xs) / len(xs) if xs else default`, summed from the left.
  abbrev pub sum_from : Number → List Number → Number
  sum_from acc [] = acc
  sum_from acc (x ∷ xs) = sum_from (add acc x) xs

  abbrev pub mean_or : Number → List Number → Number
  mean_or default [] = default
  mean_or default (x ∷ xs) = div (sum_from (literal 0 0) (x ∷ xs)) (of_ℕ (length (x ∷ xs)))

  -- WilsonLowerBound: an observation is 1 for an answer and 0 for none.
  pub record WilsonLowerBound : Type 0 where
    pub z : Number
    pub window : ℕ
    pub obs : List Bool

  unfoldable pub record_answer : Bool → WilsonLowerBound → WilsonLowerBound
  record_answer answered w = record w { obs = appended w.window answered w.obs }

  abbrev pub point : WilsonLowerBound → Number
  point w = elim w.obs [
    | [] ↦ literal 0 0
    | x ∷ xs ↦ div (of_ℕ (count (λ b. b) (x ∷ xs))) (of_ℕ (length (x ∷ xs)))
  ]

  unfoldable pub lower_bound : WilsonLowerBound → Number
  unfolding wilson_bounds
  lower_bound w = (wilson_bounds (point w) (length w.obs) w.z).0

  unfoldable pub upper_bound : WilsonLowerBound → Number
  unfolding wilson_bounds
  upper_bound w = (wilson_bounds (point w) (length w.obs) w.z).1

  -- AsymmetricEWMA
  pub record AsymmetricEwma : Type 0 where
    pub fast_a : Number
    pub slow_a : Number
    pub fast : Option Number
    pub slow : Option Number

  abbrev pub smoothed : Number → Number → Option Number → Number
  smoothed a x none = x
  smoothed a x (some old) = add (mul a x) (mul (sub (literal 1 0) a) old)

  unfoldable pub record_rate : Number → AsymmetricEwma → AsymmetricEwma
  record_rate x e = record e {
    fast = some (smoothed e.fast_a x e.fast);
    slow = some (smoothed e.slow_a x e.slow);
  }

  -- value. `record` sets both averages, so the second is there when the first is.
  abbrev pub ewma_value : AsymmetricEwma → Number
  ewma_value e = elim e.fast [
    | none ↦ literal 0 0
    | some fast ↦ elim e.slow [ none ↦ fast | some slow ↦ min_of fl fast slow ]
  ]

  -- SetupTimeEstimator. `seconds >= 0` is read as "not below 0".
  pub record SetupTimeEstimator : Type 0 where
    pub window : ℕ
    pub default_s : Number
    pub obs : List Number

  unfoldable pub record_setup : Number → SetupTimeEstimator → SetupTimeEstimator
  record_setup seconds e =
      if lt seconds (literal 0 0) then e else record e { obs = appended e.window seconds e.obs }

  abbrev pub setup_mean : SetupTimeEstimator → Number
  setup_mean e = mean_or e.default_s e.obs
