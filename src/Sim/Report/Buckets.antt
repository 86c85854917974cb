-- ===== src/Sim/Report/Buckets.antt =====
-- The series of the chart of reason codes of src/smartdialer/sim/report.py count every row once.
use text.Mathlib.Text.{◌==◌ as str_eq}
use smart_dialer.Common.{
  ℕ, zero, suc, ◌+◌, ◌<◌, ◌≡◌, refl, ap, ◌∙◌, Float, String, Bool, List, [], ◌∷◌, Option, none,
  some, arith, length, count, Bool-cases, inl, inr,
}
use smart_dialer.Sim.Runner.{SimRow}
use smart_dialer.Sim.Report.{
  add_at, zeros, bucket_of, width_of, filled, reason_series, code_of, last_of,
}

abbrev pub sum : List ℕ → ℕ
sum [] = 0
sum (x ∷ xs) = x + sum xs

length-add_at : (i : ℕ) (xs : List ℕ) → length (add_at i xs) ≡ length xs
length-add_at i [] = refl
length-add_at zero (x ∷ xs) = refl
length-add_at (suc i) (x ∷ xs) = ap suc (length-add_at i xs)

sum-add_at : (i : ℕ) (xs : List ℕ) → i < length xs → sum (add_at i xs) ≡ sum xs + 1
sum-add_at i [] h = absurd (omega arith)
sum-add_at zero (x ∷ xs) h = omega arith
sum-add_at (suc i) (x ∷ xs) h = omega (arith, sum-add_at i xs (omega arith))

zeros_lem : (n : ℕ) → (length (zeros n) ≡ n) × (sum (zeros n) ≡ 0)
zeros_lem zero = (refl, refl)
zeros_lem (suc n) = let k = zeros_lem n in (omega (arith, k.0), omega (arith, k.1))

-- What a series of a code has to be, of rows in so many buckets.
abbrev pub IsSeries : {F : Type 0} → ℕ → String → List (SimRow F) → Option (List ℕ) → Type 0
IsSeries buckets code rows none = rows ≡ []
IsSeries buckets code rows (some xs) =
    (length xs ≡ buckets) × (sum xs ≡ count (λ r. str_eq (code_of r) code) rows)

module _ (fl : Float) (code : String) (buckets : ℕ) where
  bucket_of-lt : (width t : fl.Number) → 0 < buckets → bucket_of fl buckets width t < buckets
  bucket_of-lt width t h = omega arith

  filled_lem :
      (width : fl.Number) (rows : List (SimRow fl.Number)) (xs : List ℕ)
      → 0 < buckets
      → length xs ≡ buckets
      → (length (filled fl code buckets width rows xs) ≡ buckets)
        × (sum (filled fl code buckets width rows xs)
            ≡ sum xs + count (λ r. str_eq (code_of r) code) rows)
  unfolding filled
  filled_lem width [] xs h l = (l, omega arith)
  filled_lem width (r ∷ rs) xs h l = elim (Bool-cases (str_eq (code_of r) code)) [
    | inl e ↦
        let i = bucket_of fl buckets width r.sim_time in
        let k = filled_lem width rs (add_at i xs) h (length-add_at i xs ∙ l) in
        rw e (
          k.0,
          omega (arith, k.1, sum-add_at i xs (omega (arith, l, bucket_of-lt width r.sim_time h))),
        )
    | inr e ↦ rw e (filled_lem width rs xs h l)
  ]

  -- With at least one bucket: the series of a code has a number for each bucket, and they add up to
  -- the number of rows with the code, so a row is never lost or counted twice. It is left out only
  -- without rows.
  pub reason_series-IsSeries :
      (truthy : fl.Number → Bool) (rows : List (SimRow fl.Number))
      → 0 < buckets
      → IsSeries buckets code rows (reason_series fl truthy buckets code rows)
  unfolding reason_series
  reason_series-IsSeries truthy [] h = refl
  reason_series-IsSeries truthy (r ∷ rs) h =
      let z = zeros_lem buckets in
      let k =
        filled_lem (width_of fl truthy buckets (last_of r rs).sim_time) (r ∷ rs) (zeros buckets) h
          z.0 in
      (k.0, omega (arith, k.1, z.1))
