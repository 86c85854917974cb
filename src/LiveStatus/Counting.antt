-- ===== src/LiveStatus/Counting.antt =====
-- The counts by state of src/smartdialer/live_status.py, as counts of the rows.
use text.Mathlib.Text.{◌==◌ as str_eq}
use text.Mathlib.TextEquality.{eq_iff}
use smart_dialer.Common.{
  ℕ, ◌+◌, ◌≡◌, refl, String, Bool, ◌&&◌, List, [], ◌∷◌, arith, count, length, select,
}
use smart_dialer.Repo.Counters.{one_if}
use smart_dialer.LiveStatus.{bump, grouped, get_or_zero, counts, sum_values}

pub get_or_zero-bump :
    (s t : String) (rs : List (String × ℕ))
    → get_or_zero s (bump t rs) ≡ get_or_zero s rs + one_if (str_eq t s)
get_or_zero-bump s t [] = ground arith
get_or_zero-bump s t (r ∷ rs) =
    ground (arith, eq_iff r.0 t, eq_iff r.0 s, eq_iff t s, get_or_zero-bump s t rs)

-- How often a text stands in a list of texts.
abbrev pub occurs : String → List String → ℕ
occurs t [] = 0
occurs t (s ∷ ss) = one_if (str_eq t s) + occurs t ss

sum_values-bump :
    (t : String) (rs : List (String × ℕ)) (states : List String)
    → sum_values (counts (bump t rs) states) ≡ sum_values (counts rs states) + occurs t states
unfolding counts
sum_values-bump t rs [] = refl
sum_values-bump t rs (s ∷ ss) = omega (arith, get_or_zero-bump s t rs, sum_values-bump t rs ss)

sum_values-nil : (states : List String) → sum_values (counts [] states) ≡ 0
unfolding counts
sum_values-nil [] = refl
sum_values-nil (s ∷ ss) = omega (arith, sum_values-nil ss)

module _ {A : Type 0} (text_of : A → String) where
  pub get_or_zero-grouped :
      (s : String) (xs : List A)
      → get_or_zero s (grouped text_of xs) ≡ count (λ x. str_eq (text_of x) s) xs
  unfolding grouped
  get_or_zero-grouped s [] = refl
  get_or_zero-grouped s (x ∷ xs) =
      ground (arith, get_or_zero-bump s (text_of x) (grouped text_of xs), get_or_zero-grouped s xs)

  -- The counts add up to the number of rows, if the list has the text of every row once.
  pub sum_values-counts :
      (states : List String)
      → ((x : A) → occurs (text_of x) states ≡ 1)
      → (xs : List A) → sum_values (counts (grouped text_of xs) states) ≡ length xs
  unfolding grouped
  sum_values-counts states h [] = sum_values-nil states
  sum_values-counts states h (x ∷ xs) = omega (
    arith,
    sum_values-bump (text_of x) (grouped text_of xs) states,
    h x,
    sum_values-counts states h xs,
  )

pub length-select : {A : Type 0} (p : A → Bool) (xs : List A) → length (select p xs) ≡ count p xs
length-select p [] = refl
length-select p (x ∷ xs) = ground (arith, length-select p xs)

pub count-select :
    {A : Type 0} (p q : A → Bool) (xs : List A) → count q (select p xs) ≡ count (λ x. p x && q x) xs
count-select p q [] = refl
count-select p q (x ∷ xs) = ground (arith, count-select p q xs)
