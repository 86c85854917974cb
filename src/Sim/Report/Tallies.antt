-- ===== src/Sim/Report/Tallies.antt =====
-- The counts of reason codes that src/smartdialer/sim/report.py takes.
use text.Mathlib.Text.{◌==◌ as str_eq}
use text.Mathlib.TextEquality.{eq_iff}
use smart_dialer.Common.{
  ℕ, ◌+◌, ◌≤◌, ◌≡◌, refl, ap, String, true, List, [], ◌∷◌, arith, if◌then◌else◌, count, All, ltb,
  Bool-cases, inl, inr,
}
use smart_dialer.Repo.Counters.{one_if}
use smart_dialer.LiveStatus.{bump, get_or_zero}
use smart_dialer.LiveStatus.Counting.{get_or_zero-bump}
use smart_dialer.Sim.Report.{counter, most_common, dominant}

-- No row has more than a function of its text says.
abbrev Below : (String → ℕ) → List (String × ℕ) → Type 0
Below f rs = All (λ r. r.1 ≤ f r.0) rs

Below-le :
    (f g : String → ℕ) (rs : List (String × ℕ))
    → ((s : String) → f s ≤ g s)
    → Below f rs
    → Below g rs
Below-le f g [] l h = tt
Below-le f g (r ∷ rs) l h = (omega (arith, l r.0, h.0), Below-le f g rs l h.1)

bump-Below :
    (f g : String → ℕ) (t : String) (rs : List (String × ℕ))
    → ((s : String) → f s ≤ g s)
    → f t + 1 ≤ g t
    → Below f rs
    → Below g (bump t rs)
bump-Below f g t [] l m h = (omega (arith, m), tt)
bump-Below f g t (r ∷ rs) l m h = elim (Bool-cases (str_eq r.0 t)) [
  | inl e ↦
      let same : r.0 ≡ t = (eq_iff r.0 t).0 e in
      rw (e, bump) (omega (arith, h.0, ap f same, ap g same, m), Below-le f g rs l h.1)
  | inr e ↦ rw (e, bump) (omega (arith, l r.0, h.0), bump-Below f g t rs l m h.1)
]

-- How often a text stands in a list.
abbrev pub occurrences : List String → String → ℕ
occurrences ss s = count (λ t. str_eq t s) ss

eq_refl : (s : String) → str_eq s s ≡ true
eq_refl s = (eq_iff s s).1 refl

counter-Below :
    (f g : String → ℕ) (ss : List String) (acc : List (String × ℕ))
    → ((s : String) → f s + occurrences ss s ≤ g s)
    → Below f acc
    → Below g (counter acc ss)
unfolding counter
counter-Below f g [] acc l h = Below-le f g acc (λ s. omega (arith, l s)) h
counter-Below f g (t ∷ ss) acc l h =
    counter-Below (λ s. f s + one_if (str_eq t s)) g ss (bump t acc) (λ s. ground (arith, l s))
      (bump-Below f (λ s. f s + one_if (str_eq t s)) t acc (λ s. omega arith)
        (rw (eq_refl t) (omega arith)) h)

get_or_zero-counter :
    (s : String) (ss : List String) (acc : List (String × ℕ))
    → get_or_zero s (counter acc ss) ≡ get_or_zero s acc + occurrences ss s
unfolding counter
get_or_zero-counter s [] acc = omega arith
get_or_zero-counter s (t ∷ ss) acc =
    ground (arith, get_or_zero-counter s ss (bump t acc), get_or_zero-bump s t acc)

get_or_zero-le :
    (s : String) (n : ℕ) (rs : List (String × ℕ)) → All (λ r. r.1 ≤ n) rs → get_or_zero s rs ≤ n
get_or_zero-le s n [] h = omega arith
get_or_zero-le s n (r ∷ rs) h = ground (arith, get_or_zero-le s n rs h.1)

most_common-ge :
    (best : String × ℕ) (rs : List (String × ℕ))
    → (best.1 ≤ (most_common best rs).1) × All (λ r. r.1 ≤ (most_common best rs).1) rs
most_common-ge best [] = (omega arith, tt)
most_common-ge best (r ∷ rs) =
    let k = most_common-ge (if ltb best.1 r.1 then r else best) rs in
    (ground (arith, k.0), (ground (arith, k.0), k.1))

most_common-Below :
    (f : String → ℕ) (best : String × ℕ) (rs : List (String × ℕ))
    → best.1 ≤ f best.0
    → Below f rs
    → (most_common best rs).1 ≤ f (most_common best rs).0
most_common-Below f best [] h k = h
most_common-Below f best (r ∷ rs) h k =
    most_common-Below f (if ltb best.1 r.1 then r else best) rs (ground arith) k.1

-- The dominant text stands in a list as often as any other.
pub dominant_lem :
    (ss : List String) (s : String) → occurrences ss s ≤ occurrences ss (dominant (counter [] ss))
dominant_lem ss s =
    go (counter [] ss) (counter-Below (λ t. 0) (occurrences ss) ss [] (λ t. omega arith) tt)
      (omega (arith, get_or_zero-counter s ss []))
  where
    go :
        (rs : List (String × ℕ))
        → Below (occurrences ss) rs
        → get_or_zero s rs ≡ occurrences ss s
        → occurrences ss s ≤ occurrences ss (dominant rs)
    go [] b e = omega (arith, e)
    go (r ∷ rs) b e =
        let k = most_common-ge r rs in
        omega (
          arith,
          e,
          get_or_zero-le s (most_common r rs).1 (r ∷ rs) k,
          most_common-Below (occurrences ss) r rs b.0 b.1,
        )
