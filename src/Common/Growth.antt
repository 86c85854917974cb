-- ===== src/Common/Growth.antt =====
-- How a table changes: its rows move along a relation, and new rows stand behind the old ones.
use mathlib.Core.Path.{◌≡◌, refl, ◌∙◌, subst}
use mathlib.Core.Bool.{Bool, true}
use mathlib.Core.Option
use mathlib.Core.Option.{Option, none, some}
use mathlib.Core.List.{List, [], ◌∷◌, ◌++◌}
use mathlib.Core.Logic.{inl, inr}
use native.Mathlib.Omega.{arith}
use smart_dialer.Common.Tests.{if◌then◌else◌, Bool-cases}
use smart_dialer.Common.Rows.{All, find, update_where, returning}

abbrev pub Extends : {A : Type 0} → (A → A → Type 0) → List A → List A → Type 0
Extends R [] ys = Unit
Extends R (x ∷ xs) [] = ⊥
Extends R (x ∷ xs) (y ∷ ys) = R x y × Extends R xs ys

module _ {A : Type 0} (R : A → A → Type 0) where
  pub Extends-refl : ((x : A) → R x x) → (xs : List A) → Extends R xs xs
  Extends-refl r [] = tt
  Extends-refl r (x ∷ xs) = (r x, Extends-refl r xs)

  pub Extends-trans :
      ((x y z : A) → R x y → R y z → R x z)
      → (xs ys zs : List A) → Extends R xs ys
      → Extends R ys zs
      → Extends R xs zs
  Extends-trans t [] ys zs h k = tt
  Extends-trans t (x ∷ xs) [] zs h k = absurd h
  Extends-trans t (x ∷ xs) (y ∷ ys) [] h k = absurd k
  Extends-trans t (x ∷ xs) (y ∷ ys) (z ∷ zs) h k =
      (t x y z h.0 k.0, Extends-trans t xs ys zs h.1 k.1)

  pub Extends-append : ((x : A) → R x x) → (xs ys : List A) → Extends R xs (xs ++ ys)
  Extends-append r [] ys = tt
  Extends-append r (x ∷ xs) ys = (r x, Extends-append r xs ys)

  -- An UPDATE follows the relation if it does so at the rows that meet its condition and a
  -- property that all rows have.
  pub Extends-update_where :
      (P : A → Type 0) (p : A → Bool) (f : A → A)
      → ((x : A) → R x x)
      → ((x : A) → P x → p x ≡ true → R x (f x))
      → (xs : List A) → All P xs
      → Extends R xs (update_where p f xs)
  Extends-update_where P p f r s [] h = tt
  Extends-update_where P p f r s (x ∷ xs) h = elim (Bool-cases (p x)) [
    | inl e ↦ rw e (s x h.0 e, Extends-update_where P p f r s xs h.1)
    | inr e ↦ rw e (r x, Extends-update_where P p f r s xs h.1)
  ]

  -- What a condition finds is found again, if the condition does not change along the relation.
  pub find-Extends :
      (p : A → Bool)
      → ((x y : A) → R x y → p y ≡ p x)
      → (xs ys : List A) (x : A) → Extends R xs ys
      → find p xs ≡ some x
      → (y : A) × (find p ys ≡ some y) × R x y
  find-Extends p s [] ys x h e = absurd (ground arith)
  find-Extends p s (z ∷ xs) [] x h e = absurd h
  find-Extends p s (z ∷ xs) (y ∷ ys) x h e = elim (Bool-cases (p z)) [
    | inl t ↦ let q : z ≡ x = ground arith in (y, rw (s z y h.0 ∙ t), subst (λ w. R w y) q h.0)
    | inr t ↦ rw (s z y h.0 ∙ t) (find-Extends p s xs ys x h.1 (ground arith))
  ]

-- A SELECT after an UPDATE that leaves its condition alone.
pub find-update_where :
    {A : Type 0} (p q : A → Bool) (f : A → A)
    → ((x : A) → q (f x) ≡ q x)
    → (xs : List A)
    → find q (update_where p f xs) ≡ Option.map (λ x. if p x then f x else x) (find q xs)
find-update_where p q f s [] = refl
find-update_where p q f s (x ∷ xs) = ground (arith, s x, find-update_where p q f s xs)

-- A row that a condition finds meets it.
pub find-holds : {A : Type 0} (p : A → Bool) (xs : List A) (x : A) → find p xs ≡ some x → p x ≡ true
find-holds p [] x h = absurd (ground arith)
find-holds p (y ∷ xs) x h = ground (arith, find-holds p xs x)

-- An UPDATE that meets no row changes nothing.
pub update_where_miss :
    {A : Type 0} (p : A → Bool) (f : A → A) (xs : List A)
    → find p xs ≡ none
    → update_where p f xs ≡ xs
update_where_miss p f [] h = refl
update_where_miss p f (x ∷ xs) h = ground (arith, update_where_miss p f xs)

-- What an UPDATE returns is the image of the first row that it meets.
pub returning-find :
    {A : Type 0} (p : A → Bool) (f : A → A) (xs : List A)
    → returning p f xs ≡ Option.map f (find p xs)
returning-find p f [] = refl
returning-find p f (x ∷ xs) = ground (arith, returning-find p f xs)

module _ {A : Type 0} (P : A → Type 0) where
  pub All-update_where :
      (p : A → Bool) (f : A → A)
      → ((x : A) → P x → p x ≡ true → P (f x))
      → (xs : List A) → All P xs
      → All P (update_where p f xs)
  All-update_where p f s [] h = tt
  All-update_where p f s (x ∷ xs) h = elim (Bool-cases (p x)) [
    | inl e ↦ rw e (s x h.0 e, All-update_where p f s xs h.1)
    | inr e ↦ rw e (h.0, All-update_where p f s xs h.1)
  ]

  pub All-snoc : (xs : List A) (x : A) → All P xs → P x → All P (xs ++ x ∷ [])
  All-snoc [] x h k = (k, tt)
  All-snoc (y ∷ xs) x h k = (h.0, All-snoc xs x h.1 k)

  -- A row that a condition finds has what all rows have, and meets the condition.
  pub find-All :
      (p : A → Bool) (xs : List A) (x : A) → All P xs → find p xs ≡ some x → P x × (p x ≡ true)
  find-All p [] x h e = absurd (ground arith)
  find-All p (y ∷ xs) x h e = elim (Bool-cases (p y)) [
    | inl t ↦ let q : y ≡ x = ground arith in subst (λ w. P w × (p w ≡ true)) q (h.0, t)
    | inr t ↦ find-All p xs x h.1 (ground arith)
  ]
