-- ===== src/Common/Rows.antt =====
-- A table as the list of its rows: the statements SELECT and UPDATE over it, and the relation
-- between a table and a later version of it.
use Prim.Native.Nat.{ℕ, zero, suc}
use mathlib.Core.Bool.{Bool}
use mathlib.Core.Option.{Option, none, some}
use mathlib.Core.List.{List, [], ◌∷◌}
use smart_dialer.Common.Tests.{if◌then◌else◌}

module _ {ℓ} {A : Type ℓ} where
  abbrev pub length : List A → ℕ
  length [] = 0
  length (x ∷ xs) = suc (length xs)

  abbrev pub take : ℕ → List A → List A
  take zero xs = []
  take (suc n) [] = []
  take (suc n) (x ∷ xs) = x ∷ take n xs

  -- The rows that satisfy a WHERE clause, in the table's order.
  abbrev pub select : (A → Bool) → List A → List A
  select p [] = []
  select p (x ∷ xs) = if p x then x ∷ select p xs else select p xs

  -- The first of them, as asyncpg's `fetchrow` returns it.
  abbrev pub find : (A → Bool) → List A → Option A
  find p [] = none
  find p (x ∷ xs) = if p x then some x else find p xs

  -- UPDATE … WHERE.
  abbrev pub update_where : (A → Bool) → (A → A) → List A → List A
  update_where p f [] = []
  update_where p f (x ∷ xs) = (if p x then f x else x) ∷ update_where p f xs

  -- UPDATE … WHERE … RETURNING, by `fetchrow`: the first updated row.
  abbrev pub returning : (A → Bool) → (A → A) → List A → Option A
  returning p f [] = none
  returning p f (x ∷ xs) = if p x then some (f x) else returning p f xs

  abbrev pub All {κ} : (A → Type κ) → List A → Type κ
  All P [] = Unit
  All P (x ∷ xs) = P x × All P xs

  abbrev pub drop : ℕ → List A → List A
  drop zero xs = xs
  drop (suc n) [] = []
  drop (suc n) (x ∷ xs) = drop n xs

  abbrev pub reverse_onto : List A → List A → List A
  reverse_onto [] ys = ys
  reverse_onto (x ∷ xs) ys = reverse_onto xs (x ∷ ys)

  -- How many rows satisfy a condition: `count(*) FILTER (WHERE …)`, `sum(1 for … if …)`.
  abbrev pub count : (A → Bool) → List A → ℕ
  count p [] = 0
  count p (x ∷ xs) = let rest = count p xs in if p x then suc rest else rest

  -- The values that a computed, nullable column has.
  abbrev pub present {κ} : {B : Type κ} → (A → Option B) → List A → List B
  present f [] = []
  present f (x ∷ xs) = let rest = present f xs in elim (f x) [ none ↦ rest | some y ↦ y ∷ rest ]
