-- ===== src/Common/Least.antt =====
-- Ordering by two keys, the minor one first: the head is the least row.
use Prim.Native.Nat.{ℕ, ◌≤◌, ◌<◌}
use mathlib.Core.Path.{◌≡◌, refl}
use mathlib.Core.Bool.{true}
use mathlib.Core.List.{List, [], ◌∷◌}
use mathlib.Core.Logic.{◌⊎◌, inl, inr}
use native.Mathlib.Omega.{arith}
use smart_dialer.Common.Tests.{leb, Bool-cases}
use smart_dialer.Common.Rows.{All}
use smart_dialer.Common.Sort.{insert_by, order_by}

pub All-mono {ℓ} :
    {A : Type ℓ} (P Q : A → Type 0) → ((x : A) → P x → Q x) → (xs : List A) → All P xs → All Q xs
All-mono P Q f [] h = tt
All-mono P Q f (x ∷ xs) h = (f x h.0, All-mono P Q f xs h.1)

module _ {ℓ} {A : Type ℓ} (key : A → ℕ) where
  insert_by-All :
      (P : A → Type 0) (a : A) (xs : List A) → P a → All P xs → All P (insert_by key a xs)
  insert_by-All P a [] p h = (p, tt)
  insert_by-All P a (x ∷ xs) p h = elim (Bool-cases (leb (key a) (key x))) [
    | inl e ↦ rw (e, insert_by) (p, h)
    | inr e ↦ rw (e, insert_by) (h.0, insert_by-All P a xs p h.1)
  ]

  All-insert_by :
      (P : A → Type 0) (a : A) (xs : List A) → All P (insert_by key a xs) → P a × All P xs
  All-insert_by P a [] h = h
  All-insert_by P a (x ∷ xs) h = elim (Bool-cases (leb (key a) (key x))) [
    | inl e ↦ rw (e, insert_by) at h
    | inr e ↦
        let k = rw (e, insert_by) at h in let r = All-insert_by P a xs k.1 in (r.0, (k.0, r.1))
  ]

  pub order_by-All : (P : A → Type 0) (xs : List A) → All P xs → All P (order_by key xs)
  order_by-All P [] h = tt
  order_by-All P (x ∷ xs) h = insert_by-All P x (order_by key xs) h.0 (order_by-All P xs h.1)

  pub All-order_by : (P : A → Type 0) (xs : List A) → All P (order_by key xs) → All P xs
  All-order_by P [] h = tt
  All-order_by P (x ∷ xs) h =
      let r = All-insert_by P x (order_by key xs) h in (r.0, All-order_by P xs r.1)

  abbrev pub IsOrdered : List A → Type 0
  IsOrdered [] = Unit
  IsOrdered (x ∷ xs) = All (λ y. key x ≤ key y) xs × IsOrdered xs

  insert_by-IsOrdered : (a : A) (xs : List A) → IsOrdered xs → IsOrdered (insert_by key a xs)
  insert_by-IsOrdered a [] h = (tt, tt)
  insert_by-IsOrdered a (x ∷ xs) h = elim (Bool-cases (leb (key a) (key x))) [
    | inl e ↦
        rw (e, insert_by)
          (
            (
              ground arith,
              All-mono (λ y. key x ≤ key y) (λ y. key a ≤ key y) (λ y l. ground arith) xs h.0,
            ),
            h,
          )
    | inr e ↦
        rw (e, insert_by)
          (insert_by-All (λ y. key x ≤ key y) a xs (ground arith) h.0, insert_by-IsOrdered a xs h.1)
  ]

  pub order_by-IsOrdered : (xs : List A) → IsOrdered (order_by key xs)
  order_by-IsOrdered [] = tt
  order_by-IsOrdered (x ∷ xs) = insert_by-IsOrdered x (order_by key xs) (order_by-IsOrdered xs)

module _ {A : Type 0} (major minor : A → ℕ) where
  abbrev pub Precedes : A → A → Type 0
  Precedes a b = (major a < major b) ⊎ ((major a ≡ major b) × (minor a ≤ minor b))

  -- The head of the first list precedes the rows of the second.
  abbrev Leads : List A → List A → Type 0
  Leads [] ys = ys ≡ []
  Leads (x ∷ xs) ys = All (Precedes x) ys

  before :
      {y z x : A}
      → leb (major y) (major z) ≡ true
      → major z ≡ major x
      → minor y ≤ minor x
      → Precedes y x
  before e q m = ground arith

  insert_by-Leads :
      (y : A) (zs ys : List A)
      → All (λ x. minor y ≤ minor x) ys
      → Leads zs ys
      → Leads (insert_by major y zs) (y ∷ ys)
  insert_by-Leads y [] ys m h = rw h (inr (refl, omega arith), tt)
  insert_by-Leads y (z ∷ zs) ys m h = elim (Bool-cases (leb (major y) (major z))) [
    | inl e ↦ rw (e, insert_by) (inr (refl, omega arith), both e ys m h)
    | inr e ↦ rw (e, insert_by) (inl (ground arith), h)
  ]
    where
      both :
          leb (major y) (major z) ≡ true
          → (ys : List A) → All (λ x. minor y ≤ minor x) ys
          → All (Precedes z) ys
          → All (Precedes y) ys
      both e [] m h = tt
      both e (x ∷ xs) m h =
          (elim h.0 [ inl l ↦ inl (ground arith) | inr (q, l) ↦ before e q m.0 ], both e xs m.1 h.1)

  order_by-Leads : (xs : List A) → IsOrdered minor xs → Leads (order_by major xs) xs
  order_by-Leads [] h = refl
  order_by-Leads (x ∷ xs) h = insert_by-Leads x (order_by major xs) xs h.0 (order_by-Leads xs h.1)

  pub least_first :
      (xs : List A) (x : A) (rest : List A)
      → order_by major (order_by minor xs) ≡ x ∷ rest
      → All (Precedes x) xs
  least_first xs x rest e =
      All-order_by minor (Precedes x) xs
        (rw e at (order_by-Leads (order_by minor xs) (order_by-IsOrdered minor xs)))
