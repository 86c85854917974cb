-- ===== src/Providers/Registry/Routing.antt =====
-- Which provider `pick` of src/smartdialer/providers/registry.py chooses.
use smart_dialer.Common.{
  ℕ, Float, String, true, false, Option, none, some, List, [], ◌∷◌, ◌≡◌, ◌≢◌, ◌↔◌, ◌⊎◌, refl, inl,
  inr, arith, Bool-cases, All, ap, subst, some_inj,
}
use smart_dialer.Providers.Breaker.{Breaker, Circuit, allow}
use smart_dialer.Providers.Registry.{
  Provider, health, polled, candidates, max_from, best_name, pick,
}

module _ (fl : Float) (now : ℕ) where
  open fl use {Number}

  abbrev pub Admits : Provider Number → Type 0
  Admits p = ((allow now p.breaker).1 ≡ true) × ((allow now p.breaker).0.state ≢ Circuit.opened)

  -- Some provider of the list has the name and admits calls.
  abbrev pub Offers : String → List (Provider Number) → Type 0
  Offers name [] = ⊥
  Offers name (p ∷ ps) = ((p.name ≡ name) × Admits p) ⊎ Offers name ps

  allow-state :
      (b : Breaker Number) → (allow now b).1 ≡ true → (allow now b).0.state ≢ Circuit.opened
  unfolding allow
  allow-state b e = ground arith

  -- A provider is rated when its breaker allows it.
  Rated : Provider Number → Option (String × Number) → Type 0
  Rated p rating =
      ((rating ≡ none) × ((allow now p.breaker).1 ≡ false))
      ⊎ ((x : Number) × (rating ≡ some (p.name, x)) × ((allow now p.breaker).1 ≡ true))

  polled-Rated : (p : Provider Number) → Rated p (polled fl now p).1
  unfolding polled health Rated
  polled-Rated p = elim (Bool-cases (allow now p.breaker).1) [
    | inl e ↦ rw e (inr (_, refl, refl))
    | inr e ↦ rw e (inl (refl, refl))
  ]

  candidates-Offers :
      (ps : List (Provider Number)) → All (λ r. Offers r.0 ps) (candidates fl now ps).1
  unfolding candidates Rated
  candidates-Offers [] = tt
  candidates-Offers (p ∷ ps) =
      let later = weaken (candidates fl now ps).1 (candidates-Offers ps) in
      elim (polled-Rated p) [
        | inl (e, q) ↦ rw (e, candidates) later
        | inr (x, e, q) ↦ rw (e, candidates) (inl (refl, (q, allow-state p.breaker q)), later)
      ]
    where
      weaken :
          (rs : List (String × Number))
          → All (λ r. Offers r.0 ps) rs
          → All (λ r. Offers r.0 (p ∷ ps)) rs
      weaken [] h = tt
      weaken (r ∷ rs) h = (inr h.0, weaken rs h.1)

  max_from-All :
      (P : String → Type 0) (best : String × Number) (rs : List (String × Number))
      → P best.0
      → All (λ r. P r.0) rs
      → P (max_from fl now best rs).0
  max_from-All P best [] b h = b
  max_from-All P best (r ∷ rs) b h = elim (Bool-cases (fl.lt best.1 r.1)) [
    | inl e ↦ rw (e, max_from) (max_from-All P r rs h.0 h.1)
    | inr e ↦ rw (e, max_from) (max_from-All P best rs b h.1)
  ]

  -- A provider that is picked stands in the registry and admits calls: its breaker allows one, and
  -- is then not open.
  pub pick-Offers :
      (ps : List (Provider Number)) (name : String)
      → (pick fl now ps).1 ≡ some name
      → Offers name ps
  unfolding pick
  pick-Offers ps name e = best (candidates fl now ps).1 (candidates-Offers ps) e
    where
      best :
          (rs : List (String × Number))
          → All (λ r. Offers r.0 ps) rs
          → best_name fl now rs ≡ some name
          → Offers name ps
      best [] h e = absurd (ground arith)
      best (r ∷ rs) h e =
          subst (λ n. Offers n ps) (some_inj e) (max_from-All (λ n. Offers n ps) r rs h.0 h.1)

  -- No provider is picked exactly when every breaker refuses.
  pick_none_iff :
      (ps : List (Provider Number))
      → ((pick fl now ps).1 ≡ none) ↔ All (λ p. (allow now p.breaker).1 ≡ false) ps
  unfolding pick candidates Rated
  pick_none_iff ps = (
    (λ e. refused ps (empty (candidates fl now ps).1 e)),
    (λ h. ap (best_name fl now) (unrated ps h)),
  )
    where
      empty : (rs : List (String × Number)) → best_name fl now rs ≡ none → rs ≡ []
      empty [] e = refl
      empty (r ∷ rs) e = absurd (ground arith)

      nonempty : {x : String × Number} {xs : List (String × Number)} → x ∷ xs ≢ []
      nonempty e = ground arith

      refused :
          (ps : List (Provider Number))
          → (candidates fl now ps).1 ≡ []
          → All (λ p. (allow now p.breaker).1 ≡ false) ps
      refused [] e = tt
      refused (p ∷ ps) e = elim (polled-Rated p) [
        | inl (n, q) ↦ (q, refused ps (rw (n, candidates) at e))
        | inr (x, n, q) ↦ absurd (nonempty (rw (n, candidates) at e))
      ]

      unrated :
          (ps : List (Provider Number))
          → All (λ p. (allow now p.breaker).1 ≡ false) ps
          → (candidates fl now ps).1 ≡ []
      unrated [] h = refl
      unrated (p ∷ ps) h = elim (polled-Rated p) [
        | inl (n, q) ↦ rw (n, candidates) (unrated ps h.1)
        | inr (x, n, q) ↦ ground arith
      ]
