-- ===== src/Providers/Registry/Best.antt =====
-- That `pick` of src/smartdialer/providers/registry.py chooses a provider of the highest score.
use smart_dialer.Common.{
  ℕ, Float, Irreflexive, String, true, false, some, List, [], ◌∷◌, ◌≡◌, ◌⊎◌, refl, inl, inr, arith,
  Bool-cases, All, ap, subst, some_inj, sym, ◌∙◌, if◌then◌else◌, ◌≢◌,
}
use smart_dialer.Providers.Registry.Routing.{Offers, pick-Offers}
use smart_dialer.Providers.Registry.{Provider, candidates, max_from, best_name, pick}

abbrev pub Transitive : Float → Type 0
Transitive fl = (x y z : fl.Number) → fl.lt x y ≡ true → fl.lt y z ≡ true → fl.lt x z ≡ true

true-false : true ≢ false
true-false e = ground arith

module _ (fl : Float) (now : ℕ) where
  open fl use {Number, lt}

  abbrev Lists : String × Number → List (String × Number) → Type 0
  Lists r [] = ⊥
  Lists r (x ∷ xs) = (x ≡ r) ⊎ Lists r xs

  -- The name is rated, and no rating is above its own.
  abbrev pub IsBest : String → List (String × Number) → Type 0
  IsBest name rs = (x : Number) × Lists (name, x) rs × All (λ r. lt x r.1 ≡ false) rs

  -- A later best is above an earlier one.
  Rises : String × Number → String × Number → Type 0
  Rises a b = (a ≡ b) ⊎ (lt a.1 b.1 ≡ true)

  asymmetric : Irreflexive fl → Transitive fl → (x y : Number) → lt x y ≡ true → lt y x ≡ false
  asymmetric i t x y e = elim (Bool-cases (lt y x)) [
    | inl k ↦ absurd (true-false (sym (t x y x e k) ∙ i x))
    | inr k ↦ k
  ]

  not_above :
      Transitive fl
      → (a b c : String × Number) → lt a.1 c.1 ≡ false
      → Rises a b
      → lt b.1 c.1 ≡ false
  unfolding Rises
  not_above t a b c e (inl q) = subst (λ z. lt z.1 c.1 ≡ false) q e
  not_above t a b c e (inr l) = elim (Bool-cases (lt b.1 c.1)) [
    | inl k ↦ absurd (true-false (sym (t a.1 b.1 c.1 l k) ∙ e))
    | inr k ↦ k
  ]

  above :
      Transitive fl → (a b c : String × Number) → lt a.1 b.1 ≡ true → Rises b c → lt a.1 c.1 ≡ true
  unfolding Rises
  above t a b c e (inl q) = subst (λ z. lt a.1 z.1 ≡ true) q e
  above t a b c e (inr l) = t a.1 b.1 c.1 e l

  -- What `max` keeps of the rating it returns, of those it has seen.
  IsTop : String × Number → String × Number → List (String × Number) → Type 0
  IsTop c best rs = Rises best c × (Lists c (best ∷ rs) × All (λ r. lt c.1 r.1 ≡ false) (best ∷ rs))

  replaced-IsTop :
      Irreflexive fl
      → Transitive fl
      → (c best r : String × Number) (rs : List (String × Number)) → lt best.1 r.1 ≡ true
      → IsTop c r rs
      → IsTop c best (r ∷ rs)
  unfolding IsTop Rises
  replaced-IsTop i t c best r rs e h =
      let l = above t best r c e h.0 in (inr l, (inr h.1.0, (asymmetric i t best.1 c.1 l, h.1.1)))

  kept-IsTop :
      Transitive fl
      → (c best r : String × Number) (rs : List (String × Number)) → lt best.1 r.1 ≡ false
      → IsTop c best rs
      → IsTop c best (r ∷ rs)
  unfolding IsTop
  kept-IsTop t c best r rs e h = (
    h.0,
    (
      elim h.1.0 [ inl q ↦ inl q | inr q ↦ inr (inr q) ],
      (h.1.1.0, (not_above t best c r e h.0, h.1.1.1)),
    ),
  )

  max_from-IsTop :
      Irreflexive fl
      → Transitive fl
      → (best : String × Number) (rs : List (String × Number))
      → IsTop (max_from fl now best rs) best rs
  unfolding IsTop Rises
  max_from-IsTop i t best [] = (inl refl, (inl refl, (i best.1, tt)))
  max_from-IsTop i t best (r ∷ rs) = elim (Bool-cases (lt best.1 r.1)) [
    | inl e ↦
        subst (λ c. IsTop c best (r ∷ rs))
          (ap (λ b. max_from fl now (if b then r else best) rs) (sym e))
          (replaced-IsTop i t _ best r rs e (max_from-IsTop i t r rs))
    | inr e ↦
        subst (λ c. IsTop c best (r ∷ rs))
          (ap (λ b. max_from fl now (if b then r else best) rs) (sym e))
          (kept-IsTop t _ best r rs e (max_from-IsTop i t best rs))
  ]

  best_name-IsBest :
      Irreflexive fl
      → Transitive fl
      → (rs : List (String × Number)) (name : String) → best_name fl now rs ≡ some name
      → IsBest name rs
  unfolding IsTop
  best_name-IsBest i t [] name e = absurd (ground arith)
  best_name-IsBest i t (r ∷ rs) name e =
      subst (λ n. IsBest n (r ∷ rs)) (some_inj e)
        ((max_from fl now r rs).1, (max_from-IsTop i t r rs).1.0, (max_from-IsTop i t r rs).1.1)

  -- With a `<` of floats that is irreflexive and transitive: a provider that is picked stands in
  -- the registry and admits calls (its breaker allows one, and is then not open), and among the
  -- healthy ones none has a higher score.
  pub pick-IsBest :
      Irreflexive fl
      → Transitive fl
      → (ps : List (Provider Number)) (name : String) → (pick fl now ps).1 ≡ some name
      → Offers fl now name ps × IsBest name (candidates fl now ps).1
  unfolding pick
  pick-IsBest i t ps name e =
      (pick-Offers fl now ps name e, best_name-IsBest i t (candidates fl now ps).1 name e)
