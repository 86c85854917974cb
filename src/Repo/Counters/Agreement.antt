-- ===== src/Repo/Counters/Agreement.antt =====
-- The counters of src/migrations/002_counters.sql are the counts of the rows by their states.
use smart_dialer.Common.{
  ℕ, ◌+◌, ◌≡◌, refl, ◌∙◌, Bool, true, ◌&&◌, List, [], ◌∷◌, ◌++◌, arith, All, count, update_where,
  Bool-cases, inl, inr,
}
use smart_dialer.Repo.Counters.{Counters, one_if, moved, fire_updates, in_state}

pub count-snoc :
    {A : Type 0} (p : A → Bool) (xs : List A) (x : A)
    → count p (xs ++ x ∷ []) ≡ count p xs + one_if (p x)
count-snoc p [] x = ground arith
count-snoc p (y ∷ xs) x = ground (arith, count-snoc p xs x)

-- An updated row stays where it is.
abbrev pub Stays : {A : Type 0} → (A → Bool) → (A → Bool) → (A → A) → A → Type 0
Stays mine p f x = p x ≡ true → mine (f x) ≡ mine x

module _ {A S : Type 0} (mine : A → Bool) (state : A → S) (on : A → A → Counters → Counters)
    (p : A → Bool) (f : A → A) where
  -- A field of the counters that the trigger moves by a test on the state counts the rows that
  -- meet the test, in the new table as in the old one. `e` counts the rows already seen.
  pub counted :
      (field : Counters → ℕ) (is : S → Bool)
      → ((x y : A) (k : Counters) → field (on x y k) ≡ moved is (state x) (state y) (field k))
      → (xs : List A) → All (Stays mine p f) xs
      → (k : Counters) (e : ℕ) → field k ≡ e + in_state mine state is xs
      → field (fire_updates mine on p f xs k) ≡ e + in_state mine state is (update_where p f xs)
  unfolding fire_updates
  counted field is h [] s k e q = q
  counted field is h (x ∷ xs) s k e q = elim (Bool-cases (p x)) [
    | inl t ↦ elim (Bool-cases (mine x)) [
      | inl u ↦
          let same = s.0 t in
          let step = counted field is h xs s.1 (on x (f x) k) (e + one_if (is (state (f x)))) in
          ground (arith, same, h x (f x) k, step)
      | inr u ↦ let same = s.0 t in ground (arith, same, counted field is h xs s.1 k e)
    ]
    | inr t ↦
        let step = counted field is h xs s.1 k (e + one_if (mine x && is (state x))) in
        ground (arith, step)
  ]

  -- A field that the trigger leaves alone.
  pub untouched :
      (field : Counters → ℕ)
      → ((x y : A) (k : Counters) → field (on x y k) ≡ field k)
      → (xs : List A) (k : Counters) → field (fire_updates mine on p f xs k) ≡ field k
  unfolding fire_updates
  untouched field s [] k = refl
  untouched field s (x ∷ xs) k = elim (Bool-cases (p x && mine (f x))) [
    | inl t ↦ rw (t, fire_updates) (untouched field s xs (on x (f x) k) ∙ s x (f x) k)
    | inr t ↦ rw (t, fire_updates) (untouched field s xs k)
  ]
