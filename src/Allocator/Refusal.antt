-- ===== src/Allocator/Refusal.antt =====
-- An allocation of src/smartdialer/allocator/allocator.py that finds nothing to do: no agent, a lost
-- race, no borrower or no provider. It leaves no reservation and no lock behind.
use smart_dialer.Common.{
  ℕ, ◌≡◌, ◌≢◌, refl, ap, sym, subst, String, Bool, true, Option, none, some, List, [], ◌∷◌, arith,
  inl, inr, Option-cases, find, select, update_where, update_where_miss, map, take, Extends,
  Extends-refl, some_inj, ◌+◌, if◌then◌else◌,
}
use smart_dialer.Domain.Enums.{is_reserved, is_locked, AgentState}
use smart_dialer.Store.{Agent, Borrower, Db}
use smart_dialer.Repo.Agents
use smart_dialer.Repo.Borrowers
use smart_dialer.Repo.Calls
use smart_dialer.Allocator.Keeping.{left_by}
use smart_dialer.Allocator.{
  Registry, Attempt, Reservation, Outcome, create_call, claim_borrower, reserve_agent, reserve_tx,
}

abbrev pub Frees : Agent → Agent → Type 0
Frees a b = is_reserved b.state ≡ true → is_reserved a.state ≡ true

abbrev pub Unlocks : Borrower → Borrower → Type 0
Unlocks a b = is_locked b.state ≡ true → is_locked a.state ≡ true

-- No agent is newly reserved, no borrower newly locked, and no call is there that was not.
pub record Unspoiled (d e : Db) : Type 0 where
  pub agents : Extends Frees d.agents e.agents
  pub borrowers : Extends Unlocks d.borrowers e.borrowers
  pub calls : e.calls ≡ d.calls

Unspoiled-refl : (d : Db) → Unspoiled d d
Unspoiled-refl d = record {
  agents = Extends-refl Frees (λ a h. h) d.agents;
  borrowers = Extends-refl Unlocks (λ b h. h) d.borrowers;
  calls = refl;
}

-- Two updates after each other, row by row.
Extends-twice :
    {A : Type 0} (R : A → A → Type 0) (p q : A → Bool) (f g : A → A)
    → ((x : A) → R x (let y = (if p x then f x else x) in if q y then g y else y))
    → (xs : List A) → Extends R xs (update_where q g (update_where p f xs))
Extends-twice R p q f g h [] = tt
Extends-twice R p q f g h (x ∷ xs) = (h x, Extends-twice R p q f g h xs)

-- An agent that was reserved and released.
released_agents :
    (i version lease now later : ℕ) (worker : String) (xs : List Agent)
    → Extends Frees xs (
        update_where
          (Agents.has_id i)
          (Agents.forced AgentState.available none none none later)
          (update_where (Agents.reservable i version) (Agents.reserved_by worker lease now) xs))
released_agents i version lease now later worker xs =
    Extends-twice Frees (Agents.reservable i version) (Agents.has_id i)
      (Agents.reserved_by worker lease now)
      (Agents.forced AgentState.available none none none later) (λ a h. ground arith) xs

select_head :
    {A : Type 0} (p : A → Bool) (xs : List A) (y : A) (ys : List A)
    → select p xs ≡ y ∷ ys
    → p y ≡ true
select_head p [] y ys h = absurd (ground arith)
select_head p (x ∷ xs) y ys h = ground (arith, select_head p xs y ys)

select_none :
    {A : Type 0} (p : A → Bool) (f : A → A) (xs : List A)
    → select p xs ≡ []
    → update_where p f xs ≡ xs
select_none p f [] h = refl
select_none p f (x ∷ xs) h = ground (arith, select_none p f xs)

-- A claim that finds no borrower locks none.
claimed_none :
    (locked : ℕ → Bool) (campaign_id lease now : ℕ) (worker : String) (d : Db)
    → (Borrowers.claim_one locked campaign_id worker lease now d).1 ≡ none
    → (Borrowers.claim_one locked campaign_id worker lease now d).0.borrowers ≡ d.borrowers
unfolding Borrowers.claim_one Borrowers.claim_batch
claimed_none locked campaign_id lease now worker d h =
    let cand = Borrowers.candidates locked campaign_id 1 now d in
    select_none (Borrowers.among cand) (Borrowers.locked_for worker lease) d.borrowers
      (empty (select (Borrowers.among cand) d.borrowers) h)
  where
    empty :
        (ys : List Borrower)
        → Borrowers.first_row (map (Borrowers.locked_for worker lease) ys) ≡ none
        → ys ≡ []
    empty [] h = refl
    empty (y ∷ ys) h = absurd (ground arith)

-- A borrower that was claimed, as the only one, and released.
released_borrowers :
    (ranked xs : List Borrower) (worker : String) (lease : ℕ) (b : Borrower)
    → Borrowers.first_row
        (map (Borrowers.locked_for worker lease) (select (Borrowers.among (take 1 ranked)) xs))
      ≡ some b
    → Extends Unlocks xs (
        update_where
          (Borrowers.has_id b.id)
          Borrowers.unlocked
          (update_where (Borrowers.among (take 1 ranked)) (Borrowers.locked_for worker lease) xs))
released_borrowers [] xs worker lease b h =
    Extends-twice Unlocks (Borrowers.among []) (Borrowers.has_id b.id)
      (Borrowers.locked_for worker lease) Borrowers.unlocked (λ x k. ground arith) xs
released_borrowers (c ∷ ranked) xs worker lease b h =
    let same = first (select (Borrowers.among (c ∷ [])) xs) refl h in
    Extends-twice Unlocks (Borrowers.among (c ∷ [])) (Borrowers.has_id b.id)
      (Borrowers.locked_for worker lease) Borrowers.unlocked (λ x k. ground arith) xs
  where
    first :
        (ys : List Borrower)
        → select (Borrowers.among (c ∷ [])) xs ≡ ys
        → Borrowers.first_row (map (Borrowers.locked_for worker lease) ys) ≡ some b
        → b.id ≡ c.id
    first [] e k = absurd (ground arith)
    first (y ∷ ys) e k =
        let t = select_head (Borrowers.among (c ∷ [])) xs y ys e in
        let q = ap (λ z. z.id) (some_inj k) in ground arith

same_commit : {A : Type 0} (d e : Db) (x y : A) → Outcome.commit d x ≡ Outcome.commit e y → d ≡ e
same_commit d e x y h = ap (left_by d) h

violated :
    {e : Db} {x : Option Reservation}
    → ◌≢◌ {A = Outcome (Option Reservation)} Outcome.unique_violation (Outcome.commit e x)
violated k = ground arith

reserved :
    {f e : Db} {v : Reservation}
    → ◌≢◌ {A = Outcome (Option Reservation)} (Outcome.commit f (some v)) (Outcome.commit e none)
reserved k = ground arith

module _ {R : Type 0} (registry : Registry R) (campaign_id : ℕ) (worker : String) where
  -- With a provider the transaction never commits without a reservation.
  created :
      (lease i : ℕ) (b : Borrower) (now : ℕ) (r : R) (provider : String) (d e : Db)
      → (create_call registry campaign_id worker lease i b now (r, some provider) d).1
        ≢ Outcome.commit e none
  unfolding create_call
  created lease i b now r provider d e h =
      elim (Option-cases (
        Calls.create campaign_id i b.id provider (b.attempt_count + 1)
          (record { campaign = campaign_id; borrower = b.id; attempt = b.attempt_count + 1 }) worker
          lease d)) [
            | inl q ↦ absurd (violated (rw (q, create_call) at h))
            | inr (v, q) ↦ absurd (reserved (rw (q, create_call) at h))
          ]

  -- What the transaction comes to once it holds the agent.
  refused_claim :
      (locked : ℕ → Bool) (lease i version now : ℕ) (r : R) (d e : Db)
      → let held = (Agents.reserve i version worker lease now d).0 in
        (claim_borrower registry campaign_id worker lease i now r
            (Borrowers.claim_one locked campaign_id worker lease now held)).1
          ≡ Outcome.commit e none
        → Unspoiled d e
  unfolding claim_borrower Borrowers.claim_one Borrowers.claim_batch Borrowers.candidates
      Agents.reserve Agents.release Agents.force_state Borrowers.release create_call
  refused_claim locked lease i version now r d e h =
      let held = (Agents.reserve i version worker lease now d).0 in
      let claim = Borrowers.claim_one locked campaign_id worker lease now held in
      elim (Option-cases claim.1) [
        | inl q ↦
            let k = rw (q, claim_borrower) at h in
            subst (Unspoiled d) (same_commit _ e none none k) (record {
              agents = released_agents i version lease now now worker d.agents;
              borrowers =
                  subst (λ bs. Extends Unlocks d.borrowers bs)
                    (sym (claimed_none locked campaign_id lease now worker held q))
                    (Extends-refl Unlocks (λ b h. h) d.borrowers);
              calls = refl;
            })
        | inr (b, q) ↦
            let k = rw (q, claim_borrower) at h in
            elim (Option-cases (registry.pick r).1) [
              | inl z ↦
                  let l = rw (z, create_call) at k in
                  subst (Unspoiled d) (same_commit _ e none none l) (record {
                    agents = released_agents i version lease now now worker d.agents;
                    borrowers = released_borrowers _ d.borrowers worker lease b q;
                    calls = refl;
                  })
              | inr (p, z) ↦
                  absurd (
                    created lease i b now (registry.pick r).0 p claim.0 e
                      (rw (z, create_call) at k))
            ]
      ]

  refused_agent :
      (lease : ℕ) (t : Attempt) (r : R) (agents : List Agent) (d e : Db)
      → (reserve_agent registry campaign_id worker lease t r agents d).1 ≡ Outcome.commit e none
      → Unspoiled d e
  unfolding reserve_agent Agents.reserve
  refused_agent lease t r [] d e h =
      subst (Unspoiled d) (same_commit d e none none h) (Unspoiled-refl d)
  refused_agent lease t r (a ∷ agents) d e h =
      elim (Option-cases (find (Agents.reservable a.id a.version) d.agents)) [
        | inl q ↦
            let k = rw (q, reserve_agent) at h in
            subst (Unspoiled d) (same_commit _ e none none k) (record {
              agents =
                  subst (λ xs. Extends Frees d.agents xs)
                    (sym (
                      update_where_miss (Agents.reservable a.id a.version)
                        (Agents.reserved_by worker lease t.now) d.agents q))
                    (Extends-refl Frees (λ x h. h) d.agents);
              borrowers = Extends-refl Unlocks (λ b h. h) d.borrowers;
              calls = refl;
            })
        | inr (x, q) ↦
            refused_claim t.borrowers_locked lease a.id a.version t.now r d e
              (rw (q, reserve_agent) at h)
      ]

  -- When the first transaction of an allocation commits without a reservation (no agent was free, the
  -- race for it was lost, no borrower was due or no provider was healthy), no agent is reserved and
  -- no borrower locked that was not before, and the calls are the same.
  pub refused_clean :
      (lease : ℕ) (t : Attempt) (r : R) (d e : Db)
      → (reserve_tx registry campaign_id worker lease t r d).1 ≡ Outcome.commit e none
      → Unspoiled d e
  unfolding reserve_tx
  refused_clean lease t r d e h =
      refused_agent lease t r (Agents.pick_candidates t.agents_locked campaign_id 1 d) d e h
