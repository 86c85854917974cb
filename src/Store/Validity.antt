-- ===== src/Store/Validity.antt =====
-- What holds of every row between two transactions.
use smart_dialer.Common.{
  ℕ, suc, ◌+◌, ◌≤◌, ◌≡◌, inl, inr, Bool, true, ◌||◌, List, [], ◌∷◌, ◌++◌, arith, is_some, leb, All,
  update_where, Bool-cases, find, some, subst, ap, ◌==◌, ==_iff, false,
}
use smart_dialer.Domain.Enums.{AgentState, BorrowerState, is_reserved, is_wrap_up, is_locked}
use smart_dialer.Domain.Transitions.{rank, terminal_rank}
use smart_dialer.Store.{Agent, Borrower, Call, Db}

-- Only an agent that is dialling has a current call; one that is reserved or wrapping up has a
-- deadline, so that the reaper can free it.
pub record AgentIsValid (a : Agent) : Type 0 where
  pub bound : is_some a.current_call_id ≡ true → a.state ≡ AgentState.dialing
  pub leased : is_reserved a.state || is_wrap_up a.state ≡ true → is_some a.lease_expires_at ≡ true

-- The rank column is the rank of the state, and the time of the end is there at the end only.
pub record CallIsValid (c : Call) : Type 0 where
  pub ranked : c.state_rank ≡ rank c.state
  pub ended : is_some c.terminal_at ≡ leb terminal_rank (rank c.state)

-- Exactly a locked borrower has a deadline and an owner; an exhausted one has used up its attempts.
pub record BorrowerIsValid (b : Borrower) : Type 0 where
  pub locked : is_some b.locked_until ≡ is_locked b.state
  pub owned : is_some b.locked_by ≡ is_locked b.state
  pub used_up : b.state ≡ BorrowerState.exhausted → b.max_attempts ≤ b.attempt_count

-- The numbers of the rows rise, from `lo` on and below `hi`.
abbrev pub Serial : {A : Type 0} → (A → ℕ) → ℕ → ℕ → List A → Type 0
Serial key lo hi [] = lo ≤ hi
Serial key lo hi (x ∷ xs) = (lo ≤ key x) × Serial key (suc (key x)) hi xs

module _ {A : Type 0} (key : A → ℕ) where
  pub Serial-le : (lo hi : ℕ) (xs : List A) → Serial key lo hi xs → lo ≤ hi
  Serial-le lo hi [] h = h
  Serial-le lo hi (x ∷ xs) h = omega (arith, Serial-le (suc (key x)) hi xs h.1)

  pub Serial-snoc :
      (lo hi : ℕ) (xs : List A) (x : A)
      → key x ≡ hi
      → Serial key lo hi xs
      → Serial key lo (hi + 1) (xs ++ x ∷ [])
  Serial-snoc lo hi [] x e h = omega arith
  Serial-snoc lo hi (y ∷ ys) x e h = (h.0, Serial-snoc (suc (key y)) hi ys x e h.1)

  pub Serial-update_where :
      (p : A → Bool) (f : A → A)
      → ((x : A) → key (f x) ≡ key x)
      → (lo hi : ℕ) (xs : List A) → Serial key lo hi xs
      → Serial key lo hi (update_where p f xs)
  Serial-update_where p f s lo hi [] h = h
  Serial-update_where p f s lo hi (x ∷ xs) h = elim (Bool-cases (p x)) [
    | inl e ↦ rw (e, s x) (h.0, Serial-update_where p f s (suc (key x)) hi xs h.1)
    | inr e ↦ rw e (h.0, Serial-update_where p f s (suc (key x)) hi xs h.1)
  ]

module _ {A : Type 0} (key : A → ℕ) where
  Serial-find :
      (p : A → Bool) (lo hi : ℕ) (xs : List A) (x : A)
      → Serial key lo hi xs
      → find p xs ≡ some x
      → lo ≤ key x
  Serial-find p lo hi [] x h e = absurd (ground arith)
  Serial-find p lo hi (y ∷ ys) x h e = elim (Bool-cases (p y)) [
    | inl t ↦ let q : y ≡ x = ground arith in subst (λ z. lo ≤ key z) q h.0
    | inr t ↦ omega (arith, Serial-find p (suc (key y)) hi ys x h.1 (ground arith))
  ]

  -- A row that any condition finds is the one that its number finds.
  pub find-key :
      (p : A → Bool) (lo hi : ℕ) (xs : List A) (x : A)
      → Serial key lo hi xs
      → find p xs ≡ some x
      → find (λ y. key y == key x) xs ≡ some x
  find-key p lo hi [] x h e = absurd (ground arith)
  find-key p lo hi (y ∷ ys) x h e = elim (Bool-cases (p y)) [
    | inl t ↦ let q : y ≡ x = ground arith in rw ((==_iff (key y) (key x)).1 (ap key q)) (ap some q)
    | inr t ↦
        let k : find p ys ≡ some x = ground arith in
        let l = Serial-find p (suc (key y)) hi ys x h.1 k in
        let m : (key y == key x) ≡ false = ground arith in
        rw m (find-key p (suc (key y)) hi ys x h.1 k)
  ]

pub record IsValid (d : Db) : Type 0 where
  pub agents : All AgentIsValid d.agents
  pub borrowers : All BorrowerIsValid d.borrowers
  pub calls : All CallIsValid d.calls
  pub agent_ids : Serial (λ a. a.id) 1 d.next_agent d.agents
  pub borrower_ids : Serial (λ b. b.id) 1 d.next_borrower d.borrowers
  pub call_ids : Serial (λ c. c.id) 1 d.next_call d.calls
  pub event_ids : Serial (λ e. e.id) 1 d.next_event d.events
