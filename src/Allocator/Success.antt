-- ===== src/Allocator/Success.antt =====
-- What the first transaction of src/smartdialer/allocator/allocator.py leaves when it reserves.
use smart_dialer.Common.{
  ℕ, ◌+◌, ◌≡◌, ◌≢◌, refl, ap, subst, ◌∙◌, String, false, Option, none, some, List, [], ◌∷◌, ◌++◌,
  arith, inl, inr, Option-cases, find, find-holds, find-update_where, some_inj, ◌==◌, ==_iff, suc,
  ◌≤◌,
}
use smart_dialer.Domain.Enums.{AgentState, CallState}
use smart_dialer.Store.{Agent, Borrower, Call, Db, IdempotencyKey}
use smart_dialer.Store.Validity.{IsValid, Serial, find-key}
use smart_dialer.Repo.Agents
use smart_dialer.Repo.Borrowers
use smart_dialer.Repo.Calls
use smart_dialer.Allocator.{
  Registry, Attempt, Reservation, Outcome, create_call, claim_borrower, reserve_agent, reserve_tx,
}

-- A new row with the next number is what that number finds.
find-fresh :
    {A : Type 0} (key : A → ℕ) (lo hi : ℕ) (xs : List A) (x : A)
    → Serial key lo hi xs
    → key x ≡ hi
    → find (λ y. key y == hi) (xs ++ x ∷ []) ≡ some x
find-fresh key lo hi [] x h e = rw ((==_iff (key x) hi).1 e) refl
find-fresh {A = A} key lo hi (y ∷ ys) x h e =
    let l = above (suc (key y)) ys h.1 in
    let m : (key y == hi) ≡ false = ground arith in
    rw m (find-fresh key (suc (key y)) hi ys x h.1 e)
  where
    above : (lo : ℕ) (ys : List A) → Serial key lo hi ys → lo ≤ hi
    above lo [] k = k
    above lo (z ∷ zs) k = omega (arith, above (suc (key z)) zs k.1)

-- The call of a reservation: with its agent, borrower, key and lease, not yet placed.
pub record Holds (worker : String) (lease : ℕ) (v : Reservation) (c : Call) : Type 0 where
  pub state : c.state ≡ CallState.reserved
  pub agent : c.agent_id ≡ some v.agent_id
  pub borrower : c.borrower_id ≡ v.borrower_id
  pub key : c.idempotency_key ≡ v.idem
  pub owner : c.lease_owner ≡ some worker
  pub leased : c.lease_expires_at ≡ some lease

abbrev value_of : Outcome (Option Reservation) → Option Reservation
value_of (Outcome.commit d x) = x
value_of Outcome.unique_violation = none

abbrev db_of : Db → Outcome (Option Reservation) → Db
db_of d (Outcome.commit e x) = e
db_of d Outcome.unique_violation = d

abbrev Shape : ℕ → List Agent → String → ℕ → Db → Reservation → Type 0
Shape i agents worker lease e v =
    (v.agent_id ≡ i)
    × (e.agents ≡ agents)
    × ((c : Call) × (Calls.get v.call_id e ≡ some c) × Holds worker lease v c)

module _ {R : Type 0} (registry : Registry R) (campaign_id : ℕ) (worker : String) where
  none-some : {v : Reservation} → none ≢ some v
  none-some h = ground arith

  created-Shape :
      (lease i : ℕ) (b : Borrower) (now : ℕ) (r : R) (p : Option String) (d e : Db)
      (v : Reservation)
      → Serial (λ c. c.id) 1 d.next_call d.calls
      → (create_call registry campaign_id worker lease i b now (r, p) d).1
        ≡ Outcome.commit e (some v)
      → Shape i d.agents worker lease e v
  unfolding create_call Calls.create Calls.get
  created-Shape lease i b now r none d e v s h = absurd (none-some (ap value_of h))
  created-Shape lease i b now r (some provider) d e v s h =
      let key : IdempotencyKey = record {
        campaign = campaign_id;
        borrower = b.id;
        attempt = b.attempt_count + 1;
      } in
      let call =
        Calls.new_call d.next_call campaign_id i b.id provider (b.attempt_count + 1) key worker
          lease in
      let f : Db = record d { calls = d.calls ++ call ∷ []; next_call = d.next_call + 1 } in
      elim (Option-cases (find (Calls.has_key key) d.calls)) [
        | inl q ↦
            let k = rw (q, create_call) at h in
            let found = find-fresh (λ c. c.id) 1 d.next_call d.calls call s refl in
            let held : Holds worker lease _ call = record {
              state = refl;
              agent = refl;
              borrower = refl;
              key = refl;
              owner = refl;
              leased = refl;
            } in
            subst (λ z. Shape i d.agents worker lease z v) (ap (db_of d) k)
              (subst (λ z. Shape i d.agents worker lease f z) (some_inj (ap value_of k))
                (refl, refl, (call, found, held)))
        | inr (c, q) ↦ absurd (none-some (ap value_of (rw (q, create_call) at h)))
      ]

  -- What the reserved agent's row is.
  abbrev pub Taken : ℕ → ℕ → Db → Type 0
  Taken lease i e =
      (a : Agent) × (Agents.get i e ≡ some a)
      × (a.state ≡ AgentState.reserved)
      × (a.lease_owner ≡ some worker)
      × (a.lease_expires_at ≡ some lease)

  taken :
      (lease i version now : ℕ) (d : Db) (a : Agent)
      → IsValid d
      → find (Agents.reservable i version) d.agents ≡ some a
      → Taken lease i (Agents.reserve i version worker lease now d).0
  unfolding Agents.reserve Agents.get
  taken lease i version now d a v q =
      let t = find-holds (Agents.reservable i version) d.agents a q in
      let same : a.id ≡ i = ground arith in
      let k =
        find-key (λ a. a.id) (Agents.reservable i version) 1 d.next_agent d.agents a v.agent_ids
          q in
      let l = subst (λ j. find (Agents.has_id j) d.agents ≡ some a) same k in
      let m =
        find-update_where (Agents.reservable i version) (Agents.has_id i)
          (Agents.reserved_by worker lease now) (λ x. refl) d.agents in
      (Agents.reserved_by worker lease now a, m ∙ rw l (rw t refl), refl, refl, refl)

  reserved_agent :
      (lease : ℕ) (t : Attempt) (r : R) (agents : List Agent) (d e : Db) (v : Reservation)
      → IsValid d
      → (reserve_agent registry campaign_id worker lease t r agents d).1 ≡ Outcome.commit e (some v)
      → Taken lease v.agent_id e
        × ((c : Call) × (Calls.get v.call_id e ≡ some c) × Holds worker lease v c)
  unfolding reserve_agent Agents.reserve Agents.get claim_borrower Borrowers.claim_one
      Borrowers.claim_batch
  reserved_agent lease t r [] d e v w h = absurd (none-some (ap value_of h))
  reserved_agent lease t r (a ∷ agents) d e v w h =
      elim (Option-cases (find (Agents.reservable a.id a.version) d.agents)) [
        | inl q ↦ absurd (none-some (ap value_of (rw (q, reserve_agent) at h)))
        | inr (x, q) ↦
            let k = rw (q, reserve_agent) at h in
            let held = (Agents.reserve a.id a.version worker lease t.now d).0 in
            let claim =
              Borrowers.claim_one t.borrowers_locked campaign_id worker lease t.now held in
            elim (Option-cases claim.1) [
              | inl z ↦ absurd (none-some (ap value_of (rw (z, claim_borrower) at k)))
              | inr (b, z) ↦
                  let l = rw (z, claim_borrower) at k in
                  let s =
                    created-Shape lease a.id b t.now (registry.pick r).0 (registry.pick r).1 claim.0
                      e v w.call_ids l in
                  let g = taken lease a.id a.version t.now d x w q in
                  (
                    (
                      g.0,
                      ap (λ j. find (Agents.has_id j) e.agents) s.0
                          ∙ ap (find (Agents.has_id a.id)) s.1
                          ∙ g.1,
                      g.2,
                      g.3,
                      g.4,
                    ),
                    s.2,
                  )
            ]
      ]

  -- In valid tables, when the first transaction of an allocation commits with a reservation, its agent
  -- is RESERVED by this worker under the lease, and its call is there, RESERVED too, with that agent,
  -- the borrower, the key and the same owner and lease.
  pub reserved_held :
      (lease : ℕ) (t : Attempt) (r : R) (d e : Db) (v : Reservation)
      → IsValid d
      → (reserve_tx registry campaign_id worker lease t r d).1 ≡ Outcome.commit e (some v)
      → Taken lease v.agent_id e
        × ((c : Call) × (Calls.get v.call_id e ≡ some c) × Holds worker lease v c)
  unfolding reserve_tx
  reserved_held lease t r d e v w h =
      reserved_agent lease t r (Agents.pick_candidates t.agents_locked campaign_id 1 d) d e v w h
