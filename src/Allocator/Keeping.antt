-- ===== src/Allocator/Keeping.antt =====
-- Placing and pulling back calls (src/smartdialer/allocator/allocator.py) keeps the tables valid,
-- whatever the other transactions are, as long as they do so too.
use smart_dialer.Common.{
  ℕ, zero, suc, ◌≡◌, refl, inl, inr, String, Bool, Option, none, some, List, [], ◌∷◌, ◌+◌, arith,
  Bool-cases, Option-cases, ◌==◌, ◌-◌, length, select,
}
use smart_dialer.Domain.Enums.{AgentState, CallState}
use smart_dialer.Store.{Agent, Borrower, Call, Db, seconds, IdempotencyKey}
use smart_dialer.Store.Keeping.{Keeps, Keeps-refl, Keeps-trans}
use smart_dialer.Repo.Agents
use smart_dialer.Repo.Agents.Keeping.{Fits, reserve-Keeps, force_state-Keeps, release-Keeps}
use smart_dialer.Repo.Borrowers
use smart_dialer.Repo.Borrowers.Keeping.{
  release-Keeps as unlock-Keeps, claim_one-Keeps, reschedule-Keeps, on_call_terminal-Keeps,
}
use smart_dialer.Repo.Calls
use smart_dialer.Repo.Calls.Keeping.{
  create-Keeps, advance-Keeps, fail-Keeps, cancel_if_not_answered-Keeps,
}
use smart_dialer.Worker.EventApplier.{truthy}
use smart_dialer.Allocator.{
  Config, Registry, Attempt, Fate, Reservation, Outcome, World, create_call, claim_borrower,
  reserve_agent, reserve_tx, reserve_and_create, reject_tx, record_tx, record_initiated, finish_one,
  place_reserved, allocate_one, pull_back_tx, pull_back, pull_back_each, cancel_excess_ringing,
  max_deadlock_retries, reserve_until, dial_until,
}

-- The database that an outcome leaves, and that an allocation leaves.
abbrev pub left_by : {A : Type 0} → Db → Outcome A → Db
left_by d (Outcome.commit e a) = e
left_by d Outcome.unique_violation = d

abbrev pub left_by_one : {R : Type 0} → Db → Option (R × Db × Bool) → Db
left_by_one d none = d
left_by_one d (some (r, e, done)) = e

-- An outcome that is reached through other statements of the same transaction.
left_by-Keeps :
    {A : Type 0} (d e : Db) (o : Outcome A)
    → Keeps d e
    → Keeps e (left_by e o)
    → Keeps d (left_by d o)
left_by-Keeps d e (Outcome.commit f a) h k = Keeps-trans d e f h k
left_by-Keeps d e Outcome.unique_violation h k = Keeps-refl d

module _ {R : Type 0} (registry : Registry R) (campaign_id : ℕ) (worker : String) where
  create_call-Keeps :
      (lease agent_id : ℕ) (b : Borrower) (now : ℕ) (p : R × Option String) (d : Db)
      → Keeps d (left_by d (create_call registry campaign_id worker lease agent_id b now p d).1)
  unfolding create_call
  create_call-Keeps lease agent_id b now (r, none) d =
      Keeps-trans d _ _ (release-Keeps agent_id now d) (unlock-Keeps b.id _)
  create_call-Keeps lease agent_id b now (r, some provider) d =
      let attempt_no = b.attempt_count + 1 in
      let idem : IdempotencyKey = record {
        campaign = campaign_id;
        borrower = b.id;
        attempt = attempt_no;
      } in
      elim (Option-cases
        (Calls.create campaign_id agent_id b.id provider attempt_no idem worker lease d)) [
          | inl e ↦ rw (e, create_call) (Keeps-refl d)
          | inr (made, e) ↦
              rw (e, create_call)
                (create-Keeps campaign_id agent_id b.id provider attempt_no idem worker lease d e)
        ]

  claim_borrower-Keeps :
      (lease agent_id now : ℕ) (r : R) (e : Db) (b : Option Borrower)
      → Keeps e
          (left_by e (claim_borrower registry campaign_id worker lease agent_id now r (e, b)).1)
  unfolding claim_borrower
  claim_borrower-Keeps lease agent_id now r e none = release-Keeps agent_id now e
  claim_borrower-Keeps lease agent_id now r e (some b) =
      create_call-Keeps lease agent_id b now (registry.pick r) e

  reserve_agent-Keeps :
      (lease : ℕ) (t : Attempt) (r : R) (cands : List Agent) (d : Db)
      → Keeps d (left_by d (reserve_agent registry campaign_id worker lease t r cands d).1)
  unfolding reserve_agent
  reserve_agent-Keeps lease t r [] d = Keeps-refl d
  reserve_agent-Keeps lease t r (a ∷ cands) d =
      let reserved = Agents.reserve a.id a.version worker lease t.now d in
      let kept = reserve-Keeps a.id a.version worker lease t.now d in
      let claimed =
        Borrowers.claim_one t.borrowers_locked campaign_id worker lease t.now reserved.0 in
      elim (Bool-cases reserved.1) [
        | inl e ↦
            rw (e, reserve_agent)
              (left_by-Keeps d claimed.0
                (claim_borrower registry campaign_id worker lease a.id t.now r claimed).1
                (Keeps-trans d reserved.0 claimed.0 kept
                  (claim_one-Keeps t.borrowers_locked campaign_id worker lease t.now reserved.0))
                (claim_borrower-Keeps lease a.id t.now r claimed.0 claimed.1))
        | inr e ↦ rw (e, reserve_agent) kept
      ]

  pub reserve_tx-Keeps :
      (lease : ℕ) (t : Attempt) (r : R) (d : Db)
      → Keeps d (left_by d (reserve_tx registry campaign_id worker lease t r d).1)
  unfolding reserve_tx
  reserve_tx-Keeps lease t r d =
      reserve_agent-Keeps lease t r (Agents.pick_candidates t.agents_locked campaign_id 1 d) d

  on_fate-Keeps :
      (left lease : ℕ) (attempts : ℕ → Attempt) (r : R) (d : Db) (f : Fate)
      → (attempts left).fate ≡ f
      → ((r' : R)
          → Keeps d (
              left_by d
                (reserve_and_create registry campaign_id worker left lease attempts r' d).1))
      → Keeps d (
          left_by d
            (reserve_and_create registry campaign_id worker (suc left) lease attempts r d).1)
  unfolding reserve_and_create
  on_fate-Keeps left lease attempts r d Fate.runs e ih =
      rw (e, reserve_and_create) (reserve_tx-Keeps lease (attempts left) r d)
  on_fate-Keeps left lease attempts r d Fate.deadlocks_early e ih =
      rw (e, reserve_and_create) (ih r)
  on_fate-Keeps left lease attempts r d Fate.deadlocks_late e ih =
      rw (e, reserve_and_create) (ih (registry.pick r).0)

  pub reserve_and_create-Keeps :
      (left lease : ℕ) (attempts : ℕ → Attempt) (r : R) (d : Db)
      → Keeps d
          (left_by d (reserve_and_create registry campaign_id worker left lease attempts r d).1)
  unfolding reserve_and_create
  reserve_and_create-Keeps zero lease attempts r d = Keeps-refl d
  reserve_and_create-Keeps (suc left) lease attempts r d =
      on_fate-Keeps left lease attempts r d (attempts left).fate refl
        (λ r'. reserve_and_create-Keeps left lease attempts r' d)

-- What an agent that is put to dialling must come with.
Fits-dialing : (lease call_id : ℕ) → Fits AgentState.dialing (some lease) (some call_id)
Fits-dialing lease call_id = ground arith

pub reject_tx-Keeps : (v : Reservation) (now : ℕ) (d : Db) → Keeps d (reject_tx v now d)
unfolding reject_tx
reject_tx-Keeps v now d = Keeps-trans d _ _ (fail-Keeps v.call_id "PROVIDER_REJECTED" now d) (
    Keeps-trans _ _ _ (release-Keeps v.agent_id now _)
      (reschedule-Keeps v.borrower_id (seconds 60) now _))

pub record_tx-Keeps :
    (v : Reservation) (pcid worker : String) (dial_lease now : ℕ) (d : Db)
    → Keeps d (record_tx v pcid worker dial_lease now d)
unfolding record_tx
record_tx-Keeps v pcid worker dial_lease now d =
    Keeps-trans d _ _
      (advance-Keeps v.call_id CallState.initiated (some pcid) (some dial_lease) none now d)
      (force_state-Keeps v.agent_id _ (some worker) _ _ now _ (Fits-dialing dial_lease v.call_id))

record_initiated-Keeps :
    (left : ℕ) (deadlocks : ℕ → Bool) (v : Reservation) (pcid worker : String) (dial_lease now : ℕ)
    (d : Db)
    → Keeps d (record_initiated left deadlocks v pcid worker dial_lease now d).0
unfolding record_initiated
record_initiated-Keeps zero deadlocks v pcid worker dial_lease now d = Keeps-refl d
record_initiated-Keeps (suc left) deadlocks v pcid worker dial_lease now d =
    elim (Bool-cases (deadlocks left)) [
      | inl e ↦
          rw (e, record_initiated)
            (record_initiated-Keeps left deadlocks v pcid worker dial_lease now d)
      | inr e ↦ rw (e, record_initiated) (record_tx-Keeps v pcid worker dial_lease now d)
    ]

-- What other transactions do in a gap keeps the tables valid.
abbrev pub Others : (Db → Db) → Type 0
Others f = (d : Db) → Keeps d (f d)

module _ {R : Type 0} (registry : Registry R) (cfg : Config) (worker : String) where
  pub finish_one-Keeps :
      (w : World) (v : Reservation) (answer : Option String) (r : R) (d : Db)
      → Keeps d (finish_one registry cfg worker w v answer r d).1
  unfolding finish_one
  finish_one-Keeps w v none r d = reject_tx-Keeps v w.now d
  finish_one-Keeps w v (some pcid) r d =
      record_initiated-Keeps max_deadlock_retries w.deadlocks v pcid worker
        (dial_until w.answered_at cfg) w.now d

  place_reserved-Keeps :
      (w : World) (d : Db) (p : R × Outcome (Option Reservation))
      → Others w.meanwhile
      → Keeps d (left_by d p.1)
      → Keeps d (left_by_one d (place_reserved registry cfg worker w p))
  unfolding place_reserved
  place_reserved-Keeps w d (r, Outcome.unique_violation) h k = Keeps-refl d
  place_reserved-Keeps w d (r, Outcome.commit e none) h k = k
  place_reserved-Keeps w d (r, Outcome.commit e (some v)) h k =
      Keeps-trans d _ _ k
        (Keeps-trans e _ _ (h e) (finish_one-Keeps w v w.answer r (w.meanwhile e)))

  -- One allocation, on every path: lost races, deadlocks, a provider's refusal and a violated
  -- constraint included.
  pub allocate_one-Keeps :
      (campaign_id : ℕ) (w : World) (r : R) (d : Db)
      → Others w.meanwhile
      → Keeps d (left_by_one d (allocate_one registry cfg worker campaign_id w r d))
  unfolding allocate_one
  allocate_one-Keeps campaign_id w r d h =
      place_reserved-Keeps w d
        (reserve_and_create registry campaign_id worker max_deadlock_retries
          (reserve_until w.clock_now cfg) w.attempts r d)
        h
        (reserve_and_create-Keeps registry campaign_id worker max_deadlock_retries
          (reserve_until w.clock_now cfg) w.attempts r d)

free_agent-Keeps :
    (agent_id : Option ℕ) (now : ℕ) (d : Db)
    → Keeps d (elim agent_id [ none ↦ d | some i ↦ (Agents.release i now d).0 ])
free_agent-Keeps none now d = Keeps-refl d
free_agent-Keeps (some i) now d = release-Keeps i now d

pub pull_back_tx-Keeps : (call_id now : ℕ) (d : Db) → Keeps d (pull_back_tx call_id now d).0
unfolding pull_back_tx
pull_back_tx-Keeps call_id now d =
    let cancelled = Calls.cancel_if_not_answered call_id "SAFETY_PULLBACK" now d in
    let kept = cancel_if_not_answered-Keeps call_id "SAFETY_PULLBACK" now d in
    elim (Option-cases cancelled.1) [
      | inl e ↦ rw (e, pull_back_tx) kept
      | inr (c, e) ↦
          rw (e, pull_back_tx)
            (Keeps-trans d cancelled.0 _ kept (
              Keeps-trans _ _ _ (free_agent-Keeps (truthy c.agent_id) now cancelled.0)
                (on_call_terminal-Keeps c.borrower_id CallState.cancelled (seconds 30) now _)))
    ]

pull_back-Keeps :
    (left : ℕ) (deadlocks : ℕ → Bool) (call_id now : ℕ) (d : Db)
    → Keeps d (pull_back left deadlocks call_id now d).0
unfolding pull_back
pull_back-Keeps zero deadlocks call_id now d = Keeps-refl d
pull_back-Keeps (suc left) deadlocks call_id now d = elim (Bool-cases (deadlocks left)) [
  | inl e ↦ rw (e, pull_back) (pull_back-Keeps left deadlocks call_id now d)
  | inr e ↦ rw (e, pull_back) (pull_back_tx-Keeps call_id now d)
]

pull_back_each-Keeps :
    (rows : List Call) (meanwhile : ℕ → Db → Db) (deadlocks : ℕ → ℕ → Bool) (now n : ℕ) (d : Db)
    → ((i : ℕ) → Others (meanwhile i))
    → Keeps d (pull_back_each rows meanwhile deadlocks now n d).0
unfolding pull_back_each
pull_back_each-Keeps [] meanwhile deadlocks now n d h = Keeps-refl d
pull_back_each-Keeps (c ∷ rows) meanwhile deadlocks now n d h = Keeps-trans d _ _ (h c.id d) (
    Keeps-trans _ _ _
      (pull_back-Keeps max_deadlock_retries (deadlocks c.id) c.id now (meanwhile c.id d))
      (pull_back_each-Keeps rows meanwhile deadlocks now _ _ h))

pub cancel_excess_ringing-Keeps :
    (campaign_id allowed : ℕ) (meanwhile : ℕ → Db → Db) (deadlocks : ℕ → ℕ → Bool) (now : ℕ)
    (d : Db)
    → ((i : ℕ) → Others (meanwhile i))
    → Keeps d (cancel_excess_ringing campaign_id allowed meanwhile deadlocks now d).0
unfolding cancel_excess_ringing
cancel_excess_ringing-Keeps campaign_id allowed meanwhile deadlocks now d h =
    let excess = length (select (Calls.ringing_in campaign_id) d.calls) - allowed in
    elim (Bool-cases (excess == 0)) [
      | inl e ↦ rw (e, cancel_excess_ringing) (Keeps-refl d)
      | inr e ↦
          rw (e, cancel_excess_ringing)
            (pull_back_each-Keeps (Calls.list_ringing_oldest campaign_id excess d) meanwhile
              deadlocks now 0 d h)
    ]
