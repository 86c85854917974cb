-- ===== src/Allocator.antt =====
-- src/smartdialer/allocator: placing a call. A worker's allocation is three transactions with the
-- provider's answer between them; other workers run in the gaps. What the world decides is given by
-- records: which rows other transactions hold, which attempts end in a deadlock, what the provider
-- answers, and what happens to the database while it is asked.
pub mod Keeping
pub mod Batch
pub mod Success
pub mod Refusal
pub mod Pullback
use smart_dialer.Common.{
  ℕ, zero, suc, ◌+◌, ◌-◌, String, Bool, true, false, Option, none, some, List, [], ◌∷◌,
  if◌then◌else◌, ◌==◌, length, select,
}
use smart_dialer.Domain.Enums.{AgentState, CallState}
use smart_dialer.Store.{Agent, Borrower, Call, Db, IdempotencyKey, seconds}
use smart_dialer.Repo.Agents
use smart_dialer.Repo.Borrowers
use smart_dialer.Repo.Calls
use smart_dialer.Worker.EventApplier.{truthy}

-- The part of `Settings` that the allocator reads.
pub record Config : Type 0 where
  pub agent_reserve_lease_s : ℕ
  pub call_setup_lease_s : ℕ

-- leases.py
abbrev pub reserve_until : ℕ → Config → ℕ
reserve_until clock_now cfg = clock_now + seconds cfg.agent_reserve_lease_s

abbrev pub dial_until : ℕ → Config → ℕ
dial_until clock_now cfg = clock_now + seconds cfg.call_setup_lease_s

abbrev pub max_deadlock_retries : ℕ
max_deadlock_retries = 3

-- The provider registry, as far as the allocator uses it: choosing a provider changes the state of
-- the circuit breakers, and so does the record of an answer.
pub record Registry (R : Type 0) : Type 0 where
  pub pick : R → R × Option String
  pub record_result : R → String → Bool → R

-- How Postgres ends an attempt: it runs, or is the victim of a deadlock before or after the
-- provider was picked.
pub data Fate : Type 0 where
  runs deadlocks_early deadlocks_late : Fate

pub record Attempt : Type 0 where
  pub fate : Fate
  pub agents_locked : ℕ → Bool
  pub borrowers_locked : ℕ → Bool
  pub now : ℕ

-- What _reserve_and_create returns on success, by the fields that are read later.
pub record Reservation : Type 0 where
  pub agent_id : ℕ
  pub borrower_id : ℕ
  pub phone : String
  pub provider : String
  pub call_id : ℕ
  pub idem : IdempotencyKey

-- A transaction commits with its result, or is rolled back by an exception.
pub data Outcome (A : Type 0) : Type 0 where
  commit : Db → A → Outcome A
  unique_violation : Outcome A

module _ {R : Type 0} (registry : Registry R) (campaign_id : ℕ) (worker : String) where
  -- The end of the transaction, once agent and borrower are held.
  unfoldable pub create_call :
      ℕ → ℕ → Borrower → ℕ → R × Option String → Db → R × Outcome (Option Reservation)
  create_call lease agent_id b now (r, none) db =
      (r, Outcome.commit (Borrowers.release b.id (Agents.release agent_id now db).0) none)
  create_call lease agent_id b now (r, some provider) db =
      let attempt_no = b.attempt_count + 1 in
      let idem : IdempotencyKey = record {
        campaign = campaign_id;
        borrower = b.id;
        attempt = attempt_no;
      } in
      (
        r,
        elim (Calls.create campaign_id agent_id b.id provider attempt_no idem worker lease db) [
          | none ↦ Outcome.unique_violation
          | some (db', call_id) ↦ Outcome.commit db' (
              some (record {
                agent_id = agent_id;
                borrower_id = b.id;
                phone = b.phone;
                provider = provider;
                call_id = call_id;
                idem = idem;
              }))
        ],
      )

  unfoldable pub claim_borrower :
      ℕ → ℕ → ℕ → R → Db × Option Borrower → R × Outcome (Option Reservation)
  unfolding create_call
  claim_borrower lease agent_id now r (db, none) =
      (r, Outcome.commit (Agents.release agent_id now db).0 none)
  claim_borrower lease agent_id now r (db, some b) =
      create_call lease agent_id b now (registry.pick r) db

  unfoldable pub reserve_agent :
      ℕ → Attempt → R → List Agent → Db → R × Outcome (Option Reservation)
  unfolding claim_borrower
  reserve_agent lease t r [] db = (r, Outcome.commit db none)
  reserve_agent lease t r (a ∷ _) db =
      let (db', won) = Agents.reserve a.id a.version worker lease t.now db in
      if won
      then claim_borrower lease a.id t.now r
          (Borrowers.claim_one t.borrowers_locked campaign_id worker lease t.now db')
      else (r, Outcome.commit db' none)

  -- The body of the transaction of _reserve_and_create.
  unfoldable pub reserve_tx : ℕ → Attempt → R → Db → R × Outcome (Option Reservation)
  unfolding reserve_agent
  reserve_tx lease t r db =
      reserve_agent lease t r (Agents.pick_candidates t.agents_locked campaign_id 1 db) db

  -- The retry loop of _reserve_and_create, with the number of attempts left.
  unfoldable pub reserve_and_create :
      ℕ → ℕ → (ℕ → Attempt) → R → Db → R × Outcome (Option Reservation)
  unfolding reserve_tx
  reserve_and_create zero lease attempts r db = (r, Outcome.commit db none)
  reserve_and_create (suc left) lease attempts r db =
      let t = attempts left in
      elim t.fate [
        | Fate.runs ↦ reserve_tx lease t r db
        | Fate.deadlocks_early ↦ reserve_and_create left lease attempts r db
        | Fate.deadlocks_late ↦ reserve_and_create left lease attempts (registry.pick r).0 db
      ]

-- Step 2 failed: `except ProviderError`.
unfoldable pub reject_tx : Reservation → ℕ → Db → Db
reject_tx v now db =
    Borrowers.reschedule v.borrower_id (seconds 60) now
      (Agents.release v.agent_id now (Calls.fail v.call_id "PROVIDER_REJECTED" now db).0).0

-- Step 3: record INITIATED and the agent DIALING. The result of `advance` is not looked at.
unfoldable pub record_tx : Reservation → String → String → ℕ → ℕ → Db → Db
record_tx v pcid worker dial_lease now db =
    (Agents.force_state v.agent_id AgentState.dialing (some worker) (some dial_lease)
      (some v.call_id) now
      (Calls.advance v.call_id CallState.initiated (some pcid) (some dial_lease) none now db).0).0

-- Its retry loop: `deadlocks` says which attempts end in a deadlock.
unfoldable pub record_initiated :
    ℕ → (ℕ → Bool) → Reservation → String → String → ℕ → ℕ → Db → Db × Bool
unfolding record_tx
record_initiated zero deadlocks v pcid worker dial_lease now db = (db, false)
record_initiated (suc left) deadlocks v pcid worker dial_lease now db = elim (deadlocks left) [
  | true ↦ record_initiated left deadlocks v pcid worker dial_lease now db
  | false ↦ (record_tx v pcid worker dial_lease now db, true)
]

-- What the world does during one allocation.
pub record World : Type 0 where
  pub clock_now : ℕ  -- when it starts
  pub attempts : ℕ → Attempt
  pub answer : Option String  -- the provider's reference, or a ProviderError
  pub meanwhile : Db → Db  -- what other transactions do while the provider is asked
  pub answered_at : ℕ  -- the clock and the database's time after the answer
  pub now : ℕ
  pub deadlocks : ℕ → Bool

module _ {R : Type 0} (registry : Registry R) (cfg : Config) (worker : String) where
  unfoldable pub finish_one : World → Reservation → Option String → R → Db → R × Db × Bool
  unfolding record_initiated reject_tx
  finish_one w v none r db =
      (registry.record_result r v.provider false, reject_tx v w.now db, false)
  finish_one w v (some pcid) r db =
      let done =
        record_initiated max_deadlock_retries w.deadlocks v pcid worker
          (dial_until w.answered_at cfg) w.now db in
      (registry.record_result r v.provider true, done.0, done.1)

  -- _allocate_one; `none` is an exception that leaves the function, with the database as it was.
  unfoldable pub place_reserved : World → R × Outcome (Option Reservation) → Option (R × Db × Bool)
  unfolding finish_one
  place_reserved w (r, Outcome.unique_violation) = none
  place_reserved w (r, Outcome.commit db none) = some (r, db, false)
  place_reserved w (r, Outcome.commit db (some v)) =
      some (finish_one w v w.answer r (w.meanwhile db))

  unfoldable pub allocate_one : ℕ → World → R → Db → Option (R × Db × Bool)
  unfolding place_reserved reserve_and_create
  allocate_one campaign_id w r db = place_reserved w (
      reserve_and_create registry campaign_id worker max_deadlock_retries
        (reserve_until w.clock_now cfg) w.attempts r db)

-- cancel_excess_ringing
unfoldable pub pull_back_tx : ℕ → ℕ → Db → Db × Bool
pull_back_tx call_id now db =
    let (db', row) = Calls.cancel_if_not_answered call_id "SAFETY_PULLBACK" now db in
    elim row [
      | none ↦ (db', false)
      | some c ↦
          let freed : Db = elim (truthy c.agent_id) [
            | none ↦ db'
            | some i ↦ (Agents.release i now db').0
          ] in
          (
            Borrowers.on_call_terminal c.borrower_id CallState.cancelled (seconds 30) now freed,
            true,
          )
    ]

-- The attempts on one candidate: `deadlocks` says which of them fail.
unfoldable pub pull_back : ℕ → (ℕ → Bool) → ℕ → ℕ → Db → Db × Bool
unfolding pull_back_tx
pull_back zero deadlocks call_id now db = (db, false)
pull_back (suc left) deadlocks call_id now db = elim (deadlocks left) [
  | true ↦ pull_back left deadlocks call_id now db
  | false ↦ pull_back_tx call_id now db
]

-- The loop over the candidates. Before each, `meanwhile` is what other transactions did.
unfoldable pub pull_back_each : List Call → (ℕ → Db → Db) → (ℕ → ℕ → Bool) → ℕ → ℕ → Db → Db × ℕ
unfolding pull_back
pull_back_each [] meanwhile deadlocks now cancelled db = (db, cancelled)
pull_back_each (c ∷ rows) meanwhile deadlocks now cancelled db =
    let (db', hit) = pull_back max_deadlock_retries (deadlocks c.id) c.id now (meanwhile c.id db) in
    pull_back_each rows meanwhile deadlocks now (if hit then cancelled + 1 else cancelled) db'

unfoldable pub cancel_excess_ringing : ℕ → ℕ → (ℕ → Db → Db) → (ℕ → ℕ → Bool) → ℕ → Db → Db × ℕ
unfolding pull_back_each
cancel_excess_ringing campaign_id allowed_ringing meanwhile deadlocks now db =
    let current = length (select (Calls.ringing_in campaign_id) db.calls) in
    let excess = current - allowed_ringing in
    if excess == 0
    then (db, 0)
    else pull_back_each (Calls.list_ringing_oldest campaign_id excess db) meanwhile deadlocks now 0
        db
