-- ===== src/System/Histories.antt =====
-- What holds along every history of the system, whatever the interleaving of the workers.
use smart_dialer.Common.{ℕ, ◌≡◌, ap, subst, String, true, false, some, arith, ◌==◌, find-Extends}
use smart_dialer.Domain.Enums.{AgentState}
use smart_dialer.Domain.Transitions.Order.{End, End-rank, rank-le}
use smart_dialer.Store.{Agent, Call, Db}
use smart_dialer.Store.Evolution.{Evolves, CallEvolves}
use smart_dialer.Store.Validity.{IsValid}
use smart_dialer.Store.Keeping.{Keeps, Keeps-refl, Keeps-trans}
use smart_dialer.Repo.Agents
use smart_dialer.Repo.Agents.Keeping.{
  reserve-Keeps, create-Keeps, login-Keeps, logout-Keeps, pause-Keeps,
}
use smart_dialer.Repo.Agents.Reserve.{reserve_exclusive, reserve_unchanged}
use smart_dialer.Repo.Borrowers.Keeping.{seed_many-Keeps}
use smart_dialer.Repo.Events.Keeping.{ingest-Keeps}
use smart_dialer.Repo.Calls
use smart_dialer.Allocator.Keeping.{
  left_by, reserve_tx-Keeps, reject_tx-Keeps, record_tx-Keeps, pull_back_tx-Keeps,
}
use smart_dialer.Worker.EventApplier.Keeping.{drain-Keeps}
use smart_dialer.Worker.Reaper.Keeping.{reap-Keeps}
use smart_dialer.Worker.EventApplier.Effects.{valid_at}
use smart_dialer.Repo.Decisions.Keeping.{record_decision-Keeps}
use smart_dialer.System.{Step, Reach}

Step-Keeps : {d e : Db} → Step d e → Keeps d e
Step-Keeps {d} (Step.create_agent campaign_id ext_ref now) = create-Keeps campaign_id ext_ref now d
Step-Keeps {d} (Step.login agent_id now) = login-Keeps agent_id now d
Step-Keeps {d} (Step.logout agent_id now) = logout-Keeps agent_id now d
Step-Keeps {d} (Step.pause agent_id now) = pause-Keeps agent_id now d
Step-Keeps {d} (Step.seed campaign_id phones now) = seed_many-Keeps campaign_id phones now d
Step-Keeps {d} (Step.ingest provider event_id ref etype ts now) =
    ingest-Keeps provider event_id ref etype ts now d
Step-Keeps {d} (Step.apply_events locked limit clock_now wrapup_s now) =
    drain-Keeps locked limit clock_now wrapup_s now d
Step-Keeps {d} (Step.sweep registry clock_now now) = reap-Keeps registry clock_now now d
Step-Keeps {d} (Step.reserve registry campaign_id worker lease t r h) =
    subst (λ o. Keeps d (left_by d o)) h (reserve_tx-Keeps registry campaign_id worker lease t r d)
Step-Keeps {d} (Step.reject v now) = reject_tx-Keeps v now d
Step-Keeps {d} (Step.record_call v pcid worker dial_lease now) =
    record_tx-Keeps v pcid worker dial_lease now d
Step-Keeps {d} (Step.pull_back call_id now) = pull_back_tx-Keeps call_id now d
Step-Keeps {d} (Step.decide r) = record_decision-Keeps r d

pub Reach-trans : {d e f : Db} → Reach d e → Reach e f → Reach d f
Reach-trans a Reach.here = a
Reach-trans a (Reach.next b s) = Reach.next (Reach-trans a b) s

-- From valid tables, every history leads to valid tables, and their rows follow their evolution:
-- agents' versions count the changes, calls keep their agent and borrower and never lose rank,
-- attempts only grow, events keep what was sent.
pub Reach-Keeps : {d e : Db} → Reach d e → IsValid d → IsValid e × Evolves d e
Reach-Keeps {d} Reach.here = Keeps-refl d
Reach-Keeps {d} (Reach.next {e} {f} r s) = Keeps-trans d e f (Reach-Keeps r) (Step-Keeps s)

-- A call is found again in every later version of the database.
pub call_stays :
    (i : ℕ) (d e : Db) (c : Call)
    → Evolves d e
    → Calls.get i d ≡ some c
    → (c' : Call) × (Calls.get i e ≡ some c') × CallEvolves c c'
unfolding Calls.get
call_stays i d e c g h =
    find-Extends CallEvolves (Calls.has_id i) (λ x y r. ap (λ k. k == i) r.same_id) d.calls e.calls
      c g.calls h

-- A call that has ended is never reopened: in every later state of a valid database the call with
-- that number is there, in the same state, with the same time of its end.
pub ended_stays :
    {d e : Db} (i : ℕ) (c : Call)
    → IsValid d
    → Calls.get i d ≡ some c
    → End c.state
    → Reach d e
    → (c' : Call) × (Calls.get i e ≡ some c')
      × (c'.state ≡ c.state)
      × (c'.terminal_at ≡ c.terminal_at)
ended_stays {d} {e} i c v h ends r =
    let (w, g) = Reach-Keeps r v in
    let (c', found, k) = call_stays i d e c g h in
    let old = valid_at i d c v h in
    let new = valid_at i e c' w found in
    let last : c.state_rank ≡ c'.state_rank = omega (arith, End-rank ends, rank-le c'.state) in
    (c', found, k.state_follows last, ground (arith, End-rank ends))

-- From valid tables: when a reservation of an agent at a version of its row succeeds, every later
-- one with that version is refused and changes nothing, in every interleaving of the workers.
pub reservation_exclusive :
    {d e : Db} (i version : ℕ) (worker other : String) (lease_until later_lease now later : ℕ)
    → IsValid d
    → (Agents.reserve i version worker lease_until now d).1 ≡ true
    → Reach (Agents.reserve i version worker lease_until now d).0 e
    → Agents.reserve i version other later_lease later e ≡ (e, false)
reservation_exclusive {d} {e} i version worker other lease_until later_lease now later v won r =
    let (w, g) = Reach-Keeps r (reserve-Keeps i version worker lease_until now d v).0 in
    reserve_exclusive i version worker other lease_until later_lease now later d e v won g w

-- From valid tables: a reservation with the version of a row that was read earlier succeeds only if
-- the row is still as it was read, and it was free; whatever the other workers did in between.
pub reservation_unchanged :
    {d e : Db} (i : ℕ) (worker : String) (lease_until now : ℕ) (a : Agent)
    → IsValid d
    → Agents.get i d ≡ some a
    → Reach d e
    → (Agents.reserve i a.version worker lease_until now e).1 ≡ true
    → (Agents.get i e ≡ some a) × (a.state ≡ AgentState.available)
reservation_unchanged {d} {e} i worker lease_until now a v read r won =
    let (w, g) = Reach-Keeps r v in reserve_unchanged i worker lease_until now d e a read g w won
