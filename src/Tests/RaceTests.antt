-- ===== src/Tests/RaceTests.antt =====
-- Runs in which a lease is past before its work is done.
use smart_dialer.Common.{◌≡◌, refl, none, some, Bool, true, false, find}
use mathlib.Core.Option
use smart_dialer.Domain.Enums.{AgentState, BorrowerState, CallState}
use smart_dialer.Store.{Db}
use smart_dialer.Repo.Agents
use smart_dialer.Repo.Borrowers
use smart_dialer.Repo.Calls
use smart_dialer.Allocator.{
  Registry, Reservation, Outcome, Attempt, Fate, record_tx, reserve_tx, reserve_agent,
  claim_borrower, create_call,
}
use smart_dialer.Worker.Reaper.{
  reap, fail_orphan_calls, settle_orphans, settle_orphan, reclaim_agents, release_wrapup,
}
use smart_dialer.Tests.Samples.{sample, ended}

-- The provider answers only after the reservation of call 1 was reaped: the worker still binds
-- agent 2 to the ended call.
abbrev late : Reservation
late = record {
  agent_id = 2;
  borrower_id = 1;
  phone = "+15550001";
  provider = "mock_a";
  call_id = 1;
  idem = record { campaign = 1; borrower = 1; attempt = 1 };
}

-- No later sweep frees the agent.
late_agent :
    Option.map
      (λ a. a.state)
      (Agents.get 2 (reap none 900_000 900_000 (record_tx late "P-9" "w1" 90_000 45_000 ended)).0)
    ≡ some AgentState.dialing
unfolding Agents.get record_tx Calls.advance Agents.force_state reap fail_orphan_calls
    settle_orphans settle_orphan reclaim_agents release_wrapup Borrowers.reclaim_expired_locks
late_agent = refl

-- Borrower 1 is unlocked while call 1 still rings.
abbrev unlocked_early : Db
unlocked_early = (reap none 31_000 31_000 sample).0

unlocked_borrower :
    (Option.map (λ b. b.state) (find (Borrowers.has_id 1) unlocked_early.borrowers)
      ≡ some BorrowerState.pending)
    × (Option.map (λ c. c.state) (Calls.get 1 unlocked_early) ≡ some CallState.ringing)
unfolding reap fail_orphan_calls settle_orphans reclaim_agents release_wrapup
    Borrowers.reclaim_expired_locks Calls.get
unlocked_borrower = (refl, refl)

abbrev registry : Registry Bool
registry = record { pick = λ r. (r, some "mock_a"); record_result = λ r name ok. ok }

abbrev attempt : Attempt
attempt = record {
  fate = Fate.runs;
  agents_locked = λ i. false;
  borrowers_locked = λ i. false;
  now = 31_000;
}

-- The next allocation claims that borrower and fails at the idempotency key.
second_claim :
    (reserve_tx registry 1 "w2" 61_000 attempt true unlocked_early).1 ≡ Outcome.unique_violation
unfolding reserve_tx reserve_agent claim_borrower create_call Agents.reserve Agents.pick_candidates
    Borrowers.claim_one Borrowers.claim_batch Borrowers.candidates Calls.create reap
    fail_orphan_calls settle_orphans reclaim_agents release_wrapup Borrowers.reclaim_expired_locks
second_claim = refl
