-- ===== src/Tests/RefusalTests.antt =====
-- An allocation without a healthy provider, and one with one, at the samples.
use smart_dialer.Common.{refl, none, some, false, true, Bool, ◌≡◌}
use smart_dialer.Repo.Agents
use smart_dialer.Repo.Borrowers
use smart_dialer.Allocator.{
  Registry, Reservation, Attempt, Fate, reserve_tx, reserve_agent, claim_borrower, create_call,
}
use smart_dialer.Allocator.Keeping.{left_by}
use smart_dialer.Allocator.Success.{Taken, Holds, reserved_held}
use smart_dialer.Store.{Call}
use smart_dialer.Repo.Calls
use smart_dialer.Allocator.Refusal.{Unspoiled, refused_clean}
use smart_dialer.Tests.Samples.{sample, sample-IsValid}

abbrev nobody : Registry Bool
nobody = record { pick = λ r. (r, none); record_result = λ r name ok. r }

abbrev attempt : Attempt
attempt = record {
  fate = Fate.runs;
  agents_locked = λ i. false;
  borrowers_locked = λ i. false;
  now = 2_000;
}

refused_clean_example :
    Unspoiled sample (left_by sample (reserve_tx nobody 1 "w1" 32_000 attempt false sample).1)
unfolding reserve_tx reserve_agent claim_borrower create_call Agents.reserve Agents.pick_candidates
    Agents.release Agents.force_state Borrowers.claim_one Borrowers.claim_batch Borrowers.candidates
    Borrowers.release
refused_clean_example = refused_clean nobody 1 "w1" 32_000 attempt false sample _ refl

abbrev somebody : Registry Bool
somebody = record { pick = λ r. (r, some "mock_a"); record_result = λ r name ok. ok }

abbrev reservation : Reservation
reservation = record {
  agent_id = 2;
  borrower_id = 2;
  phone = "+15550002";
  provider = "mock_a";
  call_id = 2;
  idem = record { campaign = 1; borrower = 2; attempt = 2 };
}

reserved_held_example :
    let e = left_by sample (reserve_tx somebody 1 "w1" 32_000 attempt true sample).1 in
    Taken somebody 1 "w1" 32_000 2 e
    × ((c : Call) × (Calls.get 2 e ≡ some c) × Holds "w1" 32_000 reservation c)
unfolding reserve_tx reserve_agent claim_borrower create_call Agents.reserve Agents.pick_candidates
    Borrowers.claim_one Borrowers.claim_batch Borrowers.candidates Calls.create
reserved_held_example =
    reserved_held somebody 1 "w1" 32_000 attempt true sample _ reservation sample-IsValid refl
