-- ===== src/Tests/WorkerTests.antt =====
-- The theorems about ticks, batches, sweeps and snapshots, at the samples.
use smart_dialer.Common.{refl, ℕ, ◌≡◌, ◌⊎◌, some, none, true, false, [], ◌∷◌, Bool}
use smart_dialer.Domain.Enums.{PacingMode}
use smart_dialer.Allocator.{Config, Registry, World, Fate}
use smart_dialer.Allocator.Batch.{allocate_batch}
use smart_dialer.Allocator.Batch.Settling.{batch-IsValid}
use smart_dialer.Store.Validity.{IsValid}
use smart_dialer.Store.Evolution.{Evolves}
use smart_dialer.Worker.Reaper.Sweep.{Swept}
use smart_dialer.Worker.Loops.{Turn, reap_forever}
use smart_dialer.Worker.Loops.Histories.{reap_forever-Swept}
use smart_dialer.System.{Step, Reach}
use smart_dialer.Repo.Agents
use smart_dialer.Worker.PacingLoop.{tick}
use smart_dialer.Worker.PacingLoop.Pullback.{place_or_pull_back}
use smart_dialer.Tests.Fixed.{fixed}
use smart_dialer.Tests.Samples.{sample, sample-IsValid}
use smart_dialer.Tests.SafetyTests.{outside, calm, busy}

place_or_pull_back_example :
    let t =
      (tick fixed outside PacingMode.predictive
        (some (("mock_a", 980) ∷ []))
        (some 7)
        1_000
        busy
        calm
        []).0 in
    (t.decision.placed ≡ 0) ⊎ (t.cancelled ≡ 0)
place_or_pull_back_example =
    place_or_pull_back fixed outside PacingMode.predictive (some (("mock_a", 980) ∷ [])) (some 7)
      1_000 busy calm []

-- A turn that raises, and one behind it, while another worker's agent logs in.
abbrev failing : Turn
failing = record {
  meanwhile = λ d. (Agents.login 2 30_000 d).0;
  raises = true;
  clock_now = 30_000;
  now = 30_000;
  locked = λ i. false;
}

abbrev sweeping : Turn
sweeping = record failing { meanwhile = λ d. d; raises = false; clock_now = 60_000; now = 60_000 }

reap_forever-Swept_example :
    let e = reap_forever none (failing ∷ sweeping ∷ []) sample in
    Swept 60_000 60_000 e × IsValid e × Evolves sample e
reap_forever-Swept_example =
    reap_forever-Swept none (failing ∷ []) sweeping sample
      ((λ d. Reach.next Reach.here (Step.login 2 30_000)), tt) (λ d. Reach.here) refl sample-IsValid

-- A registry of one provider, and a world in which everything goes well.
abbrev pub registry : Registry Bool
registry = record { pick = λ r. (r, some "mock_a"); record_result = λ r name ok. ok }

abbrev pub cfg : Config
cfg = record { agent_reserve_lease_s = 30; call_setup_lease_s = 45 }

abbrev pub calm_world : ℕ → World
calm_world i = record {
  clock_now = 2_000;
  attempts = λ n. record {
    fate = Fate.runs;
    agents_locked = λ k. false;
    borrowers_locked = λ k. false;
    now = 2_000;
  };
  answer = some "P-2";
  meanwhile = λ d. d;
  answered_at = 2_100;
  now = 2_100;
  deadlocks = λ k. false;
}

batch-IsValid_example :
    let e = (allocate_batch registry cfg "w1" 1 2 calm_world (0 ∷ 1 ∷ 0 ∷ 1 ∷ []) true sample).1 in
    IsValid e × Evolves sample e
batch-IsValid_example =
    batch-IsValid registry cfg "w1" 1 2 calm_world (0 ∷ 1 ∷ 0 ∷ 1 ∷ []) true sample sample-IsValid
