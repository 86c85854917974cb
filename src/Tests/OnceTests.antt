-- ===== src/Tests/OnceTests.antt =====
-- The theorems about what happens at most once, at the samples.
use smart_dialer.Common.{◌≡◌, refl, some, none, false, ◌∷◌, [], ◌++◌}
use smart_dialer.Repo.Calls
use smart_dialer.Repo.Events
use smart_dialer.Allocator.{pull_back_tx}
use smart_dialer.Allocator.Pullback.{answered_kept}
use smart_dialer.Worker.Reaper.{reap}
use smart_dialer.System.{Step, Reach}
use smart_dialer.System.Uniqueness.{key_once, event_once}
use smart_dialer.Tests.Samples.{sample, sample-IsValid, ended, ended-IsValid, ended_call}

key_once_example :
    let d =
      Calls.new_call 2 1 2 2 "mock_a" 2
        (record { campaign = 1; borrower = 2; attempt = 2 })
        "w1"
        31_000 in
    Calls.create 1 2 2 "mock_b" 2 d.idempotency_key "w2" 90_000
      (reap none 60_000 60_000 (record sample { calls = sample.calls ++ d ∷ []; next_call = 3 })).0
    ≡ none
unfolding Calls.create
key_once_example =
    key_once 1 2 2 2 31_000 2 "mock_a" "w1" (record { campaign = 1; borrower = 2; attempt = 2 }) 1 2
      2 2 90_000 "mock_b" "w2" sample-IsValid refl
      (Reach.next Reach.here (Step.sweep none 60_000 60_000))

event_once_example :
    let e =
      (reap none 60_000 60_000
        (Events.ingest "mock_a" "e-1" (some "P-1") "ringing" 1_200 1_210 sample).0).0 in
    Events.ingest "mock_a" "e-1" (some "P-1") "completed" 9_000 61_000 e ≡ (e, none)
event_once_example =
    event_once "mock_a" "e-1" "ringing" "completed" (some "P-1") (some "P-1") 1_200 1_210 9_000
      61_000 sample-IsValid (Reach.next Reach.here (Step.sweep none 60_000 60_000))

answered_kept_example : pull_back_tx 1 10_000 ended ≡ (ended, false)
unfolding Calls.get
answered_kept_example = answered_kept 1 10_000 ended ended_call ended-IsValid refl refl
