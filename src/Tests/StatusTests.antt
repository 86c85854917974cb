-- ===== src/Tests/StatusTests.antt =====
-- The theorem about the live view, at the samples.
use smart_dialer.Common.{◌≡◌, count, ◌&&◌}
use smart_dialer.LiveStatus.{borrower_in, campaign_snapshot, get_or_zero, sum_values}
use smart_dialer.LiveStatus.Sums.{at_work, logged_in, snapshot_adds_up}
use smart_dialer.Repo.Metrics.{agent_in, call_in}
use smart_dialer.Tests.Fixed.{fixed}
use smart_dialer.Tests.Samples.{sample}

snapshot_adds_up_example :
    let s = campaign_snapshot fixed (λ digits x. x) 1 12 20 sample in
    (sum_values s.agents ≡ count (agent_in 1) sample.agents)
    × (sum_values s.calls ≡ count (call_in 1) sample.calls)
    × (sum_values s.borrowers ≡ count (borrower_in 1) sample.borrowers)
    × (s.busy ≡ count (λ a. agent_in 1 a && at_work a.state) sample.agents)
    × (s.staffed ≡ count (λ a. agent_in 1 a && logged_in a.state) sample.agents)
    × (s.totals.completed ≡ get_or_zero "COMPLETED" s.calls)
    × (s.totals.failed ≡ get_or_zero "FAILED" s.calls)
    × (s.totals.cancelled ≡ get_or_zero "CANCELLED" s.calls)
    × (s.totals.abandoned ≡ get_or_zero "ABANDONED" s.calls)
snapshot_adds_up_example = snapshot_adds_up fixed (λ digits x. x) 1 12 20 sample
