-- ===== src/Tests/ReportTests.antt =====
-- The theorems about the simulator's report, at the samples.
use smart_dialer.Common.{[], ◌∷◌, arith, refl, List, ℕ, ltb}
use smart_dialer.Domain.Enums.{PacingMode}
use smart_dialer.Sim.Runner.{SimRow, sim_loop}
use smart_dialer.Sim.Report.{reason_series, summarize}
use smart_dialer.Sim.Report.Buckets.{IsSeries, reason_series-IsSeries}
use smart_dialer.Sim.Report.Summaries.{IsSummary, sim_loop-IsSummary}
use smart_dialer.Tests.Fixed.{fixed}
use smart_dialer.Tests.LoopTests.{at_start, idle_outside, quiet}

abbrev rows : List (SimRow ℕ)
rows =
    (sim_loop fixed (λ digits x. x) idle_outside PacingMode.predictive 1 15_000 4
      (quiet ∷ quiet ∷ []) at_start).rows

sim_loop-IsSummary_example : IsSummary rows (summarize fixed rows)
sim_loop-IsSummary_example =
    sim_loop-IsSummary fixed (λ digits x. x) idle_outside PacingMode.predictive 1 15_000 4
      (quiet ∷ quiet ∷ []) at_start refl

reason_series-IsSeries_example :
    IsSeries 40 "OVERDIAL_CAP" rows (reason_series fixed (ltb 0) 40 "OVERDIAL_CAP" rows)
reason_series-IsSeries_example =
    reason_series-IsSeries fixed "OVERDIAL_CAP" 40 (ltb 0) rows (omega arith)
