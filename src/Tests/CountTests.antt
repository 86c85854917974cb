-- ===== src/Tests/CountTests.antt =====
-- The counters of a campaign that a first agent joins, from an empty database on.
use smart_dialer.Common.{◌≡◌, true, none, [], arith}
use smart_dialer.Store.{Db}
use smart_dialer.Store.Statements.{Written}
use smart_dialer.Store.Validity.{IsValid}
use smart_dialer.Repo.Agents
use smart_dialer.Repo.Metrics.{snapshot_fast, snapshot_naive}
use smart_dialer.Repo.Triggers.{CampaignCounters, counters_after}
use smart_dialer.System.{Step, Reach}
use smart_dialer.System.Counting.{fast_is_naive}
use smart_dialer.Tests.Fixed.{fixed}
use mathlib.Core.Option.{some}

abbrev blank : Db
blank = record {
  agents = [];
  borrowers = [];
  calls = [];
  events = [];
  decisions = [];
  next_agent = 1;
  next_borrower = 1;
  next_call = 1;
  next_event = 1;
}

blank-IsValid : IsValid blank
blank-IsValid = ground arith

abbrev no_rows : CampaignCounters
no_rows c = none

abbrev hired : Db
hired = (Agents.login 1 600 (Agents.create 7 "agent-0" 500 blank).0).0

fast_is_naive_example :
    (w : Written blank hired) × (snapshot_fast fixed 7 1_000
        (some true)
        (counters_after w no_rows 7)
        hired
      ≡ snapshot_naive fixed 7 1_000 (some true) hired)
fast_is_naive_example =
    fast_is_naive fixed 7 1_000 (some true)
      (Reach.next (Reach.next Reach.here (Step.create_agent 7 "agent-0" 500)) (Step.login 1 600))
      blank-IsValid no_rows (λ c. (tt, tt))
