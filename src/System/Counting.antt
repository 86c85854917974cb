-- ===== src/System/Counting.antt =====
-- The campaign's counters along every history of the system.
use smart_dialer.Common.{ℕ, ◌≡◌, ap, Float, Bool, Option}
use smart_dialer.Store.{Db}
use smart_dialer.Store.Statements.{Written}
use smart_dialer.Store.Validity.{IsValid}
use smart_dialer.Repo.Metrics.{snapshot_of, resolved_stats, window, snapshot_fast, snapshot_naive}
use smart_dialer.Repo.Triggers.{CampaignCounters, counters_after}
use smart_dialer.Repo.Triggers.Tally.{Tallies, Tallied-counts, counters_after-Tallies}
use smart_dialer.System.{Reach}
use smart_dialer.System.Histories.{Reach-Keeps}

module _ (fl : Float) (campaign_id clock_now : ℕ) (is_active : Option Bool) where
  -- Every history is a sequence of INSERTs and UPDATEs, and if at its start each campaign's
  -- counters are its counts, or are missing with no agent and no call there, then the counters that
  -- the triggers leave at its end make the fast snapshot the same as the one that counts.
  pub fast_is_naive :
      {d e : Db}
      → Reach d e
      → IsValid d
      → (k : CampaignCounters) → Tallies k d
      → (w : Written d e) × (snapshot_fast fl campaign_id clock_now is_active
            (counters_after w k campaign_id)
            e
          ≡ snapshot_naive fl campaign_id clock_now is_active e)
  unfolding snapshot_fast snapshot_naive
  fast_is_naive {e} r v k h =
      let w = (Reach-Keeps r v).1.written in
      (
        w,
        ap
            (λ c.
              snapshot_of fl campaign_id clock_now is_active c
                (resolved_stats fl campaign_id window e))
            (Tallied-counts campaign_id _ e (counters_after-Tallies w k h campaign_id)),
      )
