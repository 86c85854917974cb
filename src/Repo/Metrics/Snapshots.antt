-- ===== src/Repo/Metrics/Snapshots.antt =====
-- The staffed agents of the snapshots of src/smartdialer/repo/metrics.py.
use smart_dialer.Common.{
  ℕ, ◌+◌, ◌≡◌, refl, Float, Bool, Option, List, [], ◌∷◌, arith, count, true, false, ◌&&◌,
}
use smart_dialer.Domain.Enums.{AgentState, is_available, is_reserved, is_dialing, is_wrap_up}
use smart_dialer.Domain.Models.{agents_staffed}
use smart_dialer.Store.{Agent, Db}
use smart_dialer.Repo.Counters.{is_connected}
use smart_dialer.Repo.Metrics.{agent_in, counts_naive, snapshot_naive}

-- Logged in and not paused.
abbrev pub on_duty : AgentState → Bool
on_duty AgentState.offline = false
on_duty AgentState.paused = false
on_duty _ = true

staffed_count :
    (campaign_id : ℕ) (xs : List Agent)
    → count (λ a. agent_in campaign_id a && is_available a.state) xs
        + count (λ a. agent_in campaign_id a && is_reserved a.state) xs
        + count (λ a. agent_in campaign_id a && is_dialing a.state) xs
        + count (λ a. agent_in campaign_id a && is_connected a.state) xs
        + count (λ a. agent_in campaign_id a && is_wrap_up a.state) xs
      ≡ count (λ a. agent_in campaign_id a && on_duty a.state) xs
staffed_count campaign_id [] = refl
staffed_count campaign_id (a ∷ xs) = let k = staffed_count campaign_id xs in ground arith

-- The number of staffed agents, by which the safety rules bound the calls, is the number of the
-- campaign's agents that are logged in and not paused.
staffed_is_on_duty :
    (fl : Float) (campaign_id clock_now : ℕ) (is_active : Option Bool) (d : Db)
    → agents_staffed (snapshot_naive fl campaign_id clock_now is_active d)
      ≡ count (λ a. agent_in campaign_id a && on_duty a.state) d.agents
unfolding snapshot_naive counts_naive
staffed_is_on_duty fl campaign_id clock_now is_active d = staffed_count campaign_id d.agents
