-- ===== src/Repo/Metrics.antt =====
-- src/smartdialer/repo/metrics.py: the snapshot that pacing works from, by counting and from the
-- counters. `is_active` is the campaign's row, `none` without one. Seconds are floats.
pub mod Snapshots
use smart_dialer.Common.{
  ℕ, ◌-◌, Float, Bool, true, false, ◌&&◌, Option, none, some, List, [], ◌∷◌, ◌+◌, ◌==◌,
  if◌then◌else◌, is_some, length, select, take, order_by, reverse_onto, count, present,
}
use smart_dialer.Domain.Enums.{
  AgentState, CallState, is_available, is_reserved, is_dialing, is_wrap_up, same_call_state,
}
use smart_dialer.Domain.Models.{MetricsSnapshot}
use smart_dialer.Store.{Agent, Call, Db}
use smart_dialer.Pacing.Estimators.{wilson_bounds, mean_or}
use smart_dialer.Repo.Counters.{Counters, no_counts, is_connected, is_ringing, is_talking, in_state}

abbrev pub agent_in : ℕ → Agent → Bool
agent_in campaign_id a = a.campaign_id == campaign_id

abbrev pub call_in : ℕ → Call → Bool
call_in campaign_id c = c.campaign_id == campaign_id

-- AGENT_COUNTS_NAIVE and CALL_COUNTS_NAIVE, as the columns that the snapshot reads.
unfoldable pub counts_naive : ℕ → Db → Counters
counts_naive campaign_id db = record {
  agents_available = in_state (agent_in campaign_id) (λ a. a.state) is_available db.agents;
  agents_reserved = in_state (agent_in campaign_id) (λ a. a.state) is_reserved db.agents;
  agents_dialing = in_state (agent_in campaign_id) (λ a. a.state) is_dialing db.agents;
  agents_connected = in_state (agent_in campaign_id) (λ a. a.state) is_connected db.agents;
  agents_wrapup = in_state (agent_in campaign_id) (λ a. a.state) is_wrap_up db.agents;
  calls_ringing = in_state (call_in campaign_id) (λ c. c.state) is_ringing db.calls;
  calls_connected = in_state (call_in campaign_id) (λ c. c.state) is_talking db.calls;
}

-- `row is None`: a campaign without a row of counters.
abbrev pub counts_fast : Option Counters → Counters
counts_fast none = no_counts
counts_fast (some k) = k

abbrev pub resolved : ℕ → Call → Bool
resolved campaign_id c = call_in campaign_id c && is_some c.terminal_at && is_some c.initiated_at

-- RECENT_RESOLVED: the latest calls that were placed and have ended.
unfoldable pub recent_resolved : ℕ → ℕ → Db → List Call
recent_resolved campaign_id limit db =
    take limit (reverse_onto (order_by (λ c. c.id) (select (resolved campaign_id) db.calls)) [])

abbrev pub window : ℕ
window = 300

-- The difference of two nullable times, in milliseconds.
abbrev pub span : Option ℕ → Option ℕ → Option ℕ
span (some a) (some b) = some (a - b)
span _ _ = none

pub record Stats (F : Type 0) : Type 0 where
  pub answer_rate_point : F
  pub answer_rate_lb : F
  pub answer_rate_ub : F
  pub answer_samples : ℕ
  pub avg_setup_s : F
  pub avg_talk_s : F
  pub abandon_rate_5m : F

module _ (fl : Float) where
  open fl use {Number, literal, of_ℕ, div}

  -- `(k / n) if n else 0.0`
  abbrev pub ratio : ℕ → ℕ → Number
  ratio k n = if n == 0 then literal 0 0 else div (of_ℕ k) (of_ℕ n)

  abbrev pub seconds_of : Option ℕ → Option Number
  seconds_of none = none
  seconds_of (some ms) = some (div (of_ℕ ms) (literal 1000 0))

  -- _resolved_stats
  unfoldable pub resolved_stats : ℕ → ℕ → Db → Stats Number
  unfolding recent_resolved wilson_bounds
  resolved_stats campaign_id limit db =
      let rows = recent_resolved campaign_id limit db in
      let n = length rows in
      let point = ratio (count (λ c. is_some c.answered_at) rows) n in
      let (lb, ub) = wilson_bounds fl point n (literal 12816 4) in
      let abandoned = count (λ c. same_call_state c.state CallState.abandoned) rows in
      let completed = count (λ c. same_call_state c.state CallState.completed) rows in
      record {
        answer_rate_point = point;
        answer_rate_lb = lb;
        answer_rate_ub = ub;
        answer_samples = n;
        avg_setup_s =
            mean_or fl (literal 3 0)
              (present (λ c. seconds_of (span c.answered_at c.initiated_at)) rows);
        avg_talk_s =
            mean_or fl (literal 90 0)
              (present (λ c. seconds_of (span c.terminal_at c.connected_at)) rows);
        abandon_rate_5m = ratio abandoned (abandoned + completed);
      }

  abbrev pub snapshot_of : ℕ → ℕ → Option Bool → Counters → Stats Number → MetricsSnapshot Number
  snapshot_of campaign_id clock_now is_active k s = record {
    campaign_id = campaign_id;
    ts = clock_now;
    agents_available = k.agents_available;
    agents_reserved = k.agents_reserved;
    agents_dialing = k.agents_dialing;
    agents_connected = k.agents_connected;
    agents_wrapup = k.agents_wrapup;
    calls_ringing = k.calls_ringing;
    calls_connected = k.calls_connected;
    answer_rate_lb = s.answer_rate_lb;
    answer_rate_ub = s.answer_rate_ub;
    answer_rate_point = s.answer_rate_point;
    answer_samples = s.answer_samples;
    avg_setup_s = s.avg_setup_s;
    avg_talk_s = s.avg_talk_s;
    abandon_rate_5m = s.abandon_rate_5m;
    campaign_active = elim is_active [ none ↦ false | some active ↦ active ];
    provider_health = [];
  }

  unfoldable pub snapshot_naive : ℕ → ℕ → Option Bool → Db → MetricsSnapshot Number
  unfolding counts_naive resolved_stats
  snapshot_naive campaign_id clock_now is_active db =
      snapshot_of campaign_id clock_now is_active (counts_naive campaign_id db)
        (resolved_stats campaign_id window db)

  unfoldable pub snapshot_fast : ℕ → ℕ → Option Bool → Option Counters → Db → MetricsSnapshot Number
  unfolding resolved_stats
  snapshot_fast campaign_id clock_now is_active row db =
      snapshot_of campaign_id clock_now is_active (counts_fast row)
        (resolved_stats campaign_id window db)

  unfoldable pub snapshot :
      ℕ → ℕ → Option Bool → Bool → Option Counters → Db → MetricsSnapshot Number
  unfolding snapshot_fast snapshot_naive
  snapshot campaign_id clock_now is_active fast row db =
      if fast
      then snapshot_fast campaign_id clock_now is_active row db
      else snapshot_naive campaign_id clock_now is_active db
