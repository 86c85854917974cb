-- ===== src/Pacing.antt =====
-- src/smartdialer/pacing: how many calls the two engines ask for.
pub mod Estimators
use smart_dialer.Common.{◌-◌, Float, min_of, max_of, if◌then◌else◌}
use smart_dialer.Domain.Models.{MetricsSnapshot, PacingRequest, agent_bound_inflight}

-- progressive.py. The truncated difference is `max(0, …)`.
unfoldable pub progressive : {F : Type 0} → MetricsSnapshot F → PacingRequest
progressive s = record {
  campaign_id = s.campaign_id;
  n = s.agents_available - agent_bound_inflight s;
}

module _ (fl : Float) where
  open fl use {Number, literal, of_ℕ, add, sub, mul, div, lt, floor}

  -- `max(0.01, min(1.0, s.answer_rate_ub))`
  unfoldable pub p_hi : MetricsSnapshot Number → Number
  p_hi s = max_of fl (literal 1 2) (min_of fl (literal 1 0) s.answer_rate_ub)

  unfoldable pub freeing : MetricsSnapshot Number → Number
  freeing s =
      if lt (literal 0 0) s.avg_talk_s
      then mul (of_ℕ s.calls_connected) (div s.avg_setup_s s.avg_talk_s)
      else literal 0 0

  -- predictive.py. `floor` is 0 where the quotient is negative.
  unfoldable pub predictive : MetricsSnapshot Number → PacingRequest
  unfolding p_hi freeing
  predictive s =
      let expected_answers = mul (of_ℕ s.calls_ringing) (p_hi s) in
      let capacity = sub (add (of_ℕ s.agents_available) (freeing s)) expected_answers in
      record { campaign_id = s.campaign_id; n = floor (div capacity (p_hi s)) }
