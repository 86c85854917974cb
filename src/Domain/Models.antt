-- ===== src/Domain/Models.antt =====
-- src/smartdialer/domain/models.py: the values that pacing and safety exchange. The rationale and
-- the evaluation logs, which the program only writes out, are left out.
use smart_dialer.Common.{ℕ, ◌+◌, String, Bool, List}
use smart_dialer.Domain.Enums.{ReasonCode}

pub record MetricsSnapshot (F : Type 0) : Type 0 where
  pub campaign_id : ℕ
  pub ts : ℕ
  pub agents_available : ℕ
  pub agents_reserved : ℕ
  pub agents_dialing : ℕ
  pub agents_connected : ℕ
  pub agents_wrapup : ℕ
  pub calls_ringing : ℕ
  pub calls_connected : ℕ
  pub answer_rate_lb : F
  pub answer_rate_ub : F
  pub answer_rate_point : F
  pub answer_samples : ℕ
  pub avg_setup_s : F
  pub avg_talk_s : F
  pub abandon_rate_5m : F
  pub campaign_active : Bool
  pub provider_health : List (String × F)

module _ {F : Type 0} where
  abbrev pub agent_bound_inflight : MetricsSnapshot F → ℕ
  agent_bound_inflight s = s.agents_reserved + s.agents_dialing

  abbrev pub agents_staffed : MetricsSnapshot F → ℕ
  agents_staffed s =
      s.agents_available + s.agents_reserved + s.agents_dialing + s.agents_connected
      + s.agents_wrapup

pub record PacingRequest : Type 0 where
  pub campaign_id : ℕ
  pub n : ℕ

pub record SafetyDecision : Type 0 where
  pub approved : ℕ
  pub reason : ReasonCode
  pub requested : ℕ
  pub placed : ℕ
