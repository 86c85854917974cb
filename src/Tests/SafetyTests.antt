-- ===== src/Tests/SafetyTests.antt =====
-- The theorems about the safety controller, at a campaign with ten agents in a cooldown.
use smart_dialer.Common.{ℕ, ◌≤◌, ◌-◌, ◌≡◌, refl, true, List, [], ◌∷◌, arith, All}
use smart_dialer.Domain.Enums.{ReasonCode}
use smart_dialer.Domain.Models.{MetricsSnapshot, PacingRequest}
use smart_dialer.Config.{SafetyLimits}
use smart_dialer.Safety.{Outside, evaluate, apply_rules}
use smart_dialer.Safety.Rules.{
  SafetyContext, rules, s0_campaign_active, s1_no_agents, s2_cooldown, s3_insufficient_samples,
  s4_provider_health, s5_abandon_budget, s6_overdial_cap, s7_ringing_hard_cap, ceiling,
}
use smart_dialer.Safety.Minimum.{caps, least, evaluate-least}
use smart_dialer.Safety.Bounds.{Envelope, evaluate-Envelope}
use smart_dialer.Safety.Cooldown.{decisions, breach_cools}
use smart_dialer.Tests.Fixed.{fixed}

abbrev limits : SafetyLimits ℕ
limits = record {
  max_overdial_ratio = 1_500;
  abs_max_overdial_ratio = 2_000;
  max_abandon_rate = 30;
  min_samples_for_predictive = 30;
  ringing_hard_cap = 500;
  cooldown_ticks_after_breach = 40;
}

abbrev cooling : SafetyContext ℕ
cooling = record { limits = limits; cooldown_ticks_left = 3 }

abbrev pub calm : SafetyContext ℕ
calm = record { limits = limits; cooldown_ticks_left = 0 }

abbrev pub busy : MetricsSnapshot ℕ
busy = record {
  campaign_id = 1;
  ts = 1_000;
  agents_available = 6;
  agents_reserved = 1;
  agents_dialing = 2;
  agents_connected = 1;
  agents_wrapup = 0;
  calls_ringing = 2;
  calls_connected = 1;
  answer_rate_lb = 300;
  answer_rate_ub = 500;
  answer_rate_point = 400;
  answer_samples = 100;
  avg_setup_s = 3_000;
  avg_talk_s = 90_000;
  abandon_rate_5m = 10;
  campaign_active = true;
  provider_health = ("mock_a", 980) ∷ ("mock_b", 500) ∷ [];
}

abbrev breaching : MetricsSnapshot ℕ
breaching = record busy { abandon_rate_5m = 40 }

abbrev degraded : MetricsSnapshot ℕ
degraded = record busy { provider_health = ("mock_a", 200) ∷ ("mock_b", 500) ∷ [] }

abbrev asked : PacingRequest
asked = record { campaign_id = 1; n = 12 }

-- An allocator that places half of what it may, over the list of what it was asked.
abbrev pub outside : Outside (List ℕ)
outside = record {
  record_decision = λ r d. r.approved ∷ d;
  allocate_batch = λ c n d. (n ∷ d, n - 1);
  cancel_excess_ringing = λ c n d. (d, 0);
}

calm_decision : (evaluate fixed asked busy calm).0 ≡ (10, ReasonCode.overdial_cap)
unfolding evaluate apply_rules rules s0_campaign_active s1_no_agents s2_cooldown
    s3_insufficient_samples s4_provider_health s5_abandon_budget s6_overdial_cap s7_ringing_hard_cap
    ceiling
calm_decision = refl

degraded_decision : (evaluate fixed asked degraded calm).0 ≡ (6, ReasonCode.provider_degraded)
unfolding evaluate apply_rules rules s0_campaign_active s1_no_agents s2_cooldown
    s3_insufficient_samples s4_provider_health s5_abandon_budget s6_overdial_cap s7_ringing_hard_cap
    ceiling
degraded_decision = refl

evaluate-least_example :
    (evaluate fixed asked busy cooling).0.0
    ≡ least fixed asked busy 12 (caps fixed asked busy (rules fixed) cooling)
evaluate-least_example = evaluate-least fixed asked busy cooling

evaluate-Envelope_example :
    Envelope fixed asked degraded calm (evaluate fixed asked degraded calm).0.0
evaluate-Envelope_example = evaluate-Envelope fixed asked degraded calm

breach_cools_example :
    All
      (λ p. p.0 ≤ p.1)
      (decisions fixed
        ((asked, busy) ∷ (asked, breaching) ∷ [])
        (evaluate fixed asked breaching calm).1)
breach_cools_example =
    breach_cools fixed asked breaching calm ((asked, busy) ∷ (asked, breaching) ∷ []) refl
      (omega arith)
