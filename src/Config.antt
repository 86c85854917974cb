-- ===== src/Config.antt =====
-- src/smartdialer/config.py: the safety limits, clamped when they are built.
use smart_dialer.Common.{ℕ, Float, min_of}

pub record SafetyLimits (F : Type 0) : Type 0 where
  pub max_overdial_ratio : F
  pub abs_max_overdial_ratio : F
  pub max_abandon_rate : F
  pub min_samples_for_predictive : ℕ
  pub ringing_hard_cap : ℕ
  pub cooldown_ticks_after_breach : ℕ

-- __post_init__
unfoldable pub clamped : (fl : Float) → SafetyLimits fl.Number → SafetyLimits fl.Number
clamped fl l = record l {
  max_overdial_ratio = min_of fl l.max_overdial_ratio l.abs_max_overdial_ratio;
  max_abandon_rate = min_of fl l.max_abandon_rate (fl.literal 5 2);
}
