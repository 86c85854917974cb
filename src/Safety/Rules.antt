-- ===== src/Safety/Rules.antt =====
-- src/smartdialer/safety/rules.py and the context of src/smartdialer/safety/controller.py: eight
-- rules, each of which may cap the number of calls. Rule S5 also starts the cooldown.
use smart_dialer.Common.{
  ℕ, ◌-◌, Float, max_of, String, not, Option, none, some, List, [], ◌∷◌, if◌then◌else◌, ltb, ◌==◌,
  min,
}
use smart_dialer.Domain.Enums.{ReasonCode}
use smart_dialer.Domain.Models.{
  MetricsSnapshot, PacingRequest, agent_bound_inflight, agents_staffed,
}
use smart_dialer.Config.{SafetyLimits}

pub record SafetyContext (F : Type 0) : Type 0 where
  pub limits : SafetyLimits F
  pub cooldown_ticks_left : ℕ

-- A cap and its reason, or no objection.
abbrev pub Verdict : Type 0
Verdict = Option (ℕ × ReasonCode)

abbrev pub Rule : Type 0 → Type 0
Rule F = PacingRequest → MetricsSnapshot F → SafetyContext F → Verdict × SafetyContext F

-- SafetyContext.trip_cooldown
abbrev pub tripped : {F : Type 0} → SafetyContext F → SafetyContext F
tripped ctx = record ctx { cooldown_ticks_left = ctx.limits.cooldown_ticks_after_breach }

-- `max(0, s.agents_available - s.agent_bound_inflight)`: what progressive dialling would do.
abbrev pub progressive_cap : {F : Type 0} → MetricsSnapshot F → ℕ
progressive_cap s = s.agents_available - agent_bound_inflight s

-- `max(values, default=1.0)`
abbrev pub best_of : (fl : Float) → fl.Number → List (String × fl.Number) → fl.Number
best_of fl best [] = best
best_of fl best ((_, x) ∷ rest) = best_of fl (max_of fl best x) rest

abbrev pub best_health : (fl : Float) → List (String × fl.Number) → fl.Number
best_health fl [] = fl.literal 1 0
best_health fl ((_, x) ∷ rest) = best_of fl x rest

module _ (fl : Float) where
  open fl use {Number, literal, of_ℕ, mul, lt, trunc}

  unfoldable pub s0_campaign_active : Rule Number
  s0_campaign_active req s ctx =
      (if not s.campaign_active then some (0, ReasonCode.campaign_paused) else none, ctx)

  unfoldable pub s1_no_agents : Rule Number
  s1_no_agents req s ctx =
      (if s.agents_available == 0 then some (0, ReasonCode.no_agents) else none, ctx)

  unfoldable pub s2_cooldown : Rule Number
  s2_cooldown req s ctx = (
    if ltb 0 ctx.cooldown_ticks_left
        then some (min req.n (progressive_cap s), ReasonCode.cooldown_forced_progressive)
        else none,
    ctx,
  )

  unfoldable pub s3_insufficient_samples : Rule Number
  s3_insufficient_samples req s ctx = (
    if ltb s.answer_samples ctx.limits.min_samples_for_predictive
        then some (min req.n (progressive_cap s), ReasonCode.insufficient_samples)
        else none,
    ctx,
  )

  -- `best <= 0.0` is read as "not above 0.0": a score is a number, never a NaN.
  unfoldable pub s4_provider_health : Rule Number
  s4_provider_health req s ctx =
      let best = best_health fl s.provider_health in
      (
        if not (lt (literal 0 0) best)
            then some (0, ReasonCode.provider_degraded)
            else if lt best (literal 6 1)
            then some (min req.n (trunc (mul (of_ℕ req.n) best)), ReasonCode.provider_degraded)
            else none,
        ctx,
      )

  unfoldable pub s5_abandon_budget : Rule Number
  s5_abandon_budget req s ctx =
      if lt ctx.limits.max_abandon_rate s.abandon_rate_5m
      then (some (min req.n (progressive_cap s), ReasonCode.abandon_budget_breach), tripped ctx)
      else (none, ctx)

  -- `int(s.agents_staffed * ctx.limits.max_overdial_ratio)`
  unfoldable pub ceiling : MetricsSnapshot Number → SafetyLimits Number → ℕ
  ceiling s limits = trunc (mul (of_ℕ (agents_staffed s)) limits.max_overdial_ratio)

  unfoldable pub s6_overdial_cap : Rule Number
  unfolding ceiling
  s6_overdial_cap req s ctx =
      let allowed = ceiling s ctx.limits - agent_bound_inflight s - s.calls_ringing in
      (if ltb allowed req.n then some (allowed, ReasonCode.overdial_cap) else none, ctx)

  unfoldable pub s7_ringing_hard_cap : Rule Number
  s7_ringing_hard_cap req s ctx =
      let allowed = ctx.limits.ringing_hard_cap - s.calls_ringing in
      (if ltb allowed req.n then some (allowed, ReasonCode.ringing_hard_cap) else none, ctx)

  -- RULES
  unfoldable pub rules : List (Rule Number)
  unfolding s0_campaign_active s1_no_agents s2_cooldown s3_insufficient_samples s4_provider_health
      s5_abandon_budget s6_overdial_cap s7_ringing_hard_cap
  rules =
      s0_campaign_active ∷ s1_no_agents ∷ s2_cooldown ∷ s3_insufficient_samples ∷ s4_provider_health
      ∷ s5_abandon_budget ∷ s6_overdial_cap ∷ s7_ringing_hard_cap ∷ []
