-- ===== src/Safety/Bounds.antt =====
-- The caps that a decision of src/smartdialer/safety/controller.py never exceeds. Nothing is assumed
-- of the machine's floats.
use smart_dialer.Common.{
  ℕ, ◌-◌, ◌≤◌, ◌≡◌, refl, Float, Bool, true, false, not, ◌&&◌, some, List, [], ◌∷◌, ◌++◌, arith,
  if◌then◌else◌, ltb, ◌==◌, min,
}
use smart_dialer.Domain.Enums.{ReasonCode}
use smart_dialer.Domain.Models.{MetricsSnapshot, PacingRequest, agent_bound_inflight}
use smart_dialer.Safety.Minimum.{after, approved-le-cap, evaluate-le}
use smart_dialer.Safety.{evaluate}
use smart_dialer.Safety.Rules.{
  SafetyContext, Rule, rules, s0_campaign_active, s1_no_agents, s2_cooldown,
  s3_insufficient_samples, s4_provider_health, s5_abandon_budget, s6_overdial_cap,
  s7_ringing_hard_cap, best_health, ceiling, progressive_cap,
}

rules_lem :
    (fl : Float)
    → rules fl
      ≡ s0_campaign_active fl
        ∷ s1_no_agents fl
        ∷ s2_cooldown fl
        ∷ s3_insufficient_samples fl
        ∷ s4_provider_health fl
        ∷ s5_abandon_budget fl
        ∷ s6_overdial_cap fl
        ∷ s7_ringing_hard_cap fl
        ∷ []
unfolding rules
rules_lem fl = refl

module _ (fl : Float) (req : PacingRequest) (s : MetricsSnapshot fl.Number) where
  open fl use {Number, lt, literal, of_ℕ, mul, trunc}

  -- What the health of the best provider allows: no call when that is not above 0, the fraction of
  -- the request that is the health below 0.6, and else the request.
  abbrev pub health_cap : ℕ
  health_cap =
      let best = best_health fl s.provider_health in
      if not (lt (literal 0 0) best)
      then 0
      else if lt best (literal 6 1)
      then trunc (mul (of_ℕ req.n) best)
      else req.n

  -- The envelope of a decision, a line for each rule. A rule that has no objection leaves the
  -- request as the bound.
  pub record Envelope (ctx : SafetyContext Number) (approved : ℕ) : Type 0 where
    pub active : approved ≤ (if s.campaign_active then req.n else 0)
    pub staffed : approved ≤ (if s.agents_available == 0 then 0 else req.n)
    pub cooled : approved ≤ (if ltb 0 ctx.cooldown_ticks_left then progressive_cap s else req.n)
    pub sampled : approved ≤ (
        if ltb s.answer_samples ctx.limits.min_samples_for_predictive
        then progressive_cap s
        else req.n)
    pub served : approved ≤ health_cap
    pub budgeted :
        approved
        ≤ (if lt ctx.limits.max_abandon_rate s.abandon_rate_5m then progressive_cap s else req.n)
    pub overdialled : approved ≤ ceiling fl s ctx.limits - agent_bound_inflight s - s.calls_ringing
    pub ringing : approved ≤ ctx.limits.ringing_hard_cap - s.calls_ringing

  objects :
      (xs : List (Rule Number)) (rule : Rule Number) (ys : List (Rule Number))
      (ctx : SafetyContext Number) (n : ℕ) (code : ReasonCode) (b : Bool)
      → rules fl ≡ xs ++ rule ∷ ys
      → (b ≡ true → (rule req s (after fl req s xs ctx)).0 ≡ some (n, code))
      → (evaluate fl req s ctx).0.0 ≤ (if b then n else req.n)
  objects xs rule ys ctx n code true e h = approved-le-cap fl req s xs rule ys ctx n code e (h refl)
  objects xs rule ys ctx n code false e h = evaluate-le fl req s ctx

  -- The rules, by the rules before and behind each.
  active :
      (ctx : SafetyContext Number)
      → (evaluate fl req s ctx).0.0 ≤ (if not s.campaign_active then 0 else req.n)
  unfolding rules after
  active ctx =
      objects [] (s0_campaign_active fl) _ ctx 0 ReasonCode.campaign_paused (not s.campaign_active)
        refl (λ e. ground arith)

  staffed :
      (ctx : SafetyContext Number)
      → (evaluate fl req s ctx).0.0 ≤ (if s.agents_available == 0 then 0 else req.n)
  unfolding rules after
  staffed ctx =
      objects (s0_campaign_active fl ∷ []) (s1_no_agents fl) _ ctx 0 ReasonCode.no_agents
        (s.agents_available == 0) refl (λ e. ground arith)

  pub cooled :
      (ctx : SafetyContext Number)
      → (evaluate fl req s ctx).0.0
        ≤ (if ltb 0 ctx.cooldown_ticks_left then min req.n (progressive_cap s) else req.n)
  unfolding rules after
  cooled ctx =
      objects (s0_campaign_active fl ∷ s1_no_agents fl ∷ []) (s2_cooldown fl) _ ctx
        (min req.n (progressive_cap s)) ReasonCode.cooldown_forced_progressive
        (ltb 0 ctx.cooldown_ticks_left) refl (λ e. ground arith)

  sampled :
      (ctx : SafetyContext Number)
      → (evaluate fl req s ctx).0.0 ≤ (
          if ltb s.answer_samples ctx.limits.min_samples_for_predictive
          then min req.n (progressive_cap s)
          else req.n)
  unfolding rules after
  sampled ctx =
      objects (s0_campaign_active fl ∷ s1_no_agents fl ∷ s2_cooldown fl ∷ [])
        (s3_insufficient_samples fl) _ ctx (min req.n (progressive_cap s))
        ReasonCode.insufficient_samples (ltb s.answer_samples ctx.limits.min_samples_for_predictive)
        refl (λ e. ground arith)

  -- The rules before S4.
  abbrev before_health : List (Rule Number)
  before_health =
      s0_campaign_active fl ∷ s1_no_agents fl ∷ s2_cooldown fl ∷ s3_insufficient_samples fl ∷ []

  unserved :
      (ctx : SafetyContext Number)
      → (evaluate fl req s ctx).0.0
        ≤ (if not (lt (literal 0 0) (best_health fl s.provider_health)) then 0 else req.n)
  unfolding rules after
  unserved ctx =
      objects before_health (s4_provider_health fl) _ ctx 0 ReasonCode.provider_degraded
        (not (lt (literal 0 0) (best_health fl s.provider_health))) refl (λ e. ground arith)

  degraded :
      (ctx : SafetyContext Number)
      → let best = best_health fl s.provider_health in
        (evaluate fl req s ctx).0.0 ≤ (
          if lt (literal 0 0) best && lt best (literal 6 1)
          then min req.n (trunc (mul (of_ℕ req.n) best))
          else req.n)
  unfolding rules after
  degraded ctx =
      let best = best_health fl s.provider_health in
      objects before_health (s4_provider_health fl) _ ctx
        (min req.n (trunc (mul (of_ℕ req.n) best))) ReasonCode.provider_degraded
        (lt (literal 0 0) best && lt best (literal 6 1)) refl (λ e. ground arith)

  served : (ctx : SafetyContext Number) → (evaluate fl req s ctx).0.0 ≤ health_cap
  served ctx = ground (arith, unserved ctx, degraded ctx)

  budgeted :
      (ctx : SafetyContext Number)
      → (evaluate fl req s ctx).0.0 ≤ (
          if lt ctx.limits.max_abandon_rate s.abandon_rate_5m
          then min req.n (progressive_cap s)
          else req.n)
  unfolding rules after
  budgeted ctx =
      objects
        (s0_campaign_active fl
          ∷ s1_no_agents fl
          ∷ s2_cooldown fl
          ∷ s3_insufficient_samples fl
          ∷ s4_provider_health fl
          ∷ [])
        (s5_abandon_budget fl) _ ctx (min req.n (progressive_cap s))
        ReasonCode.abandon_budget_breach (lt ctx.limits.max_abandon_rate s.abandon_rate_5m) refl
        (λ e. rw (e, s5_abandon_budget))

  pub limits-s5_abandon_budget :
      (ctx : SafetyContext Number) → (s5_abandon_budget fl req s ctx).1.limits ≡ ctx.limits
  unfolding s5_abandon_budget
  limits-s5_abandon_budget ctx = ground arith

  overdialled :
      (ctx : SafetyContext Number)
      → (evaluate fl req s ctx).0.0 ≤ (
          if ltb (ceiling fl s ctx.limits - agent_bound_inflight s - s.calls_ringing) req.n
          then ceiling fl s ctx.limits - agent_bound_inflight s - s.calls_ringing
          else req.n)
  unfolding s0_campaign_active s1_no_agents s2_cooldown s3_insufficient_samples s4_provider_health
      s6_overdial_cap after
  overdialled ctx =
      objects
        (s0_campaign_active fl
          ∷ s1_no_agents fl
          ∷ s2_cooldown fl
          ∷ s3_insufficient_samples fl
          ∷ s4_provider_health fl
          ∷ s5_abandon_budget fl
          ∷ [])
        (s6_overdial_cap fl) (s7_ringing_hard_cap fl ∷ []) ctx
        (ceiling fl s ctx.limits - agent_bound_inflight s - s.calls_ringing) ReasonCode.overdial_cap
        (ltb (ceiling fl s ctx.limits - agent_bound_inflight s - s.calls_ringing) req.n)
        (rules_lem fl) (λ e. rw (limits-s5_abandon_budget ctx) (rw e))

  ringing :
      (ctx : SafetyContext Number)
      → (evaluate fl req s ctx).0.0 ≤ (
          if ltb (ctx.limits.ringing_hard_cap - s.calls_ringing) req.n
          then ctx.limits.ringing_hard_cap - s.calls_ringing
          else req.n)
  unfolding s0_campaign_active s1_no_agents s2_cooldown s3_insufficient_samples s4_provider_health
      s6_overdial_cap s7_ringing_hard_cap after
  ringing ctx =
      objects
        (s0_campaign_active fl
          ∷ s1_no_agents fl
          ∷ s2_cooldown fl
          ∷ s3_insufficient_samples fl
          ∷ s4_provider_health fl
          ∷ s5_abandon_budget fl
          ∷ s6_overdial_cap fl
          ∷ [])
        (s7_ringing_hard_cap fl) [] ctx (ctx.limits.ringing_hard_cap - s.calls_ringing)
        ReasonCode.ringing_hard_cap (ltb (ctx.limits.ringing_hard_cap - s.calls_ringing) req.n)
        (rules_lem fl) (λ e. rw (limits-s5_abandon_budget ctx) (rw e))

  -- Whatever is asked for, whatever the state of the controller and whatever the floats are, an
  -- approved number lies in the envelope: within the bound of each rule.
  pub evaluate-Envelope : (ctx : SafetyContext Number) → Envelope ctx (evaluate fl req s ctx).0.0
  evaluate-Envelope ctx = record {
    active = ground (arith, active ctx);
    staffed = staffed ctx;
    cooled = ground (arith, cooled ctx);
    sampled = ground (arith, sampled ctx);
    served = served ctx;
    budgeted = ground (arith, budgeted ctx);
    overdialled = ground (arith, overdialled ctx);
    ringing = ground (arith, ringing ctx);
  }
