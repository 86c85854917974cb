-- ===== src/Safety.antt =====
-- src/smartdialer/safety/controller.py: the controller that stands between a request and the
-- allocator. Every rule runs, and the smallest cap wins.
pub mod Rules
pub mod Minimum
pub mod Bounds
pub mod Cooldown
pub mod Execution
use smart_dialer.Common.{ℕ, ◌-◌, Float, Option, none, some, List, [], ◌∷◌, if◌then◌else◌, ltb, min}
use smart_dialer.Domain.Enums.{PacingMode, ReasonCode}
use smart_dialer.Domain.Models.{MetricsSnapshot, PacingRequest, SafetyDecision}
use smart_dialer.Config.{SafetyLimits}
use smart_dialer.Store.{Decision}
use Rules.{SafetyContext, Rule, Verdict, rules}

-- What the controller is built with, over the state `D` of the database: the audit trail and the
-- allocator.
pub record Outside (D : Type 0) : Type 0 where
  pub record_decision : Decision → D → D
  pub allocate_batch : ℕ → ℕ → D → D × ℕ
  pub cancel_excess_ringing : ℕ → ℕ → D → D × ℕ

-- SafetyContext.tick
abbrev pub ticked : {F : Type 0} → SafetyContext F → SafetyContext F
ticked ctx = record ctx { cooldown_ticks_left = ctx.cooldown_ticks_left - 1 }

-- `if n < approved: approved, reason = n, code`
abbrev pub lowered : Verdict → ℕ × ReasonCode → ℕ × ReasonCode
lowered none best = best
lowered (some (n, code)) (approved, reason) =
    if ltb n approved then (n, code) else (approved, reason)

module _ (fl : Float) where
  open fl use {Number}

  -- The loop over the rules.
  unfoldable pub apply_rules :
      List (Rule Number)
      → PacingRequest
      → MetricsSnapshot Number
      → ℕ × ReasonCode
      → SafetyContext Number
      → (ℕ × ReasonCode) × SafetyContext Number
  apply_rules [] req s best ctx = (best, ctx)
  apply_rules (rule ∷ rest) req s best ctx =
      let (out, ctx') = rule req s ctx in apply_rules rest req s (lowered out best) ctx'

  -- The decision, before anything is done about it: the cap, its reason and the next context.
  unfoldable pub evaluate :
      PacingRequest
      → MetricsSnapshot Number
      → SafetyContext Number
      → (ℕ × ReasonCode) × SafetyContext Number
  unfolding apply_rules
  evaluate req s ctx =
      let ((approved, reason), ctx') = apply_rules (rules fl) req s (req.n, ReasonCode.ok) ctx in
      ((min approved req.n, reason), ticked ctx')

  module _ {D : Type 0} (outside : Outside D) where
    -- evaluate_and_execute. `tick_at` is the clock's time.
    unfoldable pub evaluate_and_execute :
        PacingRequest
        → MetricsSnapshot Number
        → PacingMode
        → Option ℕ
        → ℕ
        → SafetyContext Number
        → D
        → SafetyDecision × SafetyContext Number × D
    unfolding evaluate
    evaluate_and_execute req s mode sim_tick tick_at ctx d =
        let ((approved, reason), ctx') = evaluate req s ctx in
        let logged =
          outside.record_decision
            (record {
              campaign_id = req.campaign_id;
              tick_at = tick_at;
              sim_tick = sim_tick;
              mode = mode;
              requested = req.n;
              approved = approved;
              reason_code = reason;
            })
            d in
        let (d', placed) =
          if ltb 0 approved
          then outside.allocate_batch req.campaign_id approved logged
          else (logged, 0) in
        (
          record { approved = approved; reason = reason; requested = req.n; placed = placed },
          ctx',
          d',
        )

    unfoldable pub cancel_excess_ringing : ℕ → ℕ → D → D × ℕ
    cancel_excess_ringing campaign_id allowed d =
        outside.cancel_excess_ringing campaign_id allowed d
