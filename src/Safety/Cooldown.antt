-- ===== src/Safety/Cooldown.antt =====
-- The cooldown of src/smartdialer/safety/controller.py: how long a breach of the abandon budget
-- keeps the dialler progressive.
use smart_dialer.Common.{
  ℕ, ◌-◌, ◌≤◌, ◌≡◌, Float, true, List, [], ◌∷◌, arith, if◌then◌else◌, length, All, Bool-cases, inl,
  inr,
}
use smart_dialer.Domain.Models.{MetricsSnapshot, PacingRequest}
use smart_dialer.Safety.{evaluate}
use smart_dialer.Safety.Rules.{SafetyContext, progressive_cap, rules, s5_abandon_budget}
use smart_dialer.Safety.Bounds.{cooled}

module _ (fl : Float) where
  open fl use {Number, lt}

  -- The context after a decision: the cooldown is started by a breach and then counts this tick.
  pub context-evaluate :
      (req : PacingRequest) (s : MetricsSnapshot Number) (ctx : SafetyContext Number)
      → (evaluate fl req s ctx).1 ≡ record ctx {
        cooldown_ticks_left =
            (if lt ctx.limits.max_abandon_rate s.abandon_rate_5m
              then ctx.limits.cooldown_ticks_after_breach
              else ctx.cooldown_ticks_left)
            - 1;
      }
  unfolding evaluate rules
  context-evaluate req s ctx =
      elim (Bool-cases (lt ctx.limits.max_abandon_rate s.abandon_rate_5m)) [
        | inl e ↦ rw (e, s5_abandon_budget)
        | inr e ↦ rw (e, s5_abandon_budget)
      ]

  -- A decision, beside the number that progressive dialling allows at the same moment.
  pub decisions :
      List (PacingRequest × MetricsSnapshot Number) → SafetyContext Number → List (ℕ × ℕ)
  decisions [] ctx = []
  decisions ((req, s) ∷ rest) ctx =
      let ((approved, reason), ctx') = evaluate fl req s ctx in
      (approved, progressive_cap s) ∷ decisions rest ctx'

  decisions_cooling :
      (rs : List (PacingRequest × MetricsSnapshot Number)) (ctx : SafetyContext Number)
      → length rs ≤ ctx.cooldown_ticks_left
      → ctx.cooldown_ticks_left ≤ ctx.limits.cooldown_ticks_after_breach - 1
      → All (λ p. p.0 ≤ p.1) (decisions rs ctx)
  unfolding decisions
  decisions_cooling [] ctx h k = tt
  decisions_cooling ((req, s) ∷ rest) ctx h k = (
    ground (arith, cooled fl req s ctx),
    rw (context-evaluate req s ctx) (decisions_cooling rest _ (ground arith) (ground arith)),
  )

  -- After a decision that met a breach of the abandon budget, as many further decisions as the
  -- cooldown has ticks, less the one already counted, are no larger than progressive dialling
  -- allows, whatever is asked for and whatever the snapshots show.
  pub breach_cools :
      (req : PacingRequest) (s : MetricsSnapshot Number) (ctx : SafetyContext Number)
      (rs : List (PacingRequest × MetricsSnapshot Number))
      → lt ctx.limits.max_abandon_rate s.abandon_rate_5m ≡ true
      → length rs ≤ ctx.limits.cooldown_ticks_after_breach - 1
      → All (λ p. p.0 ≤ p.1) (decisions rs (evaluate fl req s ctx).1)
  breach_cools req s ctx rs breach h =
      rw (context-evaluate req s ctx, breach) (decisions_cooling rs _ h (omega arith))
