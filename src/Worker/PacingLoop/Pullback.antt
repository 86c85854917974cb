-- ===== src/Worker/PacingLoop/Pullback.antt =====
-- When a tick of src/smartdialer/worker/pacing_loop.py pulls calls back.
use smart_dialer.Common.{
  ℕ, ◌<◌, ◌≡◌, refl, Float, String, Option, List, arith, ap, ◌⊎◌, true, ltb, Bool-cases, inl, inr,
}
use smart_dialer.Domain.Enums.{PacingMode}
use smart_dialer.Domain.Models.{MetricsSnapshot, PacingRequest}
use smart_dialer.Safety.{Outside, evaluate, evaluate_and_execute}
use smart_dialer.Safety.Rules.{SafetyContext, ceiling}
use smart_dialer.Safety.Bounds.{evaluate-Envelope}
use smart_dialer.Safety.Cooldown.{context-evaluate}
use smart_dialer.Worker.PacingLoop.{decide, allowed_ringing, with_health, tick}

module _ (fl : Float) where
  open fl use {Number}

  limits-evaluate :
      (req : PacingRequest) (s : MetricsSnapshot Number) (ctx : SafetyContext Number)
      → (evaluate fl req s ctx).1.limits ≡ ctx.limits
  limits-evaluate req s ctx = ap (λ c. c.limits) (context-evaluate fl req s ctx)

  -- More calls ring than are allowed to: then the overdial cap approves nothing.
  nothing_approved :
      (req : PacingRequest) (s : MetricsSnapshot Number) (ctx : SafetyContext Number)
      → ltb (allowed_ringing fl s ctx.limits) s.calls_ringing ≡ true
      → (evaluate fl req s ctx).0.0 ≡ 0
  unfolding allowed_ringing ceiling
  nothing_approved req s ctx h =
      let cap = (evaluate-Envelope fl req s ctx).overdialled in
      let l : allowed_ringing fl s ctx.limits < s.calls_ringing = ground arith in omega arith

  -- A tick places no call or pulls no call back, whatever the snapshot shows, whichever engine asks
  -- and whatever the allocator does.
  pub place_or_pull_back :
      {D : Type 0} (outside : Outside D) (mode : PacingMode)
      (health : Option (List (String × Number))) (sim_tick : Option ℕ) (tick_at : ℕ)
      (read : MetricsSnapshot Number) (ctx : SafetyContext Number) (d : D)
      → let t = (tick fl outside mode health sim_tick tick_at read ctx d).0 in
        (t.decision.placed ≡ 0) ⊎ (t.cancelled ≡ 0)
  unfolding tick evaluate_and_execute
  place_or_pull_back outside mode health sim_tick tick_at read ctx d =
      let s = with_health fl health read in
      let req = decide fl mode s in
      let c = limits-evaluate req s ctx in
      elim (Bool-cases
        (ltb (allowed_ringing fl s (evaluate fl req s ctx).1.limits) s.calls_ringing)) [
          | inl e ↦ inl (rw (nothing_approved req s ctx (rw c at e)) refl)
          | inr e ↦ inr (rw e refl)
        ]
