-- ===== src/Worker/PacingLoop.antt =====
-- src/smartdialer/worker/pacing_loop.py: one tick of the pacing loop, over the state `D` that the
-- allocator and the audit trail change. The snapshot is the one that the tick has read.
pub mod Pullback
use smart_dialer.Common.{ℕ, ◌-◌, Float, String, Option, none, some, List, if◌then◌else◌, ltb}
use smart_dialer.Domain.Enums.{PacingMode}
use smart_dialer.Domain.Models.{
  MetricsSnapshot, PacingRequest, SafetyDecision, agent_bound_inflight, agents_staffed,
}
use smart_dialer.Config.{SafetyLimits}
use smart_dialer.Pacing.{progressive, predictive}
use smart_dialer.Safety.{Outside, evaluate_and_execute, cancel_excess_ringing}
use smart_dialer.Safety.Rules.{SafetyContext}

-- What a tick returns, next to the context of the controller and the state.
pub record Tick (F : Type 0) : Type 0 where
  pub snapshot : MetricsSnapshot F
  pub request : PacingRequest
  pub decision : SafetyDecision
  pub cancelled : ℕ

module _ (fl : Float) where
  open fl use {Number, trunc, mul, of_ℕ}

  -- `engine.decide`, by the mode of the engine.
  unfoldable pub decide : PacingMode → MetricsSnapshot Number → PacingRequest
  unfolding progressive predictive
  decide PacingMode.progressive s = progressive s
  decide PacingMode.predictive s = predictive fl s

  -- `max(0, ceiling - snapshot.agent_bound_inflight)`
  unfoldable pub allowed_ringing : MetricsSnapshot Number → SafetyLimits Number → ℕ
  allowed_ringing s limits =
      trunc (mul (of_ℕ (agents_staffed s)) limits.max_overdial_ratio) - agent_bound_inflight s

  -- `if registry is not None: replace(snapshot, provider_health=…)`
  abbrev pub with_health :
      Option (List (String × Number)) → MetricsSnapshot Number → MetricsSnapshot Number
  with_health none s = s
  with_health (some health) s = record s { provider_health = health }

  module _ {D : Type 0} (outside : Outside D) where
    unfoldable pub tick :
        PacingMode
        → Option (List (String × Number))
        → Option ℕ
        → ℕ
        → MetricsSnapshot Number
        → SafetyContext Number
        → D
        → Tick Number × SafetyContext Number × D
    unfolding decide allowed_ringing evaluate_and_execute cancel_excess_ringing
    tick mode health sim_tick tick_at read ctx d =
        let s = with_health health read in
        let req = decide mode s in
        let (decision, ctx', d') =
          evaluate_and_execute fl outside req s mode sim_tick tick_at ctx d in
        let allowed = allowed_ringing s ctx'.limits in
        let (d'', cancelled) =
          if ltb allowed s.calls_ringing
          then cancel_excess_ringing fl outside s.campaign_id allowed d'
          else (d', 0) in
        (
          record { snapshot = s; request = req; decision = decision; cancelled = cancelled },
          ctx',
          d'',
        )
