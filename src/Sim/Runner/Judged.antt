-- ===== src/Sim/Runner/Judged.antt =====
-- What the rows of src/smartdialer/sim/runner.py say of the safety controller's decisions.
use smart_dialer.Common.{
  ℕ, All-snoc, ◌≤◌, ◌≡◌, ◌↔◌, Float, String, List, [], ◌∷◌, All, Option, some, ◌+◌, true,
}
use smart_dialer.Domain.Enums.{PacingMode, ReasonCode}
use smart_dialer.Domain.Models.{MetricsSnapshot}
use smart_dialer.Store.{Db}
use smart_dialer.Repo.Metrics.{snapshot}
use smart_dialer.Safety.{Outside, evaluate_and_execute}
use smart_dialer.Safety.Rules.{SafetyContext}
use smart_dialer.Safety.Minimum.{evaluate-le}
use smart_dialer.Safety.Execution.{reason_iff}
use smart_dialer.Worker.PacingLoop.{tick, decide, with_health}
use smart_dialer.Sim.Runner.{SimRow, Turn, SimState, sim_row, paced, sim_turn, sim_loop}

-- The reason of a row is OK exactly when the controller cut nothing, and it added nothing.
abbrev pub IsJudged : {F : Type 0} → SimRow F → Type 0
IsJudged r =
    (r.approved ≤ r.requested) × ((r.reason_code ≡ ReasonCode.ok) ↔ (r.approved ≡ r.requested))

module _ (fl : Float) where
  tick_judged :
      {D : Type 0} (outside : Outside D) (mode : PacingMode)
      (health : Option (List (String × fl.Number))) (sim_tick : Option ℕ) (now : ℕ)
      (read : MetricsSnapshot fl.Number) (ctx : SafetyContext fl.Number) (d : D)
      → let t = (tick fl outside mode health sim_tick now read ctx d).0.decision in
        (t.approved ≤ t.requested) × ((t.reason ≡ ReasonCode.ok) ↔ (t.approved ≡ t.requested))
  unfolding tick evaluate_and_execute
  tick_judged outside mode health sim_tick now read ctx d =
      let s = with_health fl health read in
      (evaluate-le fl (decide fl mode s) s ctx, reason_iff fl (decide fl mode s) s ctx)

module _ (fl : Float) (round : ℕ → fl.Number → fl.Number) (outside : Outside Db) (mode : PacingMode)
    (campaign_id wrapup_s reap_every : ℕ) where
  paced_judged :
      (t : Turn fl round) (s : SimState fl round)
      → let d = (paced fl round outside mode campaign_id wrapup_s reap_every t s).0.decision in
        (d.approved ≤ d.requested) × ((d.reason ≡ ReasonCode.ok) ↔ (d.approved ≡ d.requested))
  unfolding paced
  paced_judged t s =
      let db = t.meanwhile s.db in
      tick_judged fl outside mode (some t.health) (some (s.tick_i + 1)) t.clock_now
        (snapshot fl campaign_id t.clock_now t.is_active true t.counters db) s.ctx db

  sim_turn-IsJudged :
      (t : Turn fl round) (s : SimState fl round)
      → All IsJudged s.rows
      → All IsJudged (sim_turn fl round outside mode campaign_id wrapup_s reap_every t s).rows
  unfolding sim_turn sim_row
  sim_turn-IsJudged t s h = All-snoc IsJudged s.rows _ h (paced_judged t s)

  -- The rows that the loop adds are judged.
  pub sim_loop-IsJudged :
      (ts : List (Turn fl round)) (s : SimState fl round)
      → All IsJudged s.rows
      → All IsJudged (sim_loop fl round outside mode campaign_id wrapup_s reap_every ts s).rows
  unfolding sim_loop
  sim_loop-IsJudged [] s h = h
  sim_loop-IsJudged (t ∷ ts) s h = sim_loop-IsJudged ts _ (sim_turn-IsJudged t s h)
