-- ===== src/Sim/Runner.antt =====
-- src/smartdialer/sim/runner.py: a turn of the simulator's loop, and the row that it writes. What
-- the clock, the locks and the providers are in a turn is an argument, and so is the rounding. The
-- reaper's registry and its cancellations are left out, as the simulated providers ignore them.
pub mod Growth
pub mod Columns
pub mod Turns
pub mod Judged
use text.Mathlib.Text.{◌==◌ as str_eq}
use smart_dialer.Common.{
  ℕ, zero, suc, ◌+◌, ◌-◌, ◌%◌, Float, String, Bool, true, ◌&&◌, Option, none, some, List, [], ◌∷◌,
  ◌++◌, if◌then◌else◌, ◌==◌, count, is_some,
}
use smart_dialer.Domain.Enums.{CallState, PacingMode, ReasonCode, same_call_state}
use smart_dialer.Domain.Models.{MetricsSnapshot, SafetyDecision, agents_staffed}
use smart_dialer.Store.{Call, Db}
use smart_dialer.Repo.Counters.{Counters}
use smart_dialer.Repo.Metrics.{call_in, snapshot}
use smart_dialer.Safety.{Outside}
use smart_dialer.Safety.Rules.{SafetyContext}
use smart_dialer.Worker.PacingLoop.{Tick, tick}
use smart_dialer.Worker.EventApplier.{drain}
use smart_dialer.Worker.Reaper.{reap}

pub record Cumulative : Type 0 where
  pub initiated_cum : ℕ
  pub connected_cum : ℕ
  pub abandoned_cum : ℕ

-- CUM_QUERY
unfoldable pub cumulative : ℕ → Db → Cumulative
cumulative campaign_id db = record {
  initiated_cum = count (λ c. call_in campaign_id c && is_some c.initiated_at) db.calls;
  connected_cum =
      count (λ c. call_in campaign_id c && same_call_state c.state CallState.completed) db.calls;
  abandoned_cum =
      count (λ c. call_in campaign_id c && same_call_state c.state CallState.abandoned) db.calls;
}

-- CSV_COLUMNS; the four counts of agents and the samples stand in the snapshot.
pub record SimRow (F : Type 0) : Type 0 where
  pub tick : ℕ
  pub sim_time : F
  pub snapshot : MetricsSnapshot F
  pub utilization : F
  pub cum : Cumulative
  pub p_answer_point : F
  pub p_answer_lb : F
  pub requested : ℕ
  pub approved : ℕ
  pub reason_code : ReasonCode
  pub abandon_rate_5m : F
  pub provider_a_health : F
  pub provider_b_health : F

-- `max(1, round(1.0 / cfg.reaper_hz / tick_s))`, from the rounded quotient.
abbrev pub reap_every_of : ℕ → ℕ
reap_every_of quotient = if quotient == 0 then 1 else quotient

module _ (fl : Float) (round : ℕ → fl.Number → fl.Number) where
  open fl use {Number, literal, of_ℕ, div}

  -- `health.get(name, 0.0)`
  abbrev pub health_of : String → List (String × Number) → Number
  health_of name [] = literal 0 0
  health_of name (h ∷ hs) = if str_eq h.0 name then h.1 else health_of name hs

  -- _row
  unfoldable pub sim_row :
      ℕ → ℕ → Number → MetricsSnapshot Number → SafetyDecision → Db → SimRow Number
  unfolding cumulative
  sim_row campaign_id tick_i sim_time s decision db =
      let total = agents_staffed s in
      let busy = total - s.agents_available in
      record {
        tick = tick_i;
        sim_time = round 3 sim_time;
        snapshot = s;
        utilization = round 4 (if total == 0 then literal 0 0 else div (of_ℕ busy) (of_ℕ total));
        cum = cumulative campaign_id db;
        p_answer_point = round 4 s.answer_rate_point;
        p_answer_lb = round 4 s.answer_rate_lb;
        requested = decision.requested;
        approved = decision.approved;
        reason_code = decision.reason;
        abandon_rate_5m = round 4 s.abandon_rate_5m;
        provider_a_health = round 3 (health_of "mock_a" s.provider_health);
        provider_b_health = round 3 (health_of "mock_b" s.provider_health);
      }

  -- What a turn meets: what other tasks did to the database while the loop slept, the clocks, the
  -- campaign's rows, the health of the providers, and the events that others hold.
  pub record Turn : Type 0 where
    pub meanwhile : Db → Db
    pub clock_now : ℕ
    pub now : ℕ
    pub sim_time : Number
    pub is_active : Option Bool
    pub counters : Option Counters
    pub health : List (String × Number)
    pub locked : ℕ → Bool

  pub record SimState : Type 0 where
    pub db : Db
    pub ctx : SafetyContext Number
    pub tick_i : ℕ
    pub reaps : ℕ
    pub rows : List (SimRow Number)

  module _ (outside : Outside Db) (mode : PacingMode) (campaign_id wrapup_s reap_every : ℕ) where
    -- The pacing tick of a turn.
    unfoldable pub paced : Turn → SimState → Tick Number × SafetyContext Number × Db
    unfolding tick snapshot
    paced t s =
        let db = t.meanwhile s.db in
        tick fl outside mode (some t.health) (some (s.tick_i + 1)) t.clock_now
          (snapshot fl campaign_id t.clock_now t.is_active true t.counters db) s.ctx db

    -- The body of `loop`. The field `reaps` of the state only counts the calls of `reap`.
    unfoldable pub sim_turn : Turn → SimState → SimState
    unfolding sim_row paced drain reap
    sim_turn t s =
        let tick_i = s.tick_i + 1 in
        let (ticked, ctx, db) = paced t s in
        let applied = (drain t.locked 200 t.clock_now wrapup_s t.now db).0 in
        let due = tick_i % reap_every == 0 in
        let swept = if due then (reap none t.clock_now t.now applied).0 else applied in
        record {
          db = swept;
          ctx = ctx;
          tick_i = tick_i;
          reaps = if due then s.reaps + 1 else s.reaps;
          rows =
              s.rows
              ++ sim_row campaign_id tick_i t.sim_time ticked.snapshot ticked.decision swept ∷ [];
        }

    -- The loop, for as many turns as the clock is driven.
    unfoldable pub sim_loop : List Turn → SimState → SimState
    sim_loop [] s = s
    sim_loop (t ∷ ts) s = sim_loop ts (sim_turn t s)
