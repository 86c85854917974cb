-- ===== src/Sim/Runner/Columns.antt =====
-- The loop of src/smartdialer/sim/runner.py as a history of the system, and its cumulative columns.
use smart_dialer.Common.{
  ℕ, ◌≤◌, ◌≡◌, ◌+◌, ◌%◌, ◌==◌, true, false, Float, String, Bool, List, [], ◌∷◌, ◌++◌, All, All-mono,
  All-snoc, if◌then◌else◌, ltb, arith, Option, some, none, Bool-cases, inl, inr,
}
use smart_dialer.Domain.Enums.{PacingMode}
use smart_dialer.Domain.Models.{MetricsSnapshot, PacingRequest}
use smart_dialer.Store.{Db, Decision}
use smart_dialer.Allocator.{Config, Registry}
use smart_dialer.Store.Validity.{IsValid}
use smart_dialer.Repo.Metrics.{snapshot}
use smart_dialer.Safety.{Outside, evaluate, evaluate_and_execute, cancel_excess_ringing}
use smart_dialer.Safety.Rules.{SafetyContext}
use smart_dialer.System.{Step, Reach}
use smart_dialer.System.Histories.{Reach-Keeps, Reach-trans}
use smart_dialer.Worker.PacingLoop.{tick, decide, with_health, allowed_ringing}
use smart_dialer.Sim.Runner.{
  SimRow, Cumulative, Turn, SimState, cumulative, sim_row, paced, sim_turn, sim_loop,
}
use smart_dialer.Sim.Wiring.{Surroundings, IsSurrounded, RunsSteps, wired, wired-RunsSteps}
use smart_dialer.Sim.Runner.Growth.{cumulative_grows}

-- Either of two ways on is a history.
Reach-if :
    {A : Type 0} (b : Bool) (d : Db) (x y : Db × A)
    → Reach d x.0
    → Reach d y.0
    → Reach d (if b then x else y).0
Reach-if true d x y h k = h
Reach-if false d x y h k = k

module _ (fl : Float) (outside : Outside Db) (steps : RunsSteps outside) where
  Reach-evaluate_and_execute :
      (req : PacingRequest) (s : MetricsSnapshot fl.Number) (mode : PacingMode)
      (sim_tick : Option ℕ) (now : ℕ) (ctx : SafetyContext fl.Number) (d : Db)
      → Reach d (evaluate_and_execute fl outside req s mode sim_tick now ctx d).2
  unfolding evaluate_and_execute
  Reach-evaluate_and_execute req s mode sim_tick now ctx d =
      let approved = (evaluate fl req s ctx).0.0 in
      let r : Decision = record {
        campaign_id = req.campaign_id;
        tick_at = now;
        sim_tick = sim_tick;
        mode = mode;
        requested = req.n;
        approved = approved;
        reason_code = (evaluate fl req s ctx).0.1;
      } in
      let logged = outside.record_decision r d in
      Reach-trans (steps.records r d) (
        Reach-if (ltb 0 approved) logged (outside.allocate_batch req.campaign_id approved logged)
          (logged, 0) (steps.places req.campaign_id approved logged) Reach.here)

  Reach-tick :
      (mode : PacingMode) (health : Option (List (String × fl.Number))) (sim_tick : Option ℕ)
      (now : ℕ) (read : MetricsSnapshot fl.Number) (ctx : SafetyContext fl.Number) (d : Db)
      → Reach d (tick fl outside mode health sim_tick now read ctx d).2
  unfolding tick cancel_excess_ringing
  Reach-tick mode health sim_tick now read ctx d =
      let s = with_health fl health read in
      let req = decide fl mode s in
      let e = evaluate_and_execute fl outside req s mode sim_tick now ctx d in
      let allowed = allowed_ringing fl s e.1.limits in
      Reach-trans (Reach-evaluate_and_execute req s mode sim_tick now ctx d) (
        Reach-if (ltb allowed s.calls_ringing) e.2
          (outside.cancel_excess_ringing s.campaign_id allowed e.2) (e.2, 0)
          (steps.pulls_back s.campaign_id allowed e.2) Reach.here)

-- No column falls from one row to another.
abbrev pub Below : Cumulative → Cumulative → Type 0
Below a b =
    (a.initiated_cum ≤ b.initiated_cum)
    × (a.connected_cum ≤ b.connected_cum)
    × (a.abandoned_cum ≤ b.abandoned_cum)

Below-trans : (a b c : Cumulative) → Below a b → Below b c → Below a c
Below-trans a b c h k = (omega (arith, h.0, k.0), omega (arith, h.1, k.1), omega (arith, h.2, k.2))

-- No column falls from one row to any later one.
abbrev pub Rising : {F : Type 0} → List (SimRow F) → Type 0
Rising [] = Unit
Rising (r ∷ rs) = All (λ x. Below r.cum x.cum) rs × Rising rs

Rising-snoc :
    {F : Type 0} (rs : List (SimRow F)) (r : SimRow F)
    → Rising rs
    → All (λ x. Below x.cum r.cum) rs
    → Rising (rs ++ r ∷ [])
Rising-snoc [] r h k = (tt, tt)
Rising-snoc (x ∷ rs) r h k =
    (All-snoc (λ y. Below x.cum y.cum) rs r h.0 k.0, Rising-snoc rs r h.1 k.1)

-- What other tasks did while the loop slept is a history.
abbrev pub IsHistory : (fl : Float) (round : ℕ → fl.Number → fl.Number) → Turn fl round → Type 1
IsHistory fl round t = (d : Db) → Reach d (t.meanwhile d)

module _ (fl : Float) (round : ℕ → fl.Number → fl.Number) (outside : Outside Db) (mode : PacingMode)
    (campaign_id wrapup_s reap_every : ℕ) (steps : RunsSteps outside) where
  Reach-paced :
      (t : Turn fl round) (s : SimState fl round)
      → IsHistory fl round t
      → Reach s.db (paced fl round outside mode campaign_id wrapup_s reap_every t s).2
  unfolding paced
  Reach-paced t s h =
      let d = t.meanwhile s.db in
      Reach-trans (h s.db) (
        Reach-tick fl outside steps mode (some t.health) (some (s.tick_i + 1)) t.clock_now
          (snapshot fl campaign_id t.clock_now t.is_active true t.counters d) s.ctx d)

  Reach-sim_turn :
      (t : Turn fl round) (s : SimState fl round)
      → IsHistory fl round t
      → Reach s.db (sim_turn fl round outside mode campaign_id wrapup_s reap_every t s).db
  unfolding sim_turn
  Reach-sim_turn t s h =
      let applied =
        Reach.next (Reach-paced t s h)
          (Step.apply_events t.locked 200 t.clock_now wrapup_s t.now) in
      elim (Bool-cases ((s.tick_i + 1) % reap_every == 0)) [
        | inl e ↦ rw e (Reach.next applied (Step.sweep none t.clock_now t.now))
        | inr e ↦ rw e applied
      ]

  -- The rows so far, and the tables that the next one is taken from.
  record Ready (s : SimState fl round) : Type 0 where
    valid : IsValid s.db
    rising : Rising s.rows
    below : All (λ r. Below r.cum (cumulative campaign_id s.db)) s.rows

  sim_turn-Ready :
      (t : Turn fl round) (s : SimState fl round)
      → IsHistory fl round t
      → Ready s
      → Ready (sim_turn fl round outside mode campaign_id wrapup_s reap_every t s)
  unfolding sim_turn sim_row
  sim_turn-Ready t s h y =
      let e = (sim_turn fl round outside mode campaign_id wrapup_s reap_every t s).db in
      let after = Reach-sim_turn t s h in
      let grown = cumulative_grows campaign_id y.valid after in
      let now_below =
        All-mono (λ r. Below r.cum (cumulative campaign_id s.db))
          (λ r. Below r.cum (cumulative campaign_id e)) (λ r b. Below-trans r.cum _ _ b grown)
          s.rows y.below in
      record {
        valid = (Reach-Keeps after y.valid).0;
        rising = Rising-snoc s.rows _ y.rising now_below;
        below =
            All-snoc (λ r. Below r.cum (cumulative campaign_id e)) s.rows _ now_below
              (omega arith, omega arith, omega arith);
      }

  sim_loop-Ready :
      (ts : List (Turn fl round)) (s : SimState fl round)
      → All (IsHistory fl round) ts
      → Ready s
      → Ready (sim_loop fl round outside mode campaign_id wrapup_s reap_every ts s)
  unfolding sim_loop
  sim_loop-Ready [] s h y = y
  sim_loop-Ready (t ∷ ts) s h y = sim_loop-Ready ts _ h.1 (sim_turn-Ready t s h.0 y)

-- With the program's own allocator under the controller, from valid tables and no rows, if what other
-- tasks do between the turns and between the transactions of a pull-back is a history: the three
-- cumulative columns never fall from a row that the simulator's loop writes to a later one, and its
-- tables end valid.
pub sim_loop-Rising :
    (fl : Float) (round : ℕ → fl.Number → fl.Number) {R : Type 0} (registry : Registry R)
    (cfg : Config) (worker : String) (around : Surroundings R) (mode : PacingMode)
    (campaign_id wrapup_s reap_every : ℕ) (ts : List (Turn fl round)) (s : SimState fl round)
    → IsSurrounded around
    → All (IsHistory fl round) ts
    → IsValid s.db
    → s.rows ≡ []
    → let e =
        sim_loop fl round
          (wired registry cfg worker around)
          mode
          campaign_id
          wrapup_s
          reap_every
          ts
          s in
      Rising e.rows × IsValid e.db
sim_loop-Rising fl round registry cfg worker around mode campaign_id wrapup_s reap_every ts s k h v
      none_yet =
    let y =
      sim_loop-Ready fl round (wired registry cfg worker around) mode campaign_id wrapup_s
        reap_every (wired-RunsSteps registry cfg worker around k) ts s h
        (record { valid = v; rising = rw none_yet tt; below = rw none_yet tt }) in
    (y.rising, y.valid)
