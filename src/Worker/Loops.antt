-- ===== src/Worker/Loops.antt =====
-- The loops of a worker that need no leader: event_applier_loop of src/smartdialer/worker/runner.py and
-- run_forever of src/smartdialer/worker/reaper.py. `mode` picks the engine in build_worker.
pub mod Histories
use text.Mathlib.Text.{◌==◌ as str_eq}
use smart_dialer.Common.{ℕ, String, Bool, Option, List, [], ◌∷◌, if◌then◌else◌}
use smart_dialer.Domain.Enums.{PacingMode}
use smart_dialer.Store.{Db}
use smart_dialer.Worker.EventApplier.{drain}
use smart_dialer.Worker.Reaper.{reap}

-- `PredictivePacing() if mode == "PREDICTIVE" else ProgressivePacing()`, an engine told by its mode.
abbrev pub engine_of : String → PacingMode
engine_of mode = if str_eq mode "PREDICTIVE" then PacingMode.predictive else PacingMode.progressive

-- A turn of a loop: what others did while it slept, whether it raises, the clocks, and the events that
-- others hold.
pub record Turn : Type 0 where
  pub meanwhile : Db → Db
  pub raises : Bool
  pub clock_now : ℕ
  pub now : ℕ
  pub locked : ℕ → Bool

-- A turn that raises is logged, and its transaction is rolled back.
unfoldable pub apply_turn : ℕ → Turn → Db → Db
unfolding drain
apply_turn wrapup_s t db =
    let d = t.meanwhile db in
    if t.raises then d else (drain t.locked 200 t.clock_now wrapup_s t.now d).0

unfoldable pub event_applier_loop : ℕ → List Turn → Db → Db
unfolding apply_turn
event_applier_loop wrapup_s [] db = db
event_applier_loop wrapup_s (t ∷ turns) db =
    event_applier_loop wrapup_s turns (apply_turn wrapup_s t db)

unfoldable pub reap_turn : Option (String → Bool) → Turn → Db → Db
unfolding reap
reap_turn registry t db =
    let d = t.meanwhile db in if t.raises then d else (reap registry t.clock_now t.now d).0

-- run_forever
unfoldable pub reap_forever : Option (String → Bool) → List Turn → Db → Db
unfolding reap_turn
reap_forever registry [] db = db
reap_forever registry (t ∷ turns) db = reap_forever registry turns (reap_turn registry t db)
