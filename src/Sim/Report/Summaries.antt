-- ===== src/Sim/Report/Summaries.antt =====
-- What the summary of src/smartdialer/sim/report.py says of the rows of a simulation.
use text.Mathlib.Text.{◌==◌ as str_eq}
use smart_dialer.Common.{
  ℕ, ◌≤◌, ◌≡◌, ◌↔◌, refl, Float, String, Bool, true, not, List, [], ◌∷◌, Option, none, some, All,
  map, ltb, arith, length, count,
}
use smart_dialer.Domain.Enums.{PacingMode, ReasonCode}
use smart_dialer.Domain.Names.{reason_text}
use smart_dialer.Store.{Db}
use smart_dialer.Safety.{Outside}
use smart_dialer.Sim.Runner.{SimRow, Turn, SimState, sim_loop}
use smart_dialer.Sim.Runner.Judged.{IsJudged, sim_loop-IsJudged}
use smart_dialer.Sim.Report.{Summary, summarize, code_of, dominant, counter}
use smart_dialer.Sim.Report.Tallies.{occurrences, dominant_lem}

is_ok : (c : ReasonCode) → (str_eq (reason_text c) "OK" ≡ true) ↔ (c ≡ ReasonCode.ok)
is_ok ReasonCode.ok = ((λ e. refl), λ e. refl)
is_ok _ = ((λ e. ground arith), λ e. ground arith)

-- A row in which the safety controller cut the request.
abbrev pub was_cut : {F : Type 0} → SimRow F → Bool
was_cut r = ltb r.approved r.requested

-- How many rows have a code.
abbrev pub rows_with : {F : Type 0} → String → List (SimRow F) → ℕ
rows_with s rows = count (λ r. str_eq (code_of r) s) rows

intervened : {F : Type 0} (r : SimRow F) → IsJudged r → not (str_eq (code_of r) "OK") ≡ was_cut r
intervened r h = ground (arith, is_ok r.reason_code)

interventions :
    {F : Type 0} (rows : List (SimRow F))
    → All IsJudged rows
    → count (λ r. not (str_eq (code_of r) "OK")) rows ≡ count was_cut rows
interventions [] h = refl
interventions (r ∷ rs) h = ground (arith, intervened r h.0, interventions rs h.1)

rows_with-occurrences :
    {F : Type 0} (s : String) (rows : List (SimRow F))
    → occurrences (map code_of rows) s ≡ rows_with s rows
rows_with-occurrences s [] = refl
rows_with-occurrences s (r ∷ rs) = ground (arith, rows_with-occurrences s rs)

-- What a summary has to say of rows.
abbrev pub IsSummary : {F : Type 0} → List (SimRow F) → Option (Summary F) → Type 0
IsSummary rows none = rows ≡ []
IsSummary rows (some s) =
    (s.ticks ≡ length rows)
    × (s.safety_interventions ≡ count was_cut rows)
    × ((code : String) → rows_with code rows ≤ rows_with s.dominant_reason_code rows)

module _ (fl : Float) where
  summarize-IsSummary :
      (rows : List (SimRow fl.Number)) → All IsJudged rows → IsSummary rows (summarize fl rows)
  unfolding summarize
  summarize-IsSummary [] h = refl
  summarize-IsSummary (r ∷ rs) h = (
    refl,
    interventions (r ∷ rs) h,
    λ code. omega (
      arith,
      dominant_lem (map code_of (r ∷ rs)) code,
      rows_with-occurrences code (r ∷ rs),
      rows_with-occurrences (dominant (counter [] (map code_of (r ∷ rs)))) (r ∷ rs),
    ),
  )

  -- The summary of the rows of a simulation that began without any: it counts its ticks; its safety
  -- interventions are the ticks in which the controller approved fewer calls than the engine asked
  -- for; no reason code is more frequent than the dominant one; and it is empty only without rows.
  pub sim_loop-IsSummary :
      (round : ℕ → fl.Number → fl.Number) (outside : Outside Db) (mode : PacingMode)
      (campaign_id wrapup_s reap_every : ℕ) (ts : List (Turn fl round)) (s : SimState fl round)
      → s.rows ≡ []
      → let rows = (sim_loop fl round outside mode campaign_id wrapup_s reap_every ts s).rows in
        IsSummary rows (summarize fl rows)
  sim_loop-IsSummary round outside mode campaign_id wrapup_s reap_every ts s e =
      summarize-IsSummary _
        (sim_loop-IsJudged fl round outside mode campaign_id wrapup_s reap_every ts s (rw e tt))
