-- ===== src/Sim/Report.antt =====
-- src/smartdialer/sim/report.py: the numbers of its summary and of its chart of reason codes. A row is
-- as sim/runner.py made it: its way through the text of a CSV file is left out.
pub mod Tallies
pub mod Buckets
pub mod Summaries
use text.Mathlib.Text.{◌==◌ as str_eq}
use smart_dialer.Common.{
  ℕ, zero, suc, ◌+◌, ◌-◌, Float, Bool, max_of, String, Option, none, some, List, [], ◌∷◌, map,
  count, length, not, min, if◌then◌else◌, ltb, ◌==◌,
}
use smart_dialer.Domain.Names.{reason_text}
use smart_dialer.LiveStatus.{bump}
use smart_dialer.Pacing.Estimators.{sum_from}
use smart_dialer.Sim.Runner.{SimRow, Cumulative}

-- collections.Counter, in the order of the first occurrences.
unfoldable pub counter : List (String × ℕ) → List String → List (String × ℕ)
counter acc [] = acc
counter acc (s ∷ ss) = counter (bump s acc) ss

-- most_common(1): the first of the greatest counts, from a best one so far.
abbrev pub most_common : String × ℕ → List (String × ℕ) → String × ℕ
most_common best [] = best
most_common best (r ∷ rs) = most_common (if ltb best.1 r.1 then r else best) rs

-- `counts.most_common(1)[0][0] if counts else "n/a"`
abbrev pub dominant : List (String × ℕ) → String
dominant [] = "n/a"
dominant (r ∷ rs) = (most_common r rs).0

abbrev pub last_of : {A : Type 0} → A → List A → A
last_of x [] = x
last_of x (y ∷ ys) = last_of y ys

abbrev pub code_of : {F : Type 0} → SimRow F → String
code_of r = reason_text r.reason_code

pub record Summary (F : Type 0) : Type 0 where
  pub mean_utilization : F
  pub final_utilization : F
  pub calls_connected : ℕ
  pub calls_abandoned : ℕ
  pub abandon_pct : F
  pub dominant_reason_code : String
  pub safety_interventions : ℕ
  pub ticks : ℕ

-- `[0] * buckets`
abbrev pub zeros : ℕ → List ℕ
zeros zero = []
zeros (suc n) = 0 ∷ zeros n

-- `xs[i] += 1`, for an index in range.
abbrev pub add_at : ℕ → List ℕ → List ℕ
add_at i [] = []
add_at zero (x ∷ xs) = (x + 1) ∷ xs
add_at (suc i) (x ∷ xs) = x ∷ add_at i xs

module _ (fl : Float) where
  open fl use {Number, literal, of_ℕ, add, mul, div, lt, trunc}

  -- The empty dictionary is none.
  unfoldable pub summarize : List (SimRow Number) → Option (Summary Number)
  unfolding counter
  summarize [] = none
  summarize (r ∷ rs) =
      let rows = r ∷ rs in
      let last = last_of r rs in
      let util = map (λ x. x.utilization) rows in
      let connected = last.cum.connected_cum in
      let abandoned = last.cum.abandoned_cum in
      let total_resolved = connected + abandoned in
      some (record {
        mean_utilization = div (sum_from fl (literal 0 0) util) (of_ℕ (length util));
        final_utilization = last.utilization;
        calls_connected = connected;
        calls_abandoned = abandoned;
        abandon_pct =
            if total_resolved == 0
            then literal 0 0
            else mul (div (of_ℕ abandoned) (of_ℕ total_resolved)) (literal 100 0);
        dominant_reason_code = dominant (counter [] (map code_of rows));
        safety_interventions = count (λ x. not (str_eq (code_of x) "OK")) rows;
        ticks = length rows;
      })

  -- `min(buckets - 1, int(t / width))`
  abbrev pub bucket_of : ℕ → Number → Number → ℕ
  bucket_of buckets width t = min (buckets - 1) (trunc (div t width))

  -- `max(t_max / buckets, 1e-6)` with `t_max = … or 1.0`; `truthy` says which floats are not zero.
  abbrev pub width_of : (Number → Bool) → ℕ → Number → Number
  width_of truthy buckets last_time =
      max_of fl (div (if truthy last_time then last_time else literal 1 0) (of_ℕ buckets))
        (literal 1 6)

  -- The loop over the rows, for the series of one code.
  unfoldable pub filled : String → ℕ → Number → List (SimRow Number) → List ℕ → List ℕ
  filled code buckets width [] series = series
  filled code buckets width (r ∷ rs) series = filled code buckets width rs (
      if str_eq (code_of r) code
      then add_at (bucket_of buckets width r.sim_time) series
      else series)

  -- plot_reason_codes, up to the chart: the series of a code.
  unfoldable pub reason_series :
      (Number → Bool) → ℕ → String → List (SimRow Number) → Option (List ℕ)
  unfolding filled
  reason_series truthy buckets code [] = none
  reason_series truthy buckets code (r ∷ rs) = some (
      filled code buckets (width_of truthy buckets (last_of r rs).sim_time) (r ∷ rs)
        (zeros buckets))
