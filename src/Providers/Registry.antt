-- ===== src/Providers/Registry.antt =====
-- src/smartdialer/providers/registry.py and the health of src/smartdialer/providers/base.py and
-- mock_a.py. Asking for the health of a provider asks its breaker, which may half-open it.
pub mod Routing
pub mod Best
use smart_dialer.Common.{
  ℕ, Float, max_of, String, Bool, Option, none, some, List, [], ◌∷◌, if◌then◌else◌, codes,
  same_text, map, length, ◌==◌,
}
use smart_dialer.Allocator.{Registry}
use smart_dialer.Providers.Breaker.{
  Breaker, Circuit, allow, is_open, errors, rate_of, error_rate, record_outcome, trimmed, judged,
}

pub record Provider (F : Type 0) : Type 0 where
  pub name : String
  pub p95_setup_s : F
  pub breaker : Breaker F

pub record HealthSnapshot (F : Type 0) : Type 0 where
  pub name : String
  pub healthy : Bool
  pub error_rate : F
  pub p95_setup_s : F
  pub open_circuit : Bool

module _ (fl : Float) (now : ℕ) where
  open fl use {Number, literal, sub}

  abbrev pub score : HealthSnapshot Number → Number
  score h =
      if h.open_circuit
      then literal 0 0
      else max_of fl (literal 0 0) (sub (literal 1 0) h.error_rate)

  unfoldable pub health : Provider Number → Provider Number × HealthSnapshot Number
  health p =
      let (b, healthy) = allow now p.breaker in
      (
        record p { breaker = b },
        record {
          name = p.name;
          healthy = healthy;
          error_rate = error_rate fl b;
          p95_setup_s = p.p95_setup_s;
          open_circuit = is_open b.state;
        },
      )

  -- The two passes of `pick`: a provider is asked for its health, and again for its score when it
  -- is healthy. A provider's health changes no other provider, so the passes are told as one.
  unfoldable pub polled : Provider Number → Provider Number × Option (String × Number)
  unfolding health
  polled p =
      let (p1, h1) = health p in
      let (p2, h2) = health p1 in if h1.healthy then (p2, some (p.name, score h2)) else (p1, none)

  unfoldable pub candidates :
      List (Provider Number) → List (Provider Number) × List (String × Number)
  candidates [] = ([], [])
  candidates (p ∷ ps) =
      let (p', rating) = polled p in
      let (ps', rest) = candidates ps in (p' ∷ ps', elim rating [ none ↦ rest | some r ↦ r ∷ rest ])

  -- `max(candidates, key=…)`: the first of the best.
  abbrev pub max_from : String × Number → List (String × Number) → String × Number
  max_from best [] = best
  max_from best (x ∷ xs) = max_from (if fl.lt best.1 x.1 then x else best) xs

  abbrev pub best_name : List (String × Number) → Option String
  best_name [] = none
  best_name (x ∷ xs) = some (max_from x xs).0

  unfoldable pub pick : List (Provider Number) → List (Provider Number) × Option String
  pick ps = let (ps', ratings) = candidates ps in (ps', best_name ratings)

  -- record. The names of a registry are the keys of a dict, so one provider at most has the name.
  unfoldable pub record_result : List (Provider Number) → String → Bool → List (Provider Number)
  unfolding record_outcome
  record_result ps name ok =
      map
        (λ p.
          if same_text (codes p.name) (codes name)
          then record p { breaker = record_outcome fl now ok p.breaker }
          else p)
        ps

  unfoldable pub health_map :
      List (Provider Number) → List (Provider Number) × List (String × Number)
  unfolding health
  health_map [] = ([], [])
  health_map (p ∷ ps) =
      let (p', h) = health p in
      let (ps', rest) = health_map ps in (p' ∷ ps', (p.name, score h) ∷ rest)

  -- The registry that the allocator is built with.
  unfoldable pub registry : Registry (List (Provider Number))
  unfolding pick record_result
  registry = record { pick = pick; record_result = record_result }
