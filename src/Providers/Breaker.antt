-- ===== src/Providers/Breaker.antt =====
-- src/smartdialer/providers/breaker.py: the circuit breaker in front of a provider. Times and spans
-- are in milliseconds.
pub mod Recovery
use smart_dialer.Common.{
  ℕ, ◌+◌, ◌-◌, suc, Float, Bool, true, false, not, ◌&&◌, List, [], ◌∷◌, ◌++◌, length, select,
  if◌then◌else◌, ltb, leb,
}

pub data Circuit : Type 0 where
  closed opened half_open : Circuit

-- The fields of CircuitBreaker; the first five are set once.
pub record Breaker (F : Type 0) : Type 0 where
  pub window : ℕ
  pub threshold : F
  pub min_calls : ℕ
  pub cooldown : ℕ
  pub half_open_probes : ℕ
  pub state : Circuit
  pub opened_at : ℕ
  pub probes : ℕ
  pub outcomes : List (ℕ × Bool)

abbrev pub is_open : Circuit → Bool
is_open Circuit.opened = true
is_open _ = false

-- _trim: the outcomes that are older than the window leave at the front.
abbrev pub trimmed : ℕ → ℕ → List (ℕ × Bool) → List (ℕ × Bool)
trimmed window now [] = []
trimmed window now ((at, ok) ∷ rest) =
    let later = trimmed window now rest in if ltb window (now - at) then later else (at, ok) ∷ rest

-- `sum(1 for _, o in self._events if not o)`
abbrev pub errors : List (ℕ × Bool) → ℕ
errors xs = length (select (λ e. not e.1) xs)

module _ {F : Type 0} where
  -- _open
  abbrev pub open_at : ℕ → Breaker F → Breaker F
  open_at now b = record b { state = Circuit.opened; opened_at = now; probes = 0 }

  -- The branch of `record` for a half-open circuit.
  abbrev pub probed : ℕ → Bool → Breaker F → Breaker F
  probed now ok b =
      let counted = record b { probes = suc b.probes } in
      if not ok
      then open_at now counted
      else if leb b.half_open_probes (suc b.probes)
      then record counted { state = Circuit.closed; outcomes = [] }
      else counted

  -- allow
  unfoldable pub allow : ℕ → Breaker F → Breaker F × Bool
  allow now b = elim b.state [
    | Circuit.opened ↦
        if leb (b.opened_at + b.cooldown) now
        then (record b { state = Circuit.half_open; probes = 0 }, true)
        else (b, false)
    | Circuit.half_open ↦ (b, ltb b.probes b.half_open_probes)
    | Circuit.closed ↦ (b, true)
  ]

module _ (fl : Float) where
  open fl use {Number, literal, of_ℕ, div, lt}

  abbrev pub rate_of : List (ℕ × Bool) → Number
  rate_of xs = div (of_ℕ (errors xs)) (of_ℕ (length xs))

  -- error_rate
  abbrev pub error_rate : Breaker Number → Number
  error_rate b = elim b.outcomes [ [] ↦ literal 0 0 | x ∷ xs ↦ rate_of (x ∷ xs) ]

  -- The branch of `record` for a closed circuit. `>=` is read as "not below": a quotient of two
  -- counts is no NaN.
  abbrev pub judged : ℕ → Breaker Number → Breaker Number
  judged now b =
      if leb b.min_calls (length b.outcomes) && not (lt (rate_of b.outcomes) b.threshold)
      then open_at now b
      else b

  -- record
  unfoldable pub record_outcome : ℕ → Bool → Breaker Number → Breaker Number
  record_outcome now ok b =
      let noted = record b { outcomes = trimmed b.window now (b.outcomes ++ (now, ok) ∷ []) } in
      elim b.state [
        | Circuit.half_open ↦ probed now ok noted
        | Circuit.closed ↦ judged now noted
        | Circuit.opened ↦ noted
      ]
