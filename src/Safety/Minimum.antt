-- ===== src/Safety/Minimum.antt =====
-- A decision of src/smartdialer/safety/controller.py is the smallest of the request and of the caps
-- that the rules set. Nothing is assumed of the machine's floats.
use smart_dialer.Common.{
  ℕ, ◌≤◌, ◌≡◌, refl, Float, none, some, List, [], ◌∷◌, ◌++◌, arith, min, Option-cases, inl, inr,
}
use smart_dialer.Domain.Enums.{ReasonCode}
use smart_dialer.Domain.Models.{MetricsSnapshot, PacingRequest}
use smart_dialer.Safety.{apply_rules, lowered, evaluate}
use smart_dialer.Safety.Rules.{SafetyContext, Rule, rules}

module _ (fl : Float) (req : PacingRequest) (s : MetricsSnapshot fl.Number) where
  open fl use {Number, lt, literal}

  -- The caps that the rules set, in their order, each in the context that the earlier ones left.
  pub caps : List (Rule Number) → SafetyContext Number → List ℕ
  caps [] ctx = []
  caps (rule ∷ rest) ctx =
      let (out, ctx') = rule req s ctx in
      let later = caps rest ctx' in elim out [ none ↦ later | some (n, code) ↦ n ∷ later ]

  abbrev pub least : ℕ → List ℕ → ℕ
  least n [] = n
  least n (m ∷ ms) = least (min n m) ms

  lowered-min :
      (n : ℕ) (code : ReasonCode) (best : ℕ × ReasonCode)
      → (lowered (some (n, code)) best).0 ≡ min best.0 n
  lowered-min n code (approved, reason) = ground arith

  apply_rules-least :
      (rs : List (Rule Number)) (best : ℕ × ReasonCode) (ctx : SafetyContext Number)
      → (apply_rules fl rs req s best ctx).0.0 ≡ least best.0 (caps rs ctx)
  unfolding apply_rules caps
  apply_rules-least [] best ctx = refl
  apply_rules-least (rule ∷ rest) best ctx = elim (Option-cases (rule req s ctx).0) [
    | inl e ↦ rw (e, caps, apply_rules) (apply_rules-least rest best (rule req s ctx).1)
    | inr ((n, code), e) ↦
        rw (e, caps, apply_rules, ← lowered-min n code best)
          (apply_rules-least rest (lowered (some (n, code)) best) (rule req s ctx).1)
  ]

  pub least-le : (n : ℕ) (ms : List ℕ) → least n ms ≤ n
  least-le n [] = omega arith
  least-le n (m ∷ ms) = omega (arith, least-le (min n m) ms)

  pub apply_rules-le :
      (rs : List (Rule Number)) (best : ℕ × ReasonCode) (ctx : SafetyContext Number)
      → (apply_rules fl rs req s best ctx).0.0 ≤ best.0
  apply_rules-le rs best ctx = rw (apply_rules-least rs best ctx) (least-le best.0 (caps rs ctx))

  -- The context that the first rules leave.
  unfoldable pub after : List (Rule Number) → SafetyContext Number → SafetyContext Number
  after [] ctx = ctx
  after (rule ∷ rest) ctx = after rest (rule req s ctx).1

  -- No rule is overruled: whatever stands before and behind it, its cap holds.
  pub cap-le :
      (xs : List (Rule Number)) (rule : Rule Number) (ys : List (Rule Number))
      (best : ℕ × ReasonCode) (ctx : SafetyContext Number) (n : ℕ) (code : ReasonCode)
      → (rule req s (after xs ctx)).0 ≡ some (n, code)
      → (apply_rules fl (xs ++ rule ∷ ys) req s best ctx).0.0 ≤ n
  unfolding apply_rules after
  cap-le [] rule ys best ctx n code e =
      rw (e, apply_rules)
        (omega (
          arith,
          apply_rules-le ys (lowered (some (n, code)) best) (rule req s ctx).1,
          lowered-min n code best,
        ))
  cap-le (x ∷ xs) rule ys best ctx n code e =
      cap-le xs rule ys (lowered (x req s ctx).0 best) (x req s ctx).1 n code e

  -- A decision is the smallest of the request and of all the caps.
  pub evaluate-least :
      (ctx : SafetyContext Number) → (evaluate fl req s ctx).0.0 ≡ least req.n (caps (rules fl) ctx)
  unfolding evaluate
  evaluate-least ctx = omega (
    arith,
    apply_rules-least (rules fl) (req.n, ReasonCode.ok) ctx,
    least-le req.n (caps (rules fl) ctx),
  )

  pub approved-le-cap :
      (xs : List (Rule Number)) (rule : Rule Number) (ys : List (Rule Number))
      (ctx : SafetyContext Number) (n : ℕ) (code : ReasonCode)
      → rules fl ≡ xs ++ rule ∷ ys
      → (rule req s (after xs ctx)).0 ≡ some (n, code)
      → (evaluate fl req s ctx).0.0 ≤ n
  unfolding evaluate
  approved-le-cap xs rule ys ctx n code e h =
      rw e (omega (arith, cap-le xs rule ys (req.n, ReasonCode.ok) ctx n code h))

  pub evaluate-le : (ctx : SafetyContext Number) → (evaluate fl req s ctx).0.0 ≤ req.n
  evaluate-le ctx = rw (evaluate-least ctx) (least-le req.n (caps (rules fl) ctx))
