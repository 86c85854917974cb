-- ===== src/Safety/Execution.antt =====
-- What `evaluate_and_execute` of src/smartdialer/safety/controller.py does with a decision, and the
-- clamp of src/smartdialer/config.py.
use smart_dialer.Common.{
  ℕ, ◌≤◌, ◌≡◌, ◌↔◌, ◌≢◌, refl, Float, Irreflexive, min_of, ap, false, Option, none, some, List, [],
  ◌∷◌, arith, if◌then◌else◌, ltb, Bool-cases, inl, inr, All,
}
use smart_dialer.Domain.Enums.{PacingMode, ReasonCode}
use smart_dialer.Domain.Models.{MetricsSnapshot, PacingRequest}
use smart_dialer.Config.{SafetyLimits, clamped}
use smart_dialer.Safety.{Outside, evaluate, evaluate_and_execute, apply_rules, lowered}
use smart_dialer.Safety.Minimum.{evaluate-le, apply_rules-le}
use smart_dialer.Safety.Bounds.{Envelope, evaluate-Envelope}
use smart_dialer.Safety.Rules.{SafetyContext, Rule, rules, s5_abandon_budget}

-- The allocator's promise: it places no more calls than it is told to.
abbrev IsBounded : {D : Type 0} → Outside D → Type 0
IsBounded {D} outside = (campaign_id n : ℕ) (d : D) → (outside.allocate_batch campaign_id n d).1 ≤ n

placed-le :
    {D : Type 0} (n : ℕ) (called : D × ℕ) (d : D)
    → called.1 ≤ n
    → (if ltb 0 n then called else (d, 0)).1 ≤ n
placed-le n called d h = elim (Bool-cases (ltb 0 n)) [ inl e ↦ rw e h | inr e ↦ rw e (omega arith) ]

module _ (fl : Float) where
  open fl use {Number}

  -- With an allocator that never places more calls than it is told to: no more calls are placed than
  -- approved, no more approved than requested, the decision reports the engine's request, and the
  -- approved number lies in the envelope of the rules.
  execution_bounded :
      {D : Type 0} (outside : Outside D) (req : PacingRequest) (s : MetricsSnapshot Number)
      (mode : PacingMode) (sim_tick : Option ℕ) (tick_at : ℕ) (ctx : SafetyContext Number) (d : D)
      → IsBounded outside
      → let r = (evaluate_and_execute fl outside req s mode sim_tick tick_at ctx d).0 in
        (r.placed ≤ r.approved)
        × (r.approved ≤ r.requested)
        × (r.requested ≡ req.n)
        × Envelope fl req s ctx r.approved
  unfolding evaluate_and_execute
  execution_bounded outside req s mode sim_tick tick_at ctx d h = (
    placed-le (evaluate fl req s ctx).0.0 _ _ (h req.campaign_id (evaluate fl req s ctx).0.0 _),
    evaluate-le fl req s ctx,
    refl,
    evaluate-Envelope fl req s ctx,
  )

  -- A rule's reason is never OK.
  abbrev Objects : Rule Number → Type 0
  Objects rule =
      (req : PacingRequest) (s : MetricsSnapshot Number) (ctx : SafetyContext Number) (n : ℕ)
      → (rule req s ctx).0 ≢ some (n, ReasonCode.ok)

  s5-Objects : Objects (s5_abandon_budget fl)
  unfolding s5_abandon_budget
  s5-Objects req s ctx n e = ground arith

  rules-Objects : All Objects (rules fl)
  unfolding rules
  rules-Objects = (
    λ req s ctx n e. ground arith,
    (
      λ req s ctx n e. ground arith,
      (
        λ req s ctx n e. ground arith,
        (
          λ req s ctx n e. ground arith,
          (
            λ req s ctx n e. ground arith,
            (s5-Objects, (λ req s ctx n e. ground arith, (λ req s ctx n e. ground arith, tt))),
          ),
        ),
      ),
    ),
  )

  abbrev Cut : ℕ → ℕ × ReasonCode → Type 0
  Cut n best = (best.1 ≡ ReasonCode.ok) ↔ (best.0 ≡ n)

  lowered-Cut :
      (n : ℕ) (out : Option (ℕ × ReasonCode)) (best : ℕ × ReasonCode)
      → ((k : ℕ) → out ≢ some (k, ReasonCode.ok))
      → best.0 ≤ n
      → Cut n best
      → Cut n (lowered out best)
  lowered-Cut n none best h l c = c
  lowered-Cut n (some (k, code)) (a, r) h l c = elim (Bool-cases (ltb k a)) [
    | inl e ↦ rw e (λ q. absurd (h k (ap (λ z. some (k, z)) q)), λ q. absurd (ground arith))
    | inr e ↦ rw e c
  ]

  lowered-le :
      (out : Option (ℕ × ReasonCode)) (best : ℕ × ReasonCode) → (lowered out best).0 ≤ best.0
  lowered-le none best = omega arith
  lowered-le (some (k, code)) (a, r) = ground arith

  apply_rules-Cut :
      (rs : List (Rule Number)) (req : PacingRequest) (s : MetricsSnapshot Number)
      (best : ℕ × ReasonCode) (ctx : SafetyContext Number)
      → All Objects rs
      → best.0 ≤ req.n
      → Cut req.n best
      → Cut req.n (apply_rules fl rs req s best ctx).0
  unfolding apply_rules
  apply_rules-Cut [] req s best ctx h l c = c
  apply_rules-Cut (rule ∷ rs) req s best ctx h l c =
      apply_rules-Cut rs req s (lowered (rule req s ctx).0 best) (rule req s ctx).1 h.1
        (omega (arith, lowered-le (rule req s ctx).0 best))
        (lowered-Cut req.n (rule req s ctx).0 best (h.0 req s ctx) l c)

  -- The reason of a decision is OK exactly when the approved number is the requested one.
  pub reason_iff :
      (req : PacingRequest) (s : MetricsSnapshot Number) (ctx : SafetyContext Number)
      → ((evaluate fl req s ctx).0.1 ≡ ReasonCode.ok) ↔ ((evaluate fl req s ctx).0.0 ≡ req.n)
  unfolding evaluate
  reason_iff req s ctx =
      let c =
        apply_rules-Cut (rules fl) req s (req.n, ReasonCode.ok) ctx rules-Objects (omega arith)
          ((λ q. refl), (λ q. refl)) in
      let l = apply_rules-le fl req s (rules fl) (req.n, ReasonCode.ok) ctx in
      ((λ q. omega (arith, c.0 q)), (λ q. c.1 (omega arith)))

  min_of-bound : (x y : Number) → Irreflexive fl → fl.lt y (min_of fl x y) ≡ false
  min_of-bound x y h = elim (Bool-cases (fl.lt y x)) [ inl e ↦ rw e (h y) | inr e ↦ rw e e ]

  -- Of floats of which none is below itself: after the clamp the overdial ratio is not above the
  -- absolute ratio of the same limits, and the abandon rate is not above 0.05.
  pub clamped_bounds :
      (limits : SafetyLimits Number)
      → Irreflexive fl
      → (fl.lt limits.abs_max_overdial_ratio (clamped fl limits).max_overdial_ratio ≡ false)
        × (fl.lt (fl.literal 5 2) (clamped fl limits).max_abandon_rate ≡ false)
  unfolding clamped
  clamped_bounds limits h = (
    min_of-bound limits.max_overdial_ratio limits.abs_max_overdial_ratio h,
    min_of-bound limits.max_abandon_rate (fl.literal 5 2) h,
  )
