-- ===== src/Providers/Breaker/Recovery.antt =====
-- How the breaker of src/smartdialer/providers/breaker.py opens, stays open and recovers.
use smart_dialer.Common.{
  ℕ, ◌+◌, ◌<◌, suc, Float, Bool, true, false, ◌≡◌, ◌↔◌, refl, List, [], ◌∷◌, length, arith, All,
}
use smart_dialer.Providers.Breaker.{Circuit, Breaker, allow, record_outcome}

-- A use of the breaker.
pub data Use : Type 0 where
  asks : ℕ → Use
  records : ℕ → Bool → Use

abbrev pub time_of : Use → ℕ
time_of (Use.asks now) = now
time_of (Use.records now ok) = now

module _ (fl : Float) where
  open fl use {Number}

  abbrev pub used : Use → Breaker Number → Breaker Number
  used (Use.asks now) b = (allow now b).0
  used (Use.records now ok) b = record_outcome fl now ok b

  abbrev pub run : List Use → Breaker Number → Breaker Number
  run [] b = b
  run (u ∷ us) b = run us (used u b)

  -- A half-open circuit has probes to spare.
  abbrev pub HasProbes : Breaker Number → Type 0
  HasProbes b =
      (0 < b.half_open_probes) × (b.state ≡ Circuit.half_open → b.probes < b.half_open_probes)

  used-HasProbes : (u : Use) (b : Breaker Number) → HasProbes b → HasProbes (used u b)
  unfolding allow record_outcome
  used-HasProbes (Use.asks now) b h = ground arith
  used-HasProbes (Use.records now ok) b h = ground arith

  pub run-HasProbes : (us : List Use) (b : Breaker Number) → HasProbes b → HasProbes (run us b)
  run-HasProbes [] b h = h
  run-HasProbes (u ∷ us) b h = run-HasProbes us (used u b) (used-HasProbes u b h)

  refusal_iff :
      (c : Breaker Number) (now : ℕ)
      → HasProbes c
      → ((allow now c).1 ≡ false) ↔ ((c.state ≡ Circuit.opened) × (now < c.opened_at + c.cooldown))
  unfolding allow
  refusal_iff c now h = ground arith

  -- From a breaker with probes to spare, after any uses: it refuses exactly when it is open and its
  -- cooldown has not passed. In particular a half-open circuit never refuses.
  pub refused_iff :
      (us : List Use) (b : Breaker Number) (now : ℕ)
      → HasProbes b
      → let c = run us b in
        ((allow now c).1 ≡ false) ↔ ((c.state ≡ Circuit.opened) × (now < c.opened_at + c.cooldown))
  refused_iff us b now h = refusal_iff (run us b) now (run-HasProbes us b h)

  -- Open since `at`.
  abbrev pub OpenSince : ℕ → ℕ → Breaker Number → Type 0
  OpenSince at span b = (b.state ≡ Circuit.opened) × (b.opened_at ≡ at) × (b.cooldown ≡ span)

  used-OpenSince :
      (u : Use) (at span : ℕ) (b : Breaker Number)
      → time_of u < at + span
      → OpenSince at span b
      → OpenSince at span (used u b)
  unfolding allow record_outcome
  used-OpenSince (Use.asks now) at span b l h = ground arith
  used-OpenSince (Use.records now ok) at span b l h = ground arith

  -- An open circuit stays open through any uses before its cooldown has passed, whatever outcomes
  -- are recorded, and refuses until then.
  open_holds :
      (us : List Use) (b : Breaker Number) (now : ℕ)
      → b.state ≡ Circuit.opened
      → All (λ u. time_of u < b.opened_at + b.cooldown) us
      → now < b.opened_at + b.cooldown
      → ((run us b).state ≡ Circuit.opened) × ((allow now (run us b)).1 ≡ false)
  unfolding allow
  open_holds us b now e h l =
      let k = kept us b.opened_at b.cooldown b h (e, refl, refl) in (k.0, ground arith)
    where
      kept :
          (us : List Use) (at span : ℕ) (b : Breaker Number)
          → All (λ u. time_of u < at + span) us
          → OpenSince at span b
          → OpenSince at span (run us b)
      kept [] at span b h k = k
      kept (u ∷ us) at span b h k =
          kept us at span (used u b) h.1 (used-OpenSince u at span b h.0 k)

  abbrev pub successes : List ℕ → List Use
  successes [] = []
  successes (now ∷ rest) = Use.records now true ∷ successes rest

  probing :
      (times : List ℕ) (b : Breaker Number)
      → b.state ≡ Circuit.half_open
      → suc (length times) + b.probes ≡ b.half_open_probes
      → (run (successes times) b).state ≡ Circuit.half_open
        × (suc (run (successes times) b).probes ≡ b.half_open_probes)
        × ((run (successes times) b).half_open_probes ≡ b.half_open_probes)
  unfolding record_outcome
  probing [] b e h = (e, ground arith, refl)
  probing (now ∷ rest) b e h =
      let c = record_outcome fl now true b in
      let k : (c.state ≡ Circuit.half_open)
          × (c.probes ≡ suc b.probes)
          × (c.half_open_probes ≡ b.half_open_probes) =
        ground arith in
      let r = probing rest c k.0 (omega (arith, k.1, k.2)) in (r.0, omega arith, omega arith)

  -- A half-open circuit without recorded probes closes, and forgets the outcomes, at the last of as
  -- many successes as it wants probes, whatever their times.
  pub recovers :
      (times : List ℕ) (last : ℕ) (b : Breaker Number)
      → b.state ≡ Circuit.half_open
      → b.probes ≡ 0
      → suc (length times) ≡ b.half_open_probes
      → let c = record_outcome fl last true (run (successes times) b) in
        (c.state ≡ Circuit.closed) × (c.outcomes ≡ [])
  unfolding record_outcome
  recovers times last b e z h =
      let k = probing times b e (omega (arith, z, h)) in
      closes last (run (successes times) b) k.0 (omega (arith, k.1, k.2))
    where
      closes :
          (last : ℕ) (c : Breaker Number)
          → c.state ≡ Circuit.half_open
          → suc c.probes ≡ c.half_open_probes
          → ((record_outcome fl last true c).state ≡ Circuit.closed)
            × ((record_outcome fl last true c).outcomes ≡ [])
      closes last c e h = ground arith
