-- ===== src/Providers/Mock/Delivery.antt =====
-- The simulated provider of src/smartdialer/providers/mock_a.py loses no event and invents none.
use smart_dialer.Common.{
  ℕ, ◌+◌, ◌≡◌, refl, String, Bool, true, false, none, some, List, [], ◌∷◌, ◌++◌, arith, count,
  if◌then◌else◌, Bool-cases, inl, inr,
}
use smart_dialer.Providers.EventMap.{map_provider_event}
use smart_dialer.Providers.Mock.{
  MockEvent, Held, hold_or_send, batch, emit_each, emit, flush, Life, run_lifecycle,
}

abbrev pub event_of : ℕ → ℕ → String → MockEvent
event_of event_id ts raw = record {
  event_id = event_id;
  etype = map_provider_event raw;
  ts = ts;
  raw = raw;
}

module _ (p : MockEvent → Bool) where
  count-++ : (xs ys : List MockEvent) → count p (xs ++ ys) ≡ count p xs + count p ys
  count-++ [] ys = omega arith
  count-++ (x ∷ xs) ys = ground (arith, count-++ xs ys)

  -- How many events that satisfy the condition wait in the slot.
  abbrev pub waiting : Held → ℕ
  waiting none = 0
  waiting (some ev) = count p (ev ∷ [])

  hold_or_send-count :
      (ev : MockEvent) (b : Bool) (h : Held)
      → let (h', sent) = hold_or_send ev b h in
        count p sent + waiting h' ≡ count p (ev ∷ []) + waiting h
  unfolding hold_or_send
  hold_or_send-count ev b none = omega arith
  hold_or_send-count ev true (some held) = ground arith
  hold_or_send-count ev false (some held) = ground arith

  emit_each-count :
      (evs : List MockEvent) (reorder : ℕ → Bool) (h : Held)
      → count p (emit_each evs reorder h).1 + waiting (emit_each evs reorder h).0
        ≡ count p evs + waiting h
  unfolding emit_each
  emit_each-count [] reorder h = omega arith
  emit_each-count (ev ∷ evs) reorder h =
      let (h', sent) = hold_or_send ev (reorder ev.event_id) h in
      let a = hold_or_send-count ev (reorder ev.event_id) h in
      let b = emit_each-count evs reorder h' in
      let c = count-++ sent (emit_each evs reorder h').1 in
      let d = count-++ (ev ∷ []) evs in omega (arith, a, b, c, d)

  flush-count : (h : Held) → (count p (flush h).1 ≡ waiting h) × ((flush h).0 ≡ none)
  unfolding flush
  flush-count none = (refl, refl)
  flush-count (some held) = (refl, refl)

  emit-count :
      (event_id ts : ℕ) (raw : String) (duplicate : Bool) (reorder : ℕ → Bool) (h : Held)
      → count p (emit event_id ts raw duplicate reorder h).1
          + waiting (emit event_id ts raw duplicate reorder h).0
        ≡ count p (batch (event_of event_id ts raw) duplicate) + waiting h
  unfolding emit
  emit-count event_id ts raw duplicate reorder h =
      emit_each-count (batch (event_of event_id ts raw) duplicate) reorder h

  -- Two emissions and a flush, and three and a flush.
  two_sent :
      (s t u e f : List MockEvent) (v w : ℕ)
      → count p s + v ≡ count p e + 0
      → count p t + w ≡ count p f + v
      → count p u ≡ w
      → count p (s ++ t ++ u) ≡ count p (e ++ f)
  two_sent s t u e f v w a b c =
      omega (arith, a, b, c, count-++ (s ++ t) u, count-++ s t, count-++ e f)

  three_sent :
      (s t u r e f g : List MockEvent) (v w x : ℕ)
      → count p s + v ≡ count p e + 0
      → count p t + w ≡ count p f + v
      → count p u + x ≡ count p g + w
      → count p r ≡ x
      → count p (s ++ t ++ u ++ r) ≡ count p (e ++ (f ++ g))
  three_sent s t u r e f g v w x a b c d = omega (
    arith,
    a,
    b,
    c,
    d,
    count-++ (s ++ t ++ u) r,
    count-++ (s ++ t) u,
    count-++ s t,
    count-++ e (f ++ g),
    count-++ f g,
  )

-- What a life cycle emits: each event, and again where the draw doubles it.
abbrev pub emitted : Life → List MockEvent
emitted l =
    batch (event_of l.first_id l.started_at "ringing") (l.duplicate l.first_id)
    ++ (if l.answered
        then batch (event_of l.second_id l.rung_at "answered") (l.duplicate l.second_id)
          ++ batch (event_of l.third_id l.ended_at "completed") (l.duplicate l.third_id)
        else batch (event_of l.second_id l.rung_at "no-answer") (l.duplicate l.second_id))

-- A life cycle that starts with an empty slot ends with one, and the sink was given exactly what
-- was emitted, up to the order: of the events with any property as many, however they were doubled
-- and reordered.
pub all_delivered :
    (l : Life) (p : MockEvent → Bool)
    → ((run_lifecycle l none).0 ≡ none) × (count p (run_lifecycle l none).1 ≡ count p (emitted l))
unfolding run_lifecycle
all_delivered l p =
    let first = emit l.first_id l.started_at "ringing" (l.duplicate l.first_id) l.reorder none in
    let a =
      emit-count p l.first_id l.started_at "ringing" (l.duplicate l.first_id) l.reorder none in
    elim (Bool-cases l.answered) [
      | inl t ↦
          let second =
            emit l.second_id l.rung_at "answered" (l.duplicate l.second_id) l.reorder first.0 in
          let third =
            emit l.third_id l.ended_at "completed" (l.duplicate l.third_id) l.reorder second.0 in
          let f = flush-count p third.0 in
          rw (t, run_lifecycle, emitted)
            (
              f.1,
              three_sent p _ _ _ _ _ _ _ _ _ _ a
                  (emit-count p l.second_id l.rung_at "answered" (l.duplicate l.second_id) l.reorder
                    first.0)
                  (emit-count p l.third_id l.ended_at "completed" (l.duplicate l.third_id) l.reorder
                    second.0)
                  f.0,
            )
      | inr t ↦
          let second =
            emit l.second_id l.rung_at "no-answer" (l.duplicate l.second_id) l.reorder first.0 in
          let f = flush-count p second.0 in
          rw (t, run_lifecycle, emitted)
            (
              f.1,
              two_sent p _ _ _ _ _ _ _ a
                  (emit-count p l.second_id l.rung_at "no-answer" (l.duplicate l.second_id)
                    l.reorder first.0)
                  f.0,
            )
    ]
