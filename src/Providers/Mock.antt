-- ===== src/Providers/Mock.antt =====
-- src/smartdialer/providers/mock_a.py: the simulated provider. The draws of its random generator
-- and the fresh identifiers are arguments.
pub mod Delivery
use smart_dialer.Common.{
  ℕ, Float, max_of, String, Bool, true, false, Option, none, some, List, [], ◌∷◌, ◌++◌,
  if◌then◌else◌, ltb,
}
use smart_dialer.Providers.EventMap.{map_provider_event}

-- An event as _emit builds it.
pub record MockEvent : Type 0 where
  pub event_id : ℕ
  pub etype : List ℕ
  pub ts : ℕ
  pub raw : String

pub data Placed : Type 0 where
  timed_out congested : Placed
  accepted : String → Placed

module _ (fl : Float) where
  open fl use {Number, lt}

  -- place_call, up to the start of the call's life cycle.
  unfoldable pub place_call : ℕ → ℕ → Number → Number → Number → Number → String → Placed
  place_call clock_now outage_until timeout_rate hard_fail_rate draw draw2 pcid =
      if ltb clock_now outage_until
      then Placed.timed_out
      else if lt draw timeout_rate
      then Placed.timed_out
      else if lt draw2 hard_fail_rate
      then Placed.congested
      else Placed.accepted pcid

-- `self._held.get(pcid)`: _emit and _flush read and write the slot of their own call only.
abbrev pub Held : Type 0
Held = Option MockEvent

-- One turn of the loop of _emit; the draw says whether the pair is reversed.
unfoldable pub hold_or_send : MockEvent → Bool → Held → Held × List MockEvent
hold_or_send ev reorder none = (some ev, [])
hold_or_send ev reorder (some held) = (none, if reorder then ev ∷ held ∷ [] else held ∷ ev ∷ [])

-- The batch: the event, and its copy under the same identifier when the draw says so.
abbrev pub batch : MockEvent → Bool → List MockEvent
batch ev duplicate = if duplicate then ev ∷ ev ∷ [] else ev ∷ []

unfoldable pub emit_each : List MockEvent → (ℕ → Bool) → Held → Held × List MockEvent
unfolding hold_or_send
emit_each [] reorder held = (held, [])
emit_each (ev ∷ evs) reorder held =
    let (held', sent) = hold_or_send ev (reorder ev.event_id) held in
    let (held'', later) = emit_each evs reorder held' in (held'', sent ++ later)

unfoldable pub emit : ℕ → ℕ → String → Bool → (ℕ → Bool) → Held → Held × List MockEvent
unfolding emit_each
emit event_id clock_now raw duplicate reorder held =
    emit_each
      (batch
        (record { event_id = event_id; etype = map_provider_event raw; ts = clock_now; raw = raw })
        duplicate)
      reorder held

-- _flush
unfoldable pub flush : Held → Held × List MockEvent
flush none = (none, [])
flush (some held) = (none, held ∷ [])

-- The draws and the times of a life cycle.
pub record Life : Type 0 where
  pub started_at : ℕ
  pub rung_at : ℕ
  pub ended_at : ℕ
  pub answered : Bool
  pub first_id : ℕ
  pub second_id : ℕ
  pub third_id : ℕ
  pub duplicate : ℕ → Bool
  pub reorder : ℕ → Bool

-- _run_lifecycle: what the sink is given, in order.
unfoldable pub run_lifecycle : Life → Held → Held × List MockEvent
unfolding emit flush
run_lifecycle l held =
    let (h1, s1) = emit l.first_id l.started_at "ringing" (l.duplicate l.first_id) l.reorder held in
    if l.answered
    then (let (h2, s2) =
          emit l.second_id l.rung_at "answered" (l.duplicate l.second_id) l.reorder h1 in
        let (h3, s3) =
          emit l.third_id l.ended_at "completed" (l.duplicate l.third_id) l.reorder h2 in
        let (h4, s4) = flush h3 in (h4, s1 ++ s2 ++ s3 ++ s4))
    else (let (h2, s2) =
          emit l.second_id l.rung_at "no-answer" (l.duplicate l.second_id) l.reorder h1 in
        let (h3, s3) = flush h2 in (h3, s1 ++ s2 ++ s3))
