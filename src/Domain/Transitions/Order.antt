-- ===== src/Domain/Transitions/Order.antt =====
-- What src/smartdialer/domain/transitions.py::can_apply admits.
use smart_dialer.Common.{
  ◌≡◌, refl, Bool, false, ◌≤◌, ◌<◌, ◌↔◌, ◌⊎◌, inl, inr, true, none, some, arith, Bool-cases,
}
use smart_dialer.Domain.Enums.{CallState}
use smart_dialer.Domain.Transitions.{rank, terminal_rank, can_apply, Anomaly}

-- The edges that the comment above LEGAL_NEXT describes: one to the next stage, with the stage
-- `ringing` optional, and one from every stage before the end to each of the four ends.
pub data Live : CallState → Type 0 where
  queued : Live CallState.queued
  reserved : Live CallState.reserved
  initiated : Live CallState.initiated
  ringing : Live CallState.ringing
  answered : Live CallState.answered
  connected : Live CallState.connected

pub data End : CallState → Type 0 where
  completed : End CallState.completed
  failed : End CallState.failed
  cancelled : End CallState.cancelled
  abandoned : End CallState.abandoned

pub data Edge : CallState → CallState → Type 0 where
  reserve : Edge CallState.queued CallState.reserved
  initiate : Edge CallState.reserved CallState.initiated
  ring : Edge CallState.initiated CallState.ringing
  answer : Edge CallState.initiated CallState.answered
  pick_up : Edge CallState.ringing CallState.answered
  bridge : Edge CallState.answered CallState.connected
  finish : {s t : CallState} → Live s → End t → Edge s t

pub ruleset edges =
    (Edge.reserve, Edge.initiate, Edge.ring, Edge.answer, Edge.pick_up, Edge.bridge, Edge.finish)

ruleset stages = (
  Live.queued, Live.reserved, Live.initiated, Live.ringing, Live.answered, Live.connected,
  End.completed, End.failed, End.cancelled, End.abandoned,
)

edge_of_accept : (s t : CallState) → can_apply s t ≡ (true, none) → Edge s t
unfolding can_apply
edge_of_accept s t h = grind (arith, edges, stages)

pub rank-le : (s : CallState) → rank s ≤ terminal_rank
rank-le CallState.queued = omega arith
rank-le _ = omega arith

pub Live-rank : {s : CallState} → Live s → rank s < terminal_rank
Live-rank Live.queued = omega arith
Live-rank _ = omega arith

pub End-rank : {s : CallState} → End s → rank s ≡ terminal_rank
End-rank End.completed = refl
End-rank _ = refl

accept_of_finish : {s t : CallState} → Live s → End t → can_apply s t ≡ (true, none)
unfolding can_apply
accept_of_finish l e = ground (arith, Live-rank l, End-rank e)

accept_of_edge : {s t : CallState} → Edge s t → can_apply s t ≡ (true, none)
unfolding can_apply
accept_of_edge Edge.reserve = refl
accept_of_edge Edge.initiate = refl
accept_of_edge Edge.ring = refl
accept_of_edge Edge.answer = refl
accept_of_edge Edge.pick_up = refl
accept_of_edge Edge.bridge = refl
accept_of_edge (Edge.finish l e) = accept_of_finish l e

-- What is refused as out of order.
abbrev IsStale : CallState → CallState → Type 0
IsStale s t = End s ⊎ (rank t ≤ rank s)

IsStale-of_refusal :
    (s t : CallState) → can_apply s t ≡ (false, some Anomaly.out_of_order) → IsStale s t
unfolding can_apply
IsStale-of_refusal s t h = grind (arith, stages)

refusal_of_stale :
    (s t : CallState) → IsStale s t → can_apply s t ≡ (false, some Anomaly.out_of_order)
unfolding can_apply
refusal_of_stale s t (inl e) = ground (arith, End-rank e)
refusal_of_stale s t (inr h) = ground arith

-- LEGAL_NEXT as ARCHITECTURE.md has it, in the listing of the same module.
abbrev pub documented : CallState → CallState → Bool
documented CallState.queued CallState.reserved = true
documented CallState.queued CallState.failed = true
documented CallState.queued CallState.cancelled = true
documented CallState.reserved CallState.initiated = true
documented CallState.reserved CallState.failed = true
documented CallState.reserved CallState.cancelled = true
documented CallState.initiated CallState.ringing = true
documented CallState.initiated CallState.answered = true
documented CallState.initiated CallState.failed = true
documented CallState.initiated CallState.cancelled = true
documented CallState.ringing CallState.answered = true
documented CallState.ringing CallState.failed = true
documented CallState.ringing CallState.cancelled = true
documented CallState.answered CallState.connected = true
documented CallState.answered CallState.abandoned = true
documented CallState.answered CallState.completed = true
documented CallState.answered CallState.failed = true
documented CallState.connected CallState.completed = true
documented CallState.connected CallState.failed = true
documented _ _ = false

-- The edges that the code has and the document has not: COMPLETED and ABANDONED from before an answer,
-- CANCELLED from an answer on, and ABANDONED from a bridged call.
pub data Widened : CallState → CallState → Type 0 where
  queued_completed : Widened CallState.queued CallState.completed
  queued_abandoned : Widened CallState.queued CallState.abandoned
  reserved_completed : Widened CallState.reserved CallState.completed
  reserved_abandoned : Widened CallState.reserved CallState.abandoned
  initiated_completed : Widened CallState.initiated CallState.completed
  initiated_abandoned : Widened CallState.initiated CallState.abandoned
  ringing_completed : Widened CallState.ringing CallState.completed
  ringing_abandoned : Widened CallState.ringing CallState.abandoned
  answered_cancelled : Widened CallState.answered CallState.cancelled
  connected_cancelled : Widened CallState.connected CallState.cancelled
  connected_abandoned : Widened CallState.connected CallState.abandoned

ruleset widenings = (
  Widened.queued_completed, Widened.queued_abandoned, Widened.reserved_completed,
  Widened.reserved_abandoned, Widened.initiated_completed, Widened.initiated_abandoned,
  Widened.ringing_completed, Widened.ringing_abandoned, Widened.answered_cancelled,
  Widened.connected_cancelled, Widened.connected_abandoned,
)

documented_accepted : (s t : CallState) → documented s t ≡ true → can_apply s t ≡ (true, none)
unfolding can_apply
documented_accepted s t h = grind (arith, edges, stages)

Widened-of : (s t : CallState) → can_apply s t ≡ (true, none) → documented s t ≡ false → Widened s t
unfolding can_apply
Widened-of s t h k = grind (arith, widenings)

of-Widened :
    {s t : CallState} → Widened s t → (can_apply s t ≡ (true, none)) × (documented s t ≡ false)
unfolding can_apply
of-Widened Widened.queued_completed = (refl, refl)
of-Widened _ = (refl, refl)

accepted_of :
    (s t : CallState) → (documented s t ≡ true) ⊎ Widened s t → can_apply s t ≡ (true, none)
accepted_of s t (inl h) = documented_accepted s t h
accepted_of s t (inr w) = (of-Widened w).0

documented-or-Widened :
    (s t : CallState) → can_apply s t ≡ (true, none) → (documented s t ≡ true) ⊎ Widened s t
documented-or-Widened s t h = elim (Bool-cases (documented s t)) [
  | inl e ↦ inl e
  | inr e ↦ inr (Widened-of s t h e)
]

-- `can_apply` accepts exactly the edges that the comment in transitions.py describes: the next stage,
-- with RINGING optional, and every end from every stage before. It reports `OUT_OF_ORDER` exactly when
-- the current state is one of the ends or the incoming one is of no higher rank. What it accepts is
-- the table LEGAL_NEXT of ARCHITECTURE.md and the eleven edges of `Widened`, which that table lacks.
pub can_apply_iff :
    (s t : CallState)
    → ((can_apply s t ≡ (true, none)) ↔ Edge s t)
      × ((can_apply s t ≡ (false, some Anomaly.out_of_order)) ↔ (End s ⊎ (rank t ≤ rank s)))
      × ((can_apply s t ≡ (true, none)) ↔ ((documented s t ≡ true) ⊎ Widened s t))
      × (((can_apply s t ≡ (true, none)) × (documented s t ≡ false)) ↔ Widened s t)
can_apply_iff s t = (
  (edge_of_accept s t, accept_of_edge),
  (IsStale-of_refusal s t, refusal_of_stale s t),
  (documented-or-Widened s t, accepted_of s t),
  ((λ h. Widened-of s t h.0 h.1), of-Widened),
)
