-- ===== src/Worker/EventApplier/Bridge.antt =====
-- The state that an accepted event leaves its call and its agent in
-- (src/smartdialer/worker/event_applier.py, _try_bridge and _apply_side_effects).
use smart_dialer.Common.{
  ℕ, ◌<◌, ◌≡◌, refl, ◌∙◌, ap, inl, inr, String, Bool, true, false, Option, none, some, List, [],
  ◌∷◌, arith, Bool-cases, returning-find, find,
}
use smart_dialer.Domain.Enums.{AgentState, CallState}
use smart_dialer.Domain.Transitions.{rank, agent_on_call_state}
use smart_dialer.Store.{Call, Event, Db, seconds}
use smart_dialer.Store.Validity.{IsValid}
use smart_dialer.Repo.Agents
use smart_dialer.Repo.Borrowers
use smart_dialer.Repo.Calls
use smart_dialer.Repo.Events
use smart_dialer.Providers.EventMap.{map_provider_event, to_call_state}
use smart_dialer.Worker.EventApplier.{
  truthy, agent_of, holds_call, try_bridge, agent_side_effect, apply_side_effects,
  commit_transition, after_advance, apply_to_call, apply_one, ends_call, or_logged,
}
use smart_dialer.Worker.EventApplier.Effects.{advanced_call, found_by_ref, Edge-rank, valid_at}
use smart_dialer.Domain.Transitions.Order.{Edge, can_apply_iff}

find-narrow :
    {A : Type 0} (p q : A → Bool) (xs : List A) (x : A)
    → ((y : A) → q y ≡ true → p y ≡ true)
    → find p xs ≡ some x
    → q x ≡ true
    → find q xs ≡ some x
find-narrow p q [] x n e h = e
find-narrow p q (y ∷ ys) x n e h = elim (Bool-cases (q y)) [
  | inl t ↦ let k = n y t in ground arith
  | inr t ↦ ground (arith, find-narrow p q ys x n)
]

-- What the guarded update returns.
advanced_row :
    (i : ℕ) (s : CallState) (ref : Option String) (now : ℕ) (d : Db) (c : Call)
    → Calls.get i d ≡ some c
    → i ≡ c.id
    → c.state_rank < rank s
    → (Calls.advance i s ref none none now d).1 ≡ some (Calls.advanced s ref none none now c)
unfolding Calls.get Calls.advance
advanced_row i s ref now d c e q h =
    returning-find (Calls.below i (rank s)) (Calls.advanced s ref none none now) d.calls
    ∙ rw
        (find-narrow (Calls.has_id i) (Calls.below i (rank s)) d.calls c (λ y t. ground arith) e
          (ground arith))
        refl

calls-agent_side_effect :
    (o : Option AgentState) (agent_id : Option ℕ) (clock_now wrapup_s now : ℕ) (d : Db)
    → (agent_side_effect o agent_id clock_now wrapup_s now d).calls ≡ d.calls
unfolding agent_side_effect Agents.force_state
calls-agent_side_effect none agent_id clock_now wrapup_s now d = refl
calls-agent_side_effect (some s) none clock_now wrapup_s now d = refl
calls-agent_side_effect (some s) (some i) clock_now wrapup_s now d = refl

calls-on_call_terminal :
    (b : ℕ) (s : CallState) (backoff now : ℕ) (d : Db)
    → (Borrowers.on_call_terminal b s backoff now d).calls ≡ d.calls
unfolding Borrowers.on_call_terminal Borrowers.mark_done Borrowers.reschedule
calls-on_call_terminal b s backoff now d = ground arith

calls-apply_side_effects :
    (row : Call) (s : CallState) (clock_now wrapup_s now : ℕ) (d : Db)
    → (apply_side_effects row s clock_now wrapup_s now d).calls ≡ d.calls
unfolding apply_side_effects
calls-apply_side_effects row s clock_now wrapup_s now d = elim (Bool-cases (ends_call s)) [
  | inl e ↦ rw e (
      calls-on_call_terminal row.borrower_id s (seconds 60) now _
      ∙ calls-agent_side_effect (agent_on_call_state s) (truthy row.agent_id) clock_now wrapup_s now
          d)
  | inr e ↦ rw e (
      calls-agent_side_effect (agent_on_call_state s) (truthy row.agent_id) clock_now wrapup_s now
        d)
]

-- The state that an accepted event leads to: an answer goes through to the agent that holds the
-- call, and is an abandoned call without one.
abbrev pub outcome : CallState → Bool → CallState
outcome CallState.answered true = CallState.connected
outcome CallState.answered false = CallState.abandoned
outcome s held = s

get-settled :
    (i : ℕ) (row : Call) (s : CallState) (event_id call_id clock_now wrapup_s now : ℕ) (d : Db)
    → Calls.get i (
        Events.mark event_id true none
          (some call_id)
          (apply_side_effects row s clock_now wrapup_s now d))
      ≡ Calls.get i d
unfolding Calls.get Events.mark
get-settled i row s event_id call_id clock_now wrapup_s now d =
    ap (find (Calls.has_id i)) (calls-apply_side_effects row s clock_now wrapup_s now d)

get-try_bridge :
    (row : Call) (now : ℕ) (d : Db)
    → Calls.get row.id d ≡ some row
    → row.state_rank ≡ rank CallState.answered
    → (c' : Call) × (Calls.get row.id (try_bridge row now d).0 ≡ some c')
      × (c'.state ≡ outcome CallState.answered (holds_call row.id (agent_of row d)))
unfolding try_bridge
get-try_bridge row now d e h = elim (Bool-cases (holds_call row.id (agent_of row d))) [
  | inl t ↦
      rw (t, try_bridge)
        (_, advanced_call row.id CallState.connected none now d row e refl (omega arith), refl)
  | inr t ↦
      rw (t, try_bridge)
        (_, advanced_call row.id CallState.abandoned none now d row e refl (omega arith), refl)
]

get-commit_transition :
    (row : Call) (s : CallState) (event_id call_id clock_now wrapup_s now : ℕ) (d : Db)
    → Calls.get row.id d ≡ some row
    → row.state ≡ s
    → row.state_rank ≡ rank s
    → (c' : Call) × (Calls.get row.id
          (commit_transition row s event_id call_id clock_now wrapup_s now d)
        ≡ some c')
      × (c'.state ≡ outcome s (holds_call row.id (agent_of row d)))
unfolding commit_transition
get-commit_transition row CallState.answered event_id call_id clock_now wrapup_s now d e q h =
    let (c', found, k) = get-try_bridge row now d e h in
    (
      c',
      get-settled row.id row (try_bridge row now d).1 event_id call_id clock_now wrapup_s now _
          ∙ found,
      k,
    )
get-commit_transition row s event_id call_id clock_now wrapup_s now d e q h =
    (row, get-settled row.id row s event_id call_id clock_now wrapup_s now d ∙ e, q)

-- In valid tables, an event that its call accepts leaves the call in the event's own state, unless
-- that is ANSWERED: then the call is CONNECTED if its agent is dialling it, and ABANDONED if not. It
-- is never left as ANSWERED.
pub accepted_outcome :
    (ev : Event) (clock_now wrapup_s now : ℕ) (d : Db) (c : Call) (s : CallState)
    → IsValid d
    → Calls.get_by_provider_ref ev.provider ev.provider_call_id d ≡ some c
    → to_call_state (map_provider_event ev.event_type) ≡ some s
    → Edge c.state s
    → (c' : Call) × (Calls.get c.id (or_logged (apply_one ev clock_now wrapup_s now d) d) ≡ some c')
      × (c'.state ≡ outcome s (holds_call c.id (agent_of c d)))
unfolding apply_one apply_to_call after_advance Calls.advance agent_of Agents.get
accepted_outcome ev clock_now wrapup_s now d c s v h q g =
    let found = found_by_ref ev d c v h in
    let valid = valid_at c.id d c v found in
    let r : c.state_rank < rank s = omega (arith, Edge-rank g) in
    let row = Calls.advanced s ev.provider_call_id none none now c in
    rw (h, q, apply_one)
      (rw (ap (λ x. x.0) ((can_apply_iff c.state s).0.1 g), apply_to_call)
        (rw (advanced_row c.id s ev.provider_call_id now d c found refl r) (
          get-commit_transition row s ev.id c.id clock_now wrapup_s now _
            (advanced_call c.id s ev.provider_call_id now d c found refl r) refl refl)))
