-- ===== src/Worker/EventApplier/Keeping.antt =====
-- Applying events (src/smartdialer/worker/event_applier.py) keeps the tables valid, whatever the
-- events are.
use smart_dialer.Common.{
  ℕ, ◌≡◌, refl, inl, inr, Bool, true, false, Option, none, some, List, [], ◌∷◌, arith, Bool-cases,
  Option-cases, if◌then◌else◌,
}
use smart_dialer.Domain.Enums.{AgentState, CallState}
use smart_dialer.Domain.Transitions.{can_apply, agent_on_call_state}
use smart_dialer.Store.{Call, Event, Db, seconds}
use smart_dialer.Store.Keeping.{Keeps, Keeps-refl, Keeps-trans}
use smart_dialer.Repo.Agents.Keeping.{Fits, force_state-Keeps}
use smart_dialer.Repo.Borrowers.Keeping.{on_call_terminal-Keeps}
use smart_dialer.Repo.Calls
use smart_dialer.Repo.Borrowers
use smart_dialer.Repo.Events
use smart_dialer.Repo.Calls.Keeping.{advance-Keeps}
use smart_dialer.Repo.Events.Keeping.{mark-Keeps, give_up_unknown-Keeps}
use smart_dialer.Providers.EventMap.{map_provider_event, to_call_state}
use smart_dialer.Worker.EventApplier.{
  try_bridge, agent_side_effect, apply_side_effects, commit_transition, after_advance,
  apply_to_call, apply_one, apply_each, drain, or_logged, ends_call, truthy, wrap_up_lease,
}

try_bridge-Keeps : (row : Call) (now : ℕ) (d : Db) → Keeps d (try_bridge row now d).0
unfolding try_bridge
try_bridge-Keeps row now d = advance-Keeps row.id _ none none none now d

-- The states that a call's transition puts its agent in have what they need.
Fits-agent_on_call_state :
    (s : CallState) (a : AgentState) (clock_now wrapup_s : ℕ)
    → agent_on_call_state s ≡ some a
    → Fits a (wrap_up_lease a clock_now wrapup_s) none
Fits-agent_on_call_state s a clock_now wrapup_s h = ground arith

agent_side_effect-Keeps :
    (s : CallState) (o : Option AgentState) (agent_id : Option ℕ) (clock_now wrapup_s now : ℕ)
    (d : Db)
    → agent_on_call_state s ≡ o
    → Keeps d (agent_side_effect o agent_id clock_now wrapup_s now d)
unfolding agent_side_effect
agent_side_effect-Keeps s none agent_id clock_now wrapup_s now d h = Keeps-refl d
agent_side_effect-Keeps s (some a) none clock_now wrapup_s now d h = Keeps-refl d
agent_side_effect-Keeps s (some a) (some i) clock_now wrapup_s now d h =
    force_state-Keeps i a none _ none now d (Fits-agent_on_call_state s a clock_now wrapup_s h)

on_end-Keeps :
    (b : Bool) (row : Call) (s : CallState) (now : ℕ) (d : Db)
    → Keeps d (if b then Borrowers.on_call_terminal row.borrower_id s (seconds 60) now d else d)
on_end-Keeps true row s now d = on_call_terminal-Keeps row.borrower_id s (seconds 60) now d
on_end-Keeps false row s now d = Keeps-refl d

apply_side_effects-Keeps :
    (row : Call) (s : CallState) (clock_now wrapup_s now : ℕ) (d : Db)
    → Keeps d (apply_side_effects row s clock_now wrapup_s now d)
unfolding apply_side_effects
apply_side_effects-Keeps row s clock_now wrapup_s now d =
    Keeps-trans d _ _
      (agent_side_effect-Keeps s (agent_on_call_state s) (truthy row.agent_id) clock_now wrapup_s
        now d refl)
      (on_end-Keeps (ends_call s) row s now _)

-- The effects of a transition, and the mark that closes the event.
settle-Keeps :
    (row : Call) (s : CallState) (event_id call_id clock_now wrapup_s now : ℕ) (d : Db)
    → Keeps d (
        Events.mark event_id true none
          (some call_id)
          (apply_side_effects row s clock_now wrapup_s now d))
settle-Keeps row s event_id call_id clock_now wrapup_s now d =
    Keeps-trans d _ _ (apply_side_effects-Keeps row s clock_now wrapup_s now d)
      (mark-Keeps event_id true none (some call_id) _)

commit_transition-Keeps :
    (row : Call) (s : CallState) (event_id call_id clock_now wrapup_s now : ℕ) (d : Db)
    → Keeps d (commit_transition row s event_id call_id clock_now wrapup_s now d)
unfolding commit_transition
commit_transition-Keeps row CallState.answered event_id call_id clock_now wrapup_s now d =
    Keeps-trans d _ _ (try_bridge-Keeps row now d)
      (settle-Keeps row (try_bridge row now d).1 event_id call_id clock_now wrapup_s now _)
commit_transition-Keeps row s event_id call_id clock_now wrapup_s now d =
    settle-Keeps row s event_id call_id clock_now wrapup_s now d

pub after_advance-Keeps :
    (row : Option Call) (call_id : ℕ) (s : CallState) (ev : Event) (clock_now wrapup_s now : ℕ)
    (d : Db)
    → Keeps d (after_advance row call_id s ev clock_now wrapup_s now d)
unfolding after_advance
after_advance-Keeps none call_id s ev clock_now wrapup_s now d =
    mark-Keeps ev.id true _ (some call_id) d
after_advance-Keeps (some row) call_id s ev clock_now wrapup_s now d =
    commit_transition-Keeps row s ev.id call_id clock_now wrapup_s now d

apply_to_call-Keeps :
    (call : Call) (s : CallState) (ev : Event) (clock_now wrapup_s now : ℕ) (d : Db)
    → Keeps d (apply_to_call call s ev clock_now wrapup_s now d)
unfolding apply_to_call
apply_to_call-Keeps call s ev clock_now wrapup_s now d =
    elim (Bool-cases (can_apply call.state s).0) [
      | inl e ↦
          rw (e, apply_to_call)
            (Keeps-trans d _ _ (advance-Keeps call.id s ev.provider_call_id none none now d)
              (after_advance-Keeps _ call.id s ev clock_now wrapup_s now _))
      | inr e ↦ rw (e, apply_to_call) (mark-Keeps ev.id true _ (some call.id) d)
    ]

-- Whatever the event says and whatever its call has become, applying it keeps the tables valid.
pub apply_one-Keeps :
    (ev : Event) (clock_now wrapup_s now : ℕ) (d : Db)
    → Keeps d (or_logged (apply_one ev clock_now wrapup_s now d) d)
unfolding apply_one
apply_one-Keeps ev clock_now wrapup_s now d =
    elim (Option-cases (Calls.get_by_provider_ref ev.provider ev.provider_call_id d)) [
      | inl e ↦ rw (e, apply_one) (mark-Keeps ev.id false _ none d)
      | inr (c, e) ↦ elim (Option-cases (to_call_state (map_provider_event ev.event_type))) [
        | inl q ↦ rw (e, q, apply_one) (Keeps-refl d)
        | inr (s, q) ↦ rw (e, q, apply_one) (apply_to_call-Keeps c s ev clock_now wrapup_s now d)
      ]
    ]

apply_each-Keeps :
    (rows : List Event) (clock_now wrapup_s now : ℕ) (d : Db)
    → Keeps d (apply_each rows clock_now wrapup_s now d)
unfolding apply_each
apply_each-Keeps [] clock_now wrapup_s now d = Keeps-refl d
apply_each-Keeps (ev ∷ rows) clock_now wrapup_s now d =
    Keeps-trans d _ _ (apply_one-Keeps ev clock_now wrapup_s now d)
      (apply_each-Keeps rows clock_now wrapup_s now _)

pub drain-Keeps :
    (locked : ℕ → Bool) (limit clock_now wrapup_s now : ℕ) (d : Db)
    → Keeps d (drain locked limit clock_now wrapup_s now d).0
unfolding drain
drain-Keeps locked limit clock_now wrapup_s now d =
    Keeps-trans d _ _
      (apply_each-Keeps (Events.fetch_unapplied locked limit d) clock_now wrapup_s now d)
      (give_up_unknown-Keeps now _)
