-- ===== src/Worker/EventApplier/Effects.antt =====
-- What applying an event (src/smartdialer/worker/event_applier.py) does to the calls, and what an
-- event that comes too late does not do.
use smart_dialer.Common.{
  ℕ, ◌≤◌, ◌<◌, ◌≡◌, refl, ◌∙◌, String, true, false, Option, none, some, arith, find-update_where,
  find-All,
}
use smart_dialer.Domain.Enums.{CallState}
use smart_dialer.Domain.Transitions.{rank, can_apply}
use smart_dialer.Store.{Call, Event, Db}
use smart_dialer.Store.Keeping.{Keeps}
use smart_dialer.Domain.Transitions.Order.{Edge, can_apply_iff}
use smart_dialer.Store.Validity.{IsValid, CallIsValid, find-key}
use smart_dialer.Repo.Calls
use smart_dialer.Repo.Events
use smart_dialer.Providers.EventMap.{map_provider_event, to_call_state}
use smart_dialer.Worker.EventApplier.{apply_to_call, apply_one, or_logged}
use smart_dialer.Worker.EventApplier.Keeping.{after_advance-Keeps}

-- Nothing but the ledger of events differs.
pub record Undisturbed (d e : Db) : Type 0 where
  pub same_agents : e.agents ≡ d.agents
  pub same_borrowers : e.borrowers ≡ d.borrowers
  pub same_calls : e.calls ≡ d.calls

pub found_by_ref :
    (ev : Event) (d : Db) (c : Call)
    → IsValid d
    → Calls.get_by_provider_ref ev.provider ev.provider_call_id d ≡ some c
    → Calls.get c.id d ≡ some c
unfolding Calls.get_by_provider_ref Calls.get
found_by_ref ev d c v h =
    find-key (λ c. c.id) (Calls.has_ref ev.provider ev.provider_call_id) 1 d.next_call d.calls c
      v.call_ids h

pub Edge-rank : {s t : CallState} → Edge s t → rank s < rank t
unfolding can_apply
Edge-rank {s} {t} e = let q = (can_apply_iff s t).0.1 e in ground arith

pub valid_at : (i : ℕ) (d : Db) (c : Call) → IsValid d → Calls.get i d ≡ some c → CallIsValid c
unfolding Calls.get
valid_at i d c v h = (find-All CallIsValid (Calls.has_id i) d.calls c v.calls h).0

refused_of_rank : (s t : CallState) → rank t ≤ rank s → (can_apply s t).0 ≡ false
unfolding can_apply
refused_of_rank s t h = ground arith

-- An event whose state does not rank above its call's, be it late, doubled or for a call that has
-- ended, leaves agents, borrowers and calls as they are.
pub late_event :
    (ev : Event) (clock_now wrapup_s now : ℕ) (d : Db) (c : Call) (s : CallState)
    → Calls.get_by_provider_ref ev.provider ev.provider_call_id d ≡ some c
    → to_call_state (map_provider_event ev.event_type) ≡ some s
    → rank s ≤ rank c.state
    → Undisturbed d (or_logged (apply_one ev clock_now wrapup_s now d) d)
unfolding apply_one apply_to_call Events.mark
late_event ev clock_now wrapup_s now d c s e q h =
    rw (e, q, apply_one)
      (rw (refused_of_rank c.state s h, apply_to_call)
        (record { same_agents = refl; same_borrowers = refl; same_calls = refl }))

pub advanced_call :
    (i : ℕ) (s : CallState) (ref : Option String) (now : ℕ) (d : Db) (c : Call)
    → Calls.get i d ≡ some c
    → i ≡ c.id
    → c.state_rank < rank s
    → Calls.get i (Calls.advance i s ref none none now d).0
      ≡ some (Calls.advanced s ref none none now c)
unfolding Calls.get Calls.advance
advanced_call i s ref now d c e q h =
    let t : Calls.below i (rank s) c ≡ true = ground arith in
    find-update_where (Calls.below i (rank s)) (Calls.has_id i) (Calls.advanced s ref none none now)
      (λ x. refl) d.calls
    ∙ rw e (rw t refl)

-- An accepted event advances its call, and what follows in the transaction keeps it advanced.
pub accepted_event :
    (ev : Event) (clock_now wrapup_s now : ℕ) (d : Db) (c : Call) (s : CallState)
    → Calls.get_by_provider_ref ev.provider ev.provider_call_id d ≡ some c
    → to_call_state (map_provider_event ev.event_type) ≡ some s
    → (can_apply c.state s).0 ≡ true
    → Keeps
        (Calls.advance c.id s ev.provider_call_id none none now d).0
        (or_logged (apply_one ev clock_now wrapup_s now d) d)
unfolding apply_one apply_to_call
accepted_event ev clock_now wrapup_s now d c s e q h =
    rw (e, q, apply_one)
      (rw (h, apply_to_call) (after_advance-Keeps _ c.id s ev clock_now wrapup_s now _))
