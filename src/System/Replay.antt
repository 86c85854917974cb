-- ===== src/System/Replay.antt =====
-- Providers deliver events again, late and out of order: what a history makes of them.
use smart_dialer.Common.{ℕ, ◌≤◌, ◌≡◌, refl, sym, ◌∙◌, ap, subst, none, some, some_inj, arith}
use smart_dialer.Domain.Enums.{CallState}
use smart_dialer.Domain.Transitions.{rank}
use smart_dialer.Domain.Transitions.Order.{Edge, can_apply_iff}
use smart_dialer.Store.{Call, Event, Db}
use smart_dialer.Store.Evolution.{Evolves}
use smart_dialer.Store.Validity.{IsValid}
use smart_dialer.Repo.Calls
use smart_dialer.Repo.Calls.Keeping.{advance-Keeps}
use smart_dialer.Providers.EventMap.{map_provider_event, to_call_state}
use smart_dialer.Worker.EventApplier.{apply_one, or_logged}
use smart_dialer.Worker.EventApplier.Effects.{
  Undisturbed, late_event, advanced_call, accepted_event, found_by_ref, Edge-rank, valid_at,
}
use smart_dialer.System.{Reach}
use smart_dialer.System.Histories.{Reach-Keeps, call_stays}

-- The transaction that applies an accepted event, from the advance of its call on.
applied :
    (ev : Event) (clock_now wrapup_s now : ℕ) (d : Db) (c : Call) (s : CallState)
    → IsValid d
    → Calls.get_by_provider_ref ev.provider ev.provider_call_id d ≡ some c
    → to_call_state (map_provider_event ev.event_type) ≡ some s
    → Edge c.state s
    → let e = or_logged (apply_one ev clock_now wrapup_s now d) d in
      IsValid e × Evolves (Calls.advance c.id s ev.provider_call_id none none now d).0 e
applied ev clock_now wrapup_s now d c s v h q g =
    accepted_event ev clock_now wrapup_s now d c s h q
      (ap (λ x. x.0) ((can_apply_iff c.state s).0.1 g))
      (advance-Keeps c.id s ev.provider_call_id none none now d v).0

-- Once an accepted event is applied, its call ranks at least as high ever after.
rank_ever_after :
    {d e : Db} (ev : Event) (clock_now wrapup_s now : ℕ) (c c' : Call) (s : CallState)
    → IsValid d
    → Calls.get_by_provider_ref ev.provider ev.provider_call_id d ≡ some c
    → to_call_state (map_provider_event ev.event_type) ≡ some s
    → Edge c.state s
    → Reach (or_logged (apply_one ev clock_now wrapup_s now d) d) e
    → Calls.get c.id e ≡ some c'
    → IsValid e × (rank s ≤ rank c'.state)
rank_ever_after {d} {e} ev clock_now wrapup_s now c c' s v h q g r found =
    let old = valid_at c.id d c v (found_by_ref ev d c v h) in
    let moved =
      advanced_call c.id s ev.provider_call_id now d c (found_by_ref ev d c v h) refl
        (omega (arith, Edge-rank g)) in
    let (w, f) = applied ev clock_now wrapup_s now d c s v h q g in
    let (w', f') = Reach-Keeps r w in
    let (c1, found1, step1) = call_stays c.id _ _ _ f moved in
    let (c2, found2, step2) = call_stays c.id _ e c1 f' found1 in
    let same : c2 ≡ c' = some_inj (sym found2 ∙ found) in
    let last = valid_at c.id e c' w' found in
    let grown = subst (λ x. c1.state_rank ≤ x.state_rank) same step2.rank_grows in
    (w', omega (arith, step1.rank_grows))

-- From valid tables, once an event that its call accepts was applied, any event for that call whose
-- state ranks no higher, the same one delivered again included, changes no agent, no borrower and
-- no call, whenever it is applied later and whatever happened in between.
pub events_once :
    {d e : Db} (ev later : Event) (clock_now wrapup_s now clock_later wrapup_later now_later : ℕ)
    (c c' : Call) (s t : CallState)
    → IsValid d
    → Calls.get_by_provider_ref ev.provider ev.provider_call_id d ≡ some c
    → to_call_state (map_provider_event ev.event_type) ≡ some s
    → Edge c.state s
    → Reach (or_logged (apply_one ev clock_now wrapup_s now d) d) e
    → Calls.get_by_provider_ref later.provider later.provider_call_id e ≡ some c'
    → c'.id ≡ c.id
    → to_call_state (map_provider_event later.event_type) ≡ some t
    → rank t ≤ rank s
    → Undisturbed e (or_logged (apply_one later clock_later wrapup_later now_later e) e)
events_once {d} {e} ev later clock_now wrapup_s now clock_later wrapup_later now_later c c' s t v h
      q g r h' same q' l =
    let (w, f) = Reach-Keeps r (applied ev clock_now wrapup_s now d c s v h q g).0 in
    let found = subst (λ i. Calls.get i e ≡ some c') same (found_by_ref later e c' w h') in
    let (w', k) = rank_ever_after ev clock_now wrapup_s now c c' s v h q g r found in
    late_event later clock_later wrapup_later now_later e c' t h' q' (omega arith)
