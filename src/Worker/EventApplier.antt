-- ===== src/Worker/EventApplier.antt =====
-- src/smartdialer/worker/event_applier.py: applying a provider's event to its call, in the
-- transaction that fetched it. `now` is the database's time, `clock_now` the worker's clock.
pub mod Keeping
pub mod Effects
pub mod Bridge
use smart_dialer.Common.{
  ℕ, ◌+◌, Bool, true, false, ◌&&◌, Option, none, some, List, [], ◌∷◌, if◌then◌else◌, ◌==◌, length,
}
use smart_dialer.Domain.Enums.{AgentState, CallState, is_dialing, is_wrap_up}
use smart_dialer.Domain.Transitions.{Anomaly, can_apply, agent_on_call_state, contains_state}
use smart_dialer.Store.{Agent, Call, Event, Db, seconds}
use smart_dialer.Repo.Agents
use smart_dialer.Repo.Borrowers
use smart_dialer.Repo.Calls
use smart_dialer.Repo.Events
use smart_dialer.Providers.EventMap.{map_provider_event, to_call_state}

-- The truth value of a nullable number in Python: neither None nor 0.
abbrev pub truthy : Option ℕ → Option ℕ
truthy none = none
truthy (some n) = if n == 0 then none else some n

abbrev pub equals : Option ℕ → ℕ → Bool
equals none n = false
equals (some m) n = m == n

abbrev pub holds_call : ℕ → Option Agent → Bool
holds_call call_id none = false
holds_call call_id (some a) = equals a.current_call_id call_id && is_dialing a.state

-- `repos.agents.get(con, row["agent_id"]) if row["agent_id"] else None`
unfoldable pub agent_of : Call → Db → Option Agent
unfolding Agents.get
agent_of row db = elim (truthy row.agent_id) [ none ↦ none | some i ↦ Agents.get i db ]

-- _try_bridge
unfoldable pub try_bridge : Call → ℕ → Db → Db × CallState
unfolding agent_of
try_bridge row now db =
    let bridged = holds_call row.id (agent_of row db) in
    let next_state = if bridged then CallState.connected else CallState.abandoned in
    let (db', row2) = Calls.advance row.id next_state none none none now db in
    (db', elim row2 [ none ↦ CallState.answered | some _ ↦ next_state ])

abbrev wrap_up_lease : AgentState → ℕ → ℕ → Option ℕ
wrap_up_lease s clock_now wrapup_s =
    if is_wrap_up s then some (clock_now + seconds wrapup_s) else none

-- The first half of _apply_side_effects: `if agent_state and row["agent_id"]`.
unfoldable pub agent_side_effect : Option AgentState → Option ℕ → ℕ → ℕ → ℕ → Db → Db
agent_side_effect none agent_id clock_now wrapup_s now db = db
agent_side_effect (some s) none clock_now wrapup_s now db = db
agent_side_effect (some s) (some i) clock_now wrapup_s now db =
    (Agents.force_state i s none (wrap_up_lease s clock_now wrapup_s) none now db).0

abbrev pub ends_call : CallState → Bool
ends_call s =
    contains_state s
      (CallState.completed ∷ CallState.failed ∷ CallState.cancelled ∷ CallState.abandoned ∷ [])

-- _apply_side_effects
unfoldable pub apply_side_effects : Call → CallState → ℕ → ℕ → ℕ → Db → Db
unfolding agent_side_effect
apply_side_effects row final_state clock_now wrapup_s now db =
    let db' =
      agent_side_effect (agent_on_call_state final_state) (truthy row.agent_id) clock_now wrapup_s
        now db in
    if ends_call final_state
    then Borrowers.on_call_terminal row.borrower_id final_state (seconds 60) now db'
    else db'

-- The part of apply_one after the guarded update returned its row.
unfoldable pub commit_transition : Call → CallState → ℕ → ℕ → ℕ → ℕ → ℕ → Db → Db
unfolding try_bridge apply_side_effects
commit_transition row CallState.answered event_id call_id clock_now wrapup_s now db =
    let (db', final_state) = try_bridge row now db in
    Events.mark event_id true none (some call_id)
      (apply_side_effects row final_state clock_now wrapup_s now db')
commit_transition row incoming event_id call_id clock_now wrapup_s now db =
    Events.mark event_id true none (some call_id)
      (apply_side_effects row incoming clock_now wrapup_s now db)

-- What apply_one does with the result of the guarded update.
unfoldable pub after_advance : Option Call → ℕ → CallState → Event → ℕ → ℕ → ℕ → Db → Db
unfolding commit_transition
after_advance none call_id incoming ev clock_now wrapup_s now db =
    Events.mark ev.id true (some Anomaly.out_of_order) (some call_id) db
after_advance (some row) call_id incoming ev clock_now wrapup_s now db =
    commit_transition row incoming ev.id call_id clock_now wrapup_s now db

-- The part of apply_one after the incoming state was read, for the call that the event names.
unfoldable pub apply_to_call : Call → CallState → Event → ℕ → ℕ → ℕ → Db → Db
unfolding after_advance can_apply
apply_to_call call incoming ev clock_now wrapup_s now db =
    let (accepted, anomaly) = can_apply call.state incoming in
    let (db', row) = Calls.advance call.id incoming ev.provider_call_id none none now db in
    if accepted
    then after_advance row call.id incoming ev clock_now wrapup_s now db'
    else Events.mark ev.id true anomaly (some call.id) db

-- apply_one; `none` is the ValueError of an event type that names no call state.
unfoldable pub apply_one : Event → ℕ → ℕ → ℕ → Db → Option Db
unfolding apply_to_call
apply_one ev clock_now wrapup_s now db =
    elim (Calls.get_by_provider_ref ev.provider ev.provider_call_id db) [
      | none ↦ some (Events.mark ev.id false (some Anomaly.unknown_call) none db)
      | some call ↦ elim (to_call_state (map_provider_event ev.event_type)) [
        | none ↦ none
        | some incoming ↦ some (apply_to_call call incoming ev clock_now wrapup_s now db)
      ]
    ]

-- `try: await apply_one(…) except Exception: log`. The exception is raised before any write.
abbrev pub or_logged : Option Db → Db → Db
or_logged none db = db
or_logged (some db') db = db'

unfoldable pub apply_each : List Event → ℕ → ℕ → ℕ → Db → Db
apply_each [] clock_now wrapup_s now db = db
apply_each (ev ∷ rows) clock_now wrapup_s now db =
    apply_each rows clock_now wrapup_s now (or_logged (apply_one ev clock_now wrapup_s now db) db)

-- drain: one transaction. `locked` says which events another applier's transaction holds.
unfoldable pub drain : (ℕ → Bool) → ℕ → ℕ → ℕ → ℕ → Db → Db × ℕ
unfolding apply_each
drain locked limit clock_now wrapup_s now db =
    let rows = Events.fetch_unapplied locked limit db in
    ((Events.give_up_unknown now (apply_each rows clock_now wrapup_s now db)).0, length rows)
