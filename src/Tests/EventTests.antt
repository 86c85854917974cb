-- ===== src/Tests/EventTests.antt =====
-- The theorems about provider events, at the samples.
use smart_dialer.Common.{◌≡◌, refl, some, arith}
use smart_dialer.Domain.Enums.{CallState}
use smart_dialer.Domain.Transitions.Order.{Edge}
use smart_dialer.Store.{Call}
use smart_dialer.Repo.Agents
use smart_dialer.Repo.Events
use smart_dialer.Providers.EventMap.{to_call_state, map_provider_event}
use smart_dialer.Repo.Calls
use smart_dialer.Worker.EventApplier.{
  apply_one, or_logged, apply_to_call, after_advance, commit_transition, try_bridge, agent_of,
  apply_side_effects, agent_side_effect,
}
use smart_dialer.Worker.EventApplier.Effects.{Undisturbed, late_event}
use smart_dialer.Worker.EventApplier.Bridge.{accepted_outcome}
use smart_dialer.System.{Reach}
use smart_dialer.System.Replay.{events_once}
use smart_dialer.Tests.Samples.{
  sample, sample-IsValid, ringing_call, answered_event, ringing_event, ended, ended_call,
}

late_event_example :
    Undisturbed ended (or_logged (apply_one answered_event 9_500 8 9_500 ended) ended)
unfolding Calls.get_by_provider_ref to_call_state map_provider_event
late_event_example =
    late_event answered_event 9_500 8 9_500 ended ended_call CallState.answered refl refl
      (omega arith)

accepted_outcome_example :
    (c : Call) × (Calls.get 1 (or_logged (apply_one answered_event 1_600 8 1_600 sample) sample)
      ≡ some c)
    × (c.state ≡ CallState.connected)
unfolding Calls.get_by_provider_ref Agents.get agent_of to_call_state map_provider_event
accepted_outcome_example =
    accepted_outcome answered_event 1_600 8 1_600 sample ringing_call CallState.answered
      sample-IsValid refl refl Edge.pick_up

events_once_example :
    let e = or_logged (apply_one answered_event 1_600 8 1_600 sample) sample in
    Undisturbed e (or_logged (apply_one ringing_event 1_700 8 1_700 e) e)
unfolding Calls.get_by_provider_ref apply_one apply_to_call after_advance commit_transition
    try_bridge Calls.advance agent_of Agents.get apply_side_effects agent_side_effect to_call_state
    map_provider_event Events.mark Agents.force_state
events_once_example =
    events_once answered_event ringing_event 1_600 8 1_600 1_700 8 1_700 ringing_call _
      CallState.answered CallState.ringing sample-IsValid refl refl Edge.pick_up Reach.here refl
      refl refl (omega arith)
