-- ===== src/Providers/EventMap.antt =====
-- The names of events: EVENT_MAP and `map_provider_event` of src/smartdialer/providers/base.py, and
-- the values of `CallState` in src/smartdialer/domain/enums.py, by which `CallState(text)` reads one.
use smart_dialer.Common.{
  ℕ, ◌≡◌, refl, String, Option, none, some, List, [], ◌∷◌, if◌then◌else◌, codes, same_text, upper,
}
use smart_dialer.Domain.Enums.{CallState}
use smart_dialer.Domain.Transitions.{call_states}

-- EVENT_MAP
abbrev pub event_map : List (List ℕ × List ℕ)
event_map =
    (codes "ringing", codes "RINGING")
    ∷ (codes "answered", codes "ANSWERED")
    ∷ (codes "completed", codes "COMPLETED")
    ∷ (codes "failed", codes "FAILED")
    ∷ (codes "busy", codes "FAILED")
    ∷ (codes "no-answer", codes "FAILED")
    ∷ []

abbrev pub get : List ℕ → List (List ℕ × List ℕ) → List ℕ → List ℕ
get key [] default = default
get key ((k, v) ∷ m) default = if same_text k key then v else get key m default

unfoldable pub map_provider_event : String → List ℕ
map_provider_event raw = get (codes raw) event_map (upper (codes raw))

abbrev pub value : CallState → List ℕ
value CallState.queued = codes "QUEUED"
value CallState.reserved = codes "RESERVED"
value CallState.initiated = codes "INITIATED"
value CallState.ringing = codes "RINGING"
value CallState.answered = codes "ANSWERED"
value CallState.connected = codes "CONNECTED"
value CallState.completed = codes "COMPLETED"
value CallState.failed = codes "FAILED"
value CallState.cancelled = codes "CANCELLED"
value CallState.abandoned = codes "ABANDONED"

abbrev with_value : List ℕ → List CallState → Option CallState
with_value text [] = none
with_value text (s ∷ states) = if same_text (value s) text then some s else with_value text states

-- `CallState(text)`; `none` is its ValueError.
unfoldable pub to_call_state : List ℕ → Option CallState
to_call_state text = with_value text call_states

-- A state's own name, as the in-process providers send it, is read back as that state.
pub to_call_state-value : (s : CallState) → to_call_state (value s) ≡ some s
unfolding to_call_state
to_call_state-value CallState.queued = refl
to_call_state-value _ = refl

busy_fails : to_call_state (map_provider_event "busy") ≡ some CallState.failed
unfolding to_call_state map_provider_event
busy_fails = refl

in_progress_raises : to_call_state (map_provider_event "in-progress") ≡ none
unfolding to_call_state map_provider_event
in_progress_raises = refl
