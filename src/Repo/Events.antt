-- ===== src/Repo/Events.antt =====
-- src/smartdialer/repo/events.py: the ledger of provider events.
pub mod Keeping
use text.Mathlib.Text.{◌==◌ as str_eq}
use smart_dialer.Common.{
  ℕ, ◌+◌, String, Bool, true, false, not, ◌&&◌, Option, none, some, List, [], ◌∷◌, ◌++◌, ltb, ◌==◌,
  coalesce, find, select, update_where, take, order_by,
}
use smart_dialer.Domain.Transitions.{Anomaly}
use smart_dialer.Store.{Event, Db, seconds}

-- UNIQUE (provider, provider_event_id)
abbrev pub same_event : String → String → Event → Bool
same_event provider event_id e = str_eq e.provider provider && str_eq e.provider_event_id event_id

-- INGEST: ON CONFLICT DO NOTHING, then no row is returned.
unfoldable pub ingest : String → String → Option String → String → ℕ → ℕ → Db → Db × Option ℕ
ingest provider event_id call_ref etype ts now db =
    elim (find (same_event provider event_id) db.events) [
      | some _ ↦ (db, none)
      | none ↦ (
        record db {
          events =
              db.events
              ++ record {
                id = db.next_event;
                provider = provider;
                provider_event_id = event_id;
                provider_call_id = call_ref;
                call_id = none;
                event_type = etype;
                provider_ts = ts;
                received_at = now;
                applied = false;
                anomaly = none;
              }
                ∷ [];
          next_event = db.next_event + 1;
        },
        some db.next_event,
      )
    ]

-- FETCH_UNAPPLIED. `locked` says which rows other transactions hold.
unfoldable pub fetch_unapplied : (ℕ → Bool) → ℕ → Db → List Event
fetch_unapplied locked limit db =
    take limit
      (order_by (λ e. e.received_at) (select (λ e. not e.applied && not (locked e.id)) db.events))

abbrev pub has_id : ℕ → Event → Bool
has_id event_id e = e.id == event_id

abbrev pub marked : Bool → Option Anomaly → Option ℕ → Event → Event
marked applied anomaly call_id e = record e {
  applied = applied;
  anomaly = anomaly;
  call_id = coalesce e.call_id call_id;
}

-- MARK
unfoldable pub mark : ℕ → Bool → Option Anomaly → Option ℕ → Db → Db
mark event_id applied anomaly call_id db = record db {
  events = update_where (has_id event_id) (marked applied anomaly call_id) db.events;
}

abbrev is_unknown : Option Anomaly → Bool
is_unknown (some Anomaly.unknown_call) = true
is_unknown _ = false

abbrev pub given_up_at : ℕ → Event → Bool
given_up_at now e = not e.applied && is_unknown e.anomaly && ltb (e.received_at + seconds 60) now

-- GIVE_UP_UNKNOWN
unfoldable pub give_up_unknown : ℕ → Db → Db × List Event
give_up_unknown now db = (
  record db {
    events = update_where (given_up_at now) (λ e. record e { applied = true }) db.events;
  },
  select (given_up_at now) db.events,
)
