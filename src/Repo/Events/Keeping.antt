-- ===== src/Repo/Events/Keeping.antt =====
-- Every statement of src/smartdialer/repo/events.py keeps the tables valid.
use smart_dialer.Common.{ℕ, refl, inl, inr, String, Bool, true, Option, arith, Option-cases, find}
use smart_dialer.Domain.Transitions.{Anomaly}
use smart_dialer.Store.{Db}
use smart_dialer.Store.Keeping.{Keeps, Keeps-refl, update_events, insert_event}
use smart_dialer.Repo.Events.{
  ingest, mark, give_up_unknown, same_event, has_id, marked, given_up_at,
}

pub ingest-Keeps :
    (provider event_id : String) (ref : Option String) (etype : String) (ts now : ℕ) (d : Db)
    → Keeps d (ingest provider event_id ref etype ts now d).0
unfolding ingest
ingest-Keeps provider event_id ref etype ts now d =
    elim (Option-cases (find (same_event provider event_id) d.events)) [
      | inl q ↦ rw (q, ingest) (insert_event _ d refl)
      | inr (e, q) ↦ rw (q, ingest) (Keeps-refl d)
    ]

pub mark-Keeps :
    (event_id : ℕ) (applied : Bool) (anomaly : Option Anomaly) (call_id : Option ℕ) (d : Db)
    → Keeps d (mark event_id applied anomaly call_id d)
unfolding mark
mark-Keeps event_id applied anomaly call_id =
    update_events (has_id event_id) (marked applied anomaly call_id) (λ e. ground arith)

pub give_up_unknown-Keeps : (now : ℕ) (d : Db) → Keeps d (give_up_unknown now d).0
unfolding give_up_unknown
give_up_unknown-Keeps now =
    update_events (given_up_at now) (λ e. record e { applied = true }) (λ e. ground arith)
