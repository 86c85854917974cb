-- ===== src/Providers/Sink.antt =====
-- WebhookSink of src/smartdialer/providers/base.py: the ledger as the simulated providers reach it.
use smart_dialer.Common.{ℕ, String, some}
use smart_dialer.Store.{Db}
use smart_dialer.Repo.Events

unfoldable pub deliver : String → String → String → String → ℕ → ℕ → Db → Db
deliver provider provider_event_id provider_call_id event_type ts now db =
    (Events.ingest provider provider_event_id (some provider_call_id) event_type ts now db).0
