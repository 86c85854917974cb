-- ===== src/Api.antt =====
-- src/smartdialer/api: the webhook route.
pub mod Webhooks
