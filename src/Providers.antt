-- ===== src/Providers.antt =====
-- src/smartdialer/providers.
pub mod EventMap
pub mod Breaker
pub mod Registry
pub mod Mock
pub mod Sink
pub mod Plivo
