-- ===== src/Domain.antt =====
-- src/smartdialer/domain: the enumerations and the call state machine.
pub mod Enums
pub mod Transitions
pub mod Names
pub mod Models
