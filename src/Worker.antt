-- ===== src/Worker.antt =====
-- src/smartdialer/worker: the loops that apply events, reap leases and pace calls.
pub mod EventApplier
pub mod Reaper
pub mod PacingLoop
pub mod Leader
pub mod Loops
