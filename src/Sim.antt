-- ===== src/Sim.antt =====
-- src/smartdialer/sim: the simulator that drives the program on a virtual clock.
pub mod Runner
pub mod Wiring
pub mod Injectors
pub mod Report
pub mod World
