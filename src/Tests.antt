-- ===== src/Tests.antt =====
-- Runs on a small database, and the theorems at concrete inputs.
pub mod Samples
pub mod Fixed
mod ClaimTests
mod ApiTests
mod CountTests
mod LeaderTests
mod CallTests
mod SafetyTests
mod EventTests
mod ProviderTests
mod WorkerTests
mod SimTests
mod StatusTests
mod LoopTests
mod ReportTests
mod SeedTests
mod LoadTests
mod RaceTests
mod OnceTests
mod RefusalTests
