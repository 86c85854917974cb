-- ===== src/Repo.antt =====
-- src/smartdialer/repo: the statements that the program sends to the database. Every function
-- takes the database's `now()` where its statement reads it, and returns the new database beside
-- what the statement returns.
pub mod Agents
pub mod Borrowers
pub mod Calls
pub mod Events
pub mod Counters
pub mod Metrics
pub mod Triggers
pub mod Decisions
