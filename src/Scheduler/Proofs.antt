-- ===== src/Scheduler/Proofs.antt =====
-- What the scheduler guarantees (pkg/reef/server/scheduler.go), one module for each theme.
pub mod Alone
pub mod Races
pub mod Matches
pub mod Capacity
pub mod Rounds
pub mod Conservation
pub mod Completion
pub mod Failure
pub mod Escalation
pub mod Defects
pub mod Releases
pub mod Lost
