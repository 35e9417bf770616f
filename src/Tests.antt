-- ===== src/Tests.antt =====
-- Concrete inputs, and each property at one of them.
mod Samples
mod Tasks
mod Queues
mod Scheduling
mod Stores
mod Dags
mod Priority
mod Replication
mod Runtime
mod Learning
