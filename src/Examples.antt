-- ===== src/Examples.antt =====
-- Examples: an instance of what the code relies on of Redis, and runs at concrete inputs.
pub mod Store
pub mod Data
mod Queues
mod Names
mod Triggers
mod Tasks
mod Groups
mod Locks
mod Runs
mod Builders
mod Rounds
mod Registry
mod Views
