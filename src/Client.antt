-- ===== src/Client.antt =====
-- The client, chronos.go, and the builders of chains and groups, chain.go and group.go.
pub mod Options
pub mod Dispatch
pub mod Stages
pub mod Chain
pub mod Group
pub mod Refused
pub mod Within
pub mod Sound
pub mod Delay
pub mod Locked
pub mod Tail
