-- ===== src/Rdb.antt =====
-- internal/rdb: the operations on Redis. `Scripts` holds the Lua scripts and transactions, the other
-- modules the methods of RDB that call them, and what is proved of these.
pub mod Score
pub mod Rounded
pub mod Scripts
pub mod Enqueue
pub mod Finish
pub mod Consume
pub mod Sweep
pub mod Group
pub mod Operator
pub mod Registry
pub mod Pruned
pub mod Touched
pub mod Heartbeat
pub mod LastFired
pub mod Calls
pub mod Slots
pub mod Released
pub mod Calm
pub mod Placed
pub mod Once
pub mod Lease
pub mod Live
pub mod Callback
pub mod Reports
pub mod Due
pub mod Forwarded
pub mod Locks
pub mod Moved
pub mod Promoted
