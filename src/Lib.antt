-- ===== src/Lib.antt =====
-- Verification of chronos-go, a task queue on Redis in Go.
--
-- A client enqueues a task into a queue: its message goes into a hash, and its id into the queue's
-- stream, or into the sorted set of scheduled tasks. A server's fetch loop picks a queue by weighted
-- round robin, reads entries of its stream, runs their handlers, and acknowledges, retries or archives
-- each task. A forwarder moves what is due back into the stream, a recoverer takes over what a crashed
-- worker left, a janitor trims what is over. A scheduler that holds the leader's lease enqueues the
-- triggers of periodic schedules. Chains enqueue a successor when a task succeeds, and groups enqueue
-- a callback when their last member does.
--
-- The files, and what they model:
--   Common    shared names, Boolean tests, lists and signed integers over the native numbers, texts;
--             Int64 is Go's time.Duration on 64 bits
--   Wrr       wrr.go: wrrPicker as a record, newWRRPicker, pick
--   Retry     retry.go: SkipRetry's error chain, DefaultRetryDelay
--   Schedule  schedule.go: computeFires; CatchUp holds what is proved of ticks in a row
--   ScheduleMeta  the entries of the registry of schedules
--   Keys      internal/base/keys.go, prefix.go: the key builders, NormalizePrefix
--   Task      internal/base/task.go: TaskState, TaskMessage, ChainLink, GroupMemberLink
--   Redis     what the code relies on of Redis and of encoding/json, as an interface with laws
--   World     the state that the Go code runs on, and calls that may fail
--   Rdb       internal/rdb: Scripts holds the Lua scripts, Score the scores of times; Enqueue (Enqueue, Schedule, their unique
--             and periodic forms, EnqueueChainLink), Consume (DequeueBatch, Recover), Finish (Done,
--             Retry, Archive, Requeue, RunTask, DeleteTask), Sweep (the forwarder's, the janitor's and
--             the leader's calls), Group, LastFired (SetLastFired, GetLastFired), Heartbeat,
--             Operator (pause.go, the reads of inspect.go) and Registry (registry.go) hold the methods;
--             Calls, Slots, Released, Calm, Placed, Once, Locks, Lease, Moved, Promoted, Pruned, Touched,
--             Due, Forwarded, Rounded, Live, Callback and Reports hold what is proved of them
--   Server    server.go: Config (newServer), Process (process, enqueueNext, enqueueNextGroup,
--             deadLetter), Fetch (queuesByWeight and the rounds of fetchLoop), Loops (beat and the ticks
--             of the other loops), Handlers (handler.go: the Mux and what becomes of a result); Parked,
--             Kept, Attempts, Chained, Acked, Handover and Order hold what is proved of them
--   Refusal   the errors of the builders of chains and groups
--   Client    chronos.go, codec.go: Options (the options of a task), Dispatch (Enqueue,
--             dispatchMessage); chain.go and group.go: Stages (what the builders hold), Chain, Group
--             (validation, messages, Enqueue); Refused, Within, Sound, Tail, Delay and Locked hold what is
--             proved of them
--   Scheduler scheduler.go: registration, fireDue; Loop (Start, election, the loop's rounds with
--             the registry's heartbeat, Shutdown); Seen and Fired hold what is proved
--   Inspector inspector.go: Queues, ListTasks, GetTask; Status (SchedulerStatus, for what ScanSchedules
--             returns); Found holds what is proved of GetTask
--   Sparkline contrib/webui/sparkline.go: the ring and the store of samples; Window holds what is proved
--   Examples  a concrete store with the laws of Redis, and runs at concrete inputs
--
-- Times are natural numbers of nanoseconds, and `Unix()` is a division. A score of a sorted set
-- counts units of 2 ^ -82 seconds, in which the float64 of scheduleScore is a whole number; it is
-- rounded as float64 arithmetic rounds, with fuel for values below 2 ^ 181 units, which are 2 ^ 99
-- seconds. Durations that the code tests against zero are signed; where it adds up delays
-- (Group.Enqueue, dispatchMessage), the sums are on 64 bits and wrap; captureRelativeDelay is for
-- waits at least half a second below the end of the range, which whole seconds are. A text is the
-- list of its bytes, or of its code points where the code ranges over runes. A nil slice is the
-- empty list.
--
-- EXPIRE gives a key a time, and the scripts and transactions on a group delete a key of the group
-- whose time is up before they touch it, as Redis does. Strings with a time (locks, leases) are read at
-- a time. The other keys of the model have no time to live.
--
-- A method of RDB takes a world (database, clock, the queues that it has registered, and the list of
-- what will become of the calls to Redis) to a result and a world. A call, which is a command, a
-- script or a transaction, is answered, refused before it has an effect, or has its effect and its
-- reply is lost; when the list is used up, calls are answered. What other
-- processes do between the calls of one method is not modelled; the scripts that several processes run
-- one after another are sequences of steps.
--
-- Loops are structural recursion. computeFires takes the bound of its scan, maxScan in the code, as an
-- argument, and its theorems say how it compares with the elapsed triggers. The retries of
-- enqueueNextWithRetry and completeGroupWithRetry are recursion on the attempts left.
--
-- The options of a task and the builders take the time at which they run; the clock of a world stands
-- still between calls to Redis. A fresh identifier (uuid), the digest, and what the cron package makes
-- of a specification are arguments.
--
-- Not modelled: goroutines, tickers, the blocking of the worker semaphore and the cancellation of a
-- context around the rounds and ticks of the server and the scheduler; the
-- decoding of arguments and of results, which is generic glue over encoding/json; ScanSchedules, a scan
-- of the key space; the hook OnDeadLetter and the metrics, which change no state of the queue;
-- EnsureGroup, since a stream of the model has its one consumer group; cmd, the rest
-- of contrib, benchmarks and examples.
mod Common
pub mod Wrr
pub mod Keys
pub mod Task
pub mod Redis
pub mod Refusal
pub mod Client
pub mod World
pub mod Rdb
pub mod Retry
pub mod Schedule
pub mod ScheduleMeta
pub mod Scheduler
pub mod Inspector
pub mod Server
pub mod Sparkline
pub mod Examples
