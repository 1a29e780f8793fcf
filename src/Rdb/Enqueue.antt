-- ===== src/Rdb/Enqueue.antt =====
-- The methods of RDB that bring a task in: rdb.go, schedule.go, unique.go, chain.go and periodic.go.
use chronos_go.Common.{
  ℕ, ◌+◌, ◌*◌, ◌/◌, ℤ, pos, negsuc, Text, codes, Bool, false, ltb, ◌==◌, if◌then◌else◌, none, some,
  ◌∷◌, ◌++◌,
}
use chronos_go.Keys.{
  Keys, key_of, stream, archived, completed, scheduled, task, unique, pdedup, queues_key,
}
use chronos_go.Task.{TaskState, TaskMessage}
use chronos_go.Redis.{Redis, sadd, contains_text}
use chronos_go.World.{
  M, Result, not_encodable, duplicate_task, pure, raise, time_now, call, ◌>>=◌, ◌>>◌,
}
use chronos_go.Rdb.Scripts.{
  enqueue_cmd, schedule_cmd, enqueue_unique_cmd, schedule_unique_cmd, enqueue_periodic_cmd,
  chain_enqueue_cmd, chain_schedule_cmd,
}
pub use chronos_go.Rdb.Score.{second, unix_score}
use chronos_go.Rdb.Score.{schedule_score}

abbrev pub millisecond : ℕ
millisecond = 1000000

-- uniqueTTLMillis: whole milliseconds, at least one. Here as nanoseconds again.
unfoldable pub unique_ttl_millis : ℕ → ℕ
unique_ttl_millis ttl = let ms = ttl / millisecond in (if ltb ms 1 then 1 else ms) * millisecond

module _ (r : Redis) where
  -- A script that answers with no more than its success.
  abbrev pub run : (ℕ → r.Db → r.Db) → M r Unit
  run f = call (λ t db. (tt, f t db))

  -- EncodeMessage
  unfoldable pub encode_message : TaskMessage → M r r.Datum
  encode_message m = elim (r.encode m) [ none ↦ raise not_encodable | some d ↦ pure d ]

  -- What enqueueing scripts reply with: -1 for a lock that is held.
  unfoldable pub check_duplicate : ℤ → M r Unit
  check_duplicate (pos n) = pure tt
  check_duplicate (negsuc n) = raise duplicate_task

  -- n == 1
  unfoldable pub is_one : ℤ → Bool
  is_one (pos n) = n == 1
  is_one (negsuc n) = false

  module _ (ks : Keys) where
    -- r.knownQueues.Store(qname, struct{}{})
    abbrev remember : Text → M r Unit
    remember q w = (Result.ok tt, record w { known = q ∷ w.known })

    -- registerQueue
    unfoldable pub register_queue : Text → M r Unit
    unfolding contains_text
    register_queue q w =
        if contains_text q w.known
        then (Result.ok tt, w)
        else (run (λ t. r.write t (queues_key ks) (sadd q)) >> remember q) w

    -- Enqueue
    unfoldable pub enqueue : TaskMessage → M r Unit
    unfolding encode_message register_queue
    enqueue m = do
      encoded ← encode_message (record m { state = TaskState.pending })
      register_queue m.queue
      run (
          enqueue_cmd r (key_of ks m.queue (task m.id)) (key_of ks m.queue stream)
            (key_of ks m.queue completed) (key_of ks m.queue archived) encoded TaskState.pending
            m.id)

    -- Schedule
    unfoldable pub schedule : TaskMessage → ℕ → M r Unit
    unfolding encode_message register_queue
    schedule m process_at = do
      encoded ← encode_message (record m { state = TaskState.scheduled })
      register_queue m.queue
      run (
          schedule_cmd r (key_of ks m.queue (task m.id)) (key_of ks m.queue scheduled)
            (key_of ks m.queue completed) (key_of ks m.queue archived) encoded TaskState.scheduled
            (schedule_score process_at) m.id)

    -- EnqueueChainLink
    unfoldable pub enqueue_chain_link : TaskMessage → ℕ → M r Bool
    unfolding encode_message register_queue is_one
    enqueue_chain_link m delay = do
      register_queue m.queue
      if ltb 0 delay
          then (do
            encoded ← encode_message (record m { state = TaskState.scheduled })
            t ← time_now
            n ← call (
                chain_schedule_cmd r (key_of ks m.queue (task m.id)) (key_of ks m.queue scheduled)
                  encoded TaskState.scheduled (unix_score (t + delay)) m.id)
            pure (is_one n))
          else (do
            encoded ← encode_message (record m { state = TaskState.pending })
            n ← call (
                chain_enqueue_cmd r (key_of ks m.queue (task m.id)) (key_of ks m.queue stream)
                  encoded TaskState.pending m.id)
            pure (is_one n))

    -- EnqueuePeriodic
    unfoldable pub enqueue_periodic : TaskMessage → Text → ℕ → M r Unit
    unfolding encode_message register_queue check_duplicate unique_ttl_millis
    enqueue_periodic m trigger_id dedup_ttl = do
      encoded ← encode_message (record m { state = TaskState.pending })
      register_queue m.queue
      res ← call (
          enqueue_periodic_cmd r (key_of ks m.queue (pdedup trigger_id))
            (key_of ks m.queue (task m.id)) (key_of ks m.queue stream) (key_of ks m.queue completed)
            (key_of ks m.queue archived) m.id (unique_ttl_millis dedup_ttl) encoded
            TaskState.pending)
      check_duplicate res

    -- base.UniqueSuffix: the kind, a colon and the hex digits of the payload's SHA-256, which a
    -- standard package computes.
    module _ (sha256_hex : Text → Text) where
      unfoldable pub unique_suffix : Text → Text → Text
      unique_suffix kind payload = kind ++ codes ":" ++ sha256_hex payload

      abbrev pub with_unique_key : TaskMessage → TaskMessage
      with_unique_key m = record m {
        unique_key = key_of ks m.queue (unique (unique_suffix m.kind m.payload));
      }

      -- EnqueueUnique
      unfoldable pub enqueue_unique : TaskMessage → ℕ → M r Unit
      unfolding encode_message register_queue check_duplicate unique_ttl_millis unique_suffix
      enqueue_unique m ttl = do
        encoded ← encode_message (record (with_unique_key m) { state = TaskState.pending })
        register_queue m.queue
        res ← call (
            enqueue_unique_cmd r (with_unique_key m).unique_key (key_of ks m.queue (task m.id))
              (key_of ks m.queue stream) (key_of ks m.queue completed) (key_of ks m.queue archived)
              m.id (unique_ttl_millis ttl) encoded TaskState.pending)
        check_duplicate res

      -- ScheduleUnique
      unfoldable pub schedule_unique : TaskMessage → ℕ → ℕ → M r Unit
      unfolding encode_message register_queue check_duplicate unique_ttl_millis unique_suffix
      schedule_unique m process_at ttl = do
        encoded ← encode_message (record (with_unique_key m) { state = TaskState.scheduled })
        register_queue m.queue
        res ← call (
            schedule_unique_cmd r (with_unique_key m).unique_key (key_of ks m.queue (task m.id))
              (key_of ks m.queue scheduled) (key_of ks m.queue completed)
              (key_of ks m.queue archived) m.id (unique_ttl_millis ttl) encoded TaskState.scheduled
              (schedule_score process_at))
        check_duplicate res
