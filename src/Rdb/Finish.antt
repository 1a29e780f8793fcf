-- ===== src/Rdb/Finish.antt =====
-- The methods of RDB that end or move a task: rdb.go, retry.go and inspect.go.
use chronos_go.Common.{ℕ, ◌+◌, ◌*◌, ◌/◌, Text, ltb, if◌then◌else◌, none, some}
use chronos_go.Keys.{Keys, QueueKey, key_of, stream, task}
use chronos_go.Keys.Prefix.{is_nil}
use chronos_go.Task.{TaskState, TaskMessage}
use chronos_go.Redis.{Redis, del, zrem, xack, xdel}
use chronos_go.World.{
  M, Result, ok, err, redis_nil, bad_body, pure, raise, time_now, call, attempt, ◌>>=◌, ◌>>◌,
}
use chronos_go.Rdb.Scripts.{
  move_to_zset_cmd, release_unique_cmd, requeue_cmd, run_task_cmd, msg_field, state_field, ◌▷◌,
}
use chronos_go.Rdb.Score.{score_second}
use chronos_go.Rdb.Enqueue.{second, unix_score, run, encode_message}

module _ (r : Redis) (ks : Keys) where
  -- moveToZSet
  unfoldable pub move_to_zset : Text → ℕ → TaskMessage → Text → TaskState → ℕ → M r Unit
  unfolding encode_message
  move_to_zset q stream_id m zset state score = do
    encoded ← encode_message r (record m { state = state })
    run r (
        move_to_zset_cmd r (key_of ks q stream) (key_of ks q (task m.id)) zset stream_id encoded
          state score m.id)

  -- releaseUnique
  unfoldable pub release_unique : TaskMessage → M r Unit
  unfolding is_nil
  release_unique m =
      if is_nil m.unique_key then pure tt else run r (release_unique_cmd r m.unique_key m.id)

  -- Retry
  unfoldable pub retry : Text → ℕ → TaskMessage → ℕ → M r Unit
  unfolding move_to_zset
  retry q stream_id m retry_at =
      move_to_zset q stream_id m (key_of ks q QueueKey.retry) TaskState.retry (unix_score retry_at)

  -- Archive
  unfoldable pub archive : Text → ℕ → TaskMessage → ℕ → M r Unit
  unfolding move_to_zset release_unique
  archive q stream_id m died_at = do
    move_to_zset q stream_id m (key_of ks q QueueKey.archived) TaskState.archived
        (unix_score died_at)
    release_unique m

  -- The transaction of Done without retention.
  unfoldable pub discard_entry : Text → ℕ → Text → ℕ → r.Db → r.Db
  discard_entry q stream_id id t db =
      db
      ▷ r.write t (key_of ks q stream) (xack stream_id)
      ▷ r.write t (key_of ks q stream) (xdel stream_id)
      ▷ r.write t (key_of ks q (task id)) del

  -- The branch of Done that keeps a completed task.
  unfoldable pub done_retained : Text → ℕ → TaskMessage → M r Unit
  unfolding move_to_zset release_unique
  done_retained q stream_id m = do
    t ← time_now
    let kept : TaskMessage = record m { completed_at = t / second }
    move_to_zset q stream_id kept (key_of ks q QueueKey.completed) TaskState.completed
        ((t / second + m.retention) * score_second)
    release_unique m

  -- Done
  unfoldable pub done : Text → ℕ → TaskMessage → M r Unit
  unfolding done_retained discard_entry release_unique
  done q stream_id m =
      if ltb 0 m.retention
      then done_retained q stream_id m
      else (run r (discard_entry q stream_id m.id) >> release_unique m)

  -- Requeue
  unfoldable pub requeue : Text → ℕ → TaskMessage → M r Unit
  requeue q stream_id m = run r (
      requeue_cmd r (key_of ks q stream) (key_of ks q (task m.id)) stream_id m.id TaskState.pending)

  -- HGET of a field of the task's hash; redis.Nil if it is absent.
  abbrev pub hget_field : Text → Text → Text → M r r.Datum
  hget_field q id field = do
    found ← call (λ t db. (r.hget (r.at db (key_of ks q (task id))) field, db))
    elim found [ none ↦ raise redis_nil | some d ↦ pure d ]

  -- DecodeMessage
  unfoldable pub decode_message : r.Datum → M r TaskMessage
  decode_message d = elim (r.decode d) [ none ↦ raise bad_body | some m ↦ pure m ]

  -- GetTask
  unfoldable pub get_task : Text → Text → M r TaskMessage
  unfolding decode_message
  get_task q id = do raw ← hget_field q id msg_field; decode_message raw

  -- TaskState
  unfoldable pub task_state : Text → Text → M r ℕ
  task_state q id = do
    raw ← hget_field q id state_field
    elim (r.as_number raw) [ none ↦ raise bad_body | some n ↦ pure n ]

  -- RunTask
  unfoldable pub run_task : Text → Text → M r Unit
  run_task q id = do
    call (
        run_task_cmd r (key_of ks q QueueKey.scheduled) (key_of ks q QueueKey.retry)
          (key_of ks q QueueKey.archived) (key_of ks q QueueKey.completed) (key_of ks q stream)
          (key_of ks q (task id)) id TaskState.pending)
    pure tt

  -- The transaction of DeleteTask.
  unfoldable pub delete_entries : Text → Text → ℕ → r.Db → r.Db
  delete_entries q id t db =
      db
      ▷ r.write t (key_of ks q QueueKey.scheduled) (zrem id)
      ▷ r.write t (key_of ks q QueueKey.retry) (zrem id)
      ▷ r.write t (key_of ks q QueueKey.archived) (zrem id)
      ▷ r.write t (key_of ks q QueueKey.completed) (zrem id)
      ▷ r.write t (key_of ks q (task id)) del

  unfoldable pub delete_found : Text → Text → Result TaskMessage → M r Unit
  unfolding delete_entries release_unique
  delete_found q id (ok m) = run r (delete_entries q id) >> release_unique m
  delete_found q id (err redis_nil) = run r (delete_entries q id)
  delete_found q id (err e) = raise e

  -- DeleteTask
  unfoldable pub delete_task : Text → Text → M r Unit
  unfolding get_task delete_found
  delete_task q id = attempt (get_task q id) (delete_found q id)
