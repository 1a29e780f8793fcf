-- ===== src/Rdb/Placed.antt =====
-- What Enqueue and Schedule do to the keys of a queue.
use chronos_go.Common.{ℕ, ◌≡◌, refl, eq_text, eq_text_refl, none, some, [], ◌∷◌, ◌++◌, sym}
use chronos_go.Keys.{Keys, key_of, stream, task, completed, archived, scheduled}
use chronos_go.Redis.{Redis}
use chronos_go.Task.{TaskState, TaskMessage, state_number}
use chronos_go.World.{World, ok}
use chronos_go.Rdb.Scripts.{
  enqueue_cmd, schedule_cmd, store_task, set_state, msg_field, state_field,
}
use chronos_go.Rdb.Score.{schedule_score}
use chronos_go.Rdb.Enqueue.{enqueue, schedule}
use chronos_go.Rdb.Slots.{at-slot}
use chronos_go.Rdb.Calm.{call-calm, register_queue-calm, encode_message-calm}

module _ (r : Redis) (ks : Keys) (m : TaskMessage) where
  -- The task's hash holds that message and that state.
  unfoldable pub IsStored : r.Datum → TaskState → r.Db → Type 0
  IsStored d s db =
      (r.hget (r.at db (key_of ks m.queue (task m.id))) msg_field ≡ some d)
      × (r.hget (r.at db (key_of ks m.queue (task m.id))) state_field
          ≡ some (r.number (state_number s)))

  -- The task is in neither of the sets of tasks that are over.
  unfoldable pub IsCurrent : r.Db → Type 0
  IsCurrent db =
      (r.zscore (r.at db (key_of ks m.queue completed)) m.id ≡ none)
      × (r.zscore (r.at db (key_of ks m.queue archived)) m.id ≡ none)

  -- One entry for the task at the end of what the stream holds; the rest of the stream as before.
  unfoldable pub IsAppended : ℕ → r.Db → r.Db → Type 0
  IsAppended now before after =
      let v : r.Value = r.at before (key_of ks m.queue stream) in
      (r.ready (r.at after (key_of ks m.queue stream))
        ≡ r.ready v ++ record { stream_id = r.next_id now v; task_id = m.id } ∷ [])
      × (r.unacked (r.at after (key_of ks m.queue stream)) ≡ r.unacked v)

  pub enqueue_cmd-Placed :
      (d : r.Datum) (now : ℕ) (db : r.Db)
      → let after =
          enqueue_cmd r
            (key_of ks m.queue (task m.id))
            (key_of ks m.queue stream)
            (key_of ks m.queue completed)
            (key_of ks m.queue archived)
            d
            TaskState.pending
            m.id
            now
            db in
        IsStored d TaskState.pending after × IsCurrent after × IsAppended now db after
  unfolding enqueue_cmd store_task set_state IsStored IsCurrent IsAppended eq_text
  enqueue_cmd-Placed d now db = (
    (
      simp (at-slot r ks m.queue now, r.hget-hset, eq_text_refl),
      simp (at-slot r ks m.queue now, r.hget-hset, eq_text_refl),
    ),
    (
      simp (at-slot r ks m.queue now, r.zscore-zrem, eq_text_refl),
      simp (at-slot r ks m.queue now, r.zscore-zrem, eq_text_refl),
    ),
    (
      simp (at-slot r ks m.queue now, r.ready-xadd),
      simp (at-slot r ks m.queue now, r.unacked-xadd),
    ),
  )

  pub schedule_cmd-Placed :
      (d : r.Datum) (at now : ℕ) (db : r.Db)
      → let after =
          schedule_cmd r
            (key_of ks m.queue (task m.id))
            (key_of ks m.queue scheduled)
            (key_of ks m.queue completed)
            (key_of ks m.queue archived)
            d
            TaskState.scheduled
            at
            m.id
            now
            db in
        IsStored d TaskState.scheduled after
        × IsCurrent after
        × (r.zscore (r.at after (key_of ks m.queue scheduled)) m.id ≡ some at)
        × (r.at after (key_of ks m.queue stream) ≡ r.at db (key_of ks m.queue stream))
  unfolding schedule_cmd store_task set_state IsStored IsCurrent IsAppended eq_text
  schedule_cmd-Placed d at now db = (
    (
      simp (at-slot r ks m.queue now, r.hget-hset, eq_text_refl),
      simp (at-slot r ks m.queue now, r.hget-hset, eq_text_refl),
    ),
    (
      simp (at-slot r ks m.queue now, r.zscore-zrem, eq_text_refl),
      simp (at-slot r ks m.queue now, r.zscore-zrem, eq_text_refl),
    ),
    simp (at-slot r ks m.queue now, r.zscore-zadd, eq_text_refl),
    simp (at-slot r ks m.queue now),
  )

  -- When all calls are answered and the message is encodable, Enqueue succeeds, the task's hash
  -- holds the message and the pending state, the stream has one more entry, for the task, at its
  -- end and the same unacknowledged entries, and the task is in neither the completed nor the
  -- archived set.
  pub enqueue-Placed :
      (d : r.Datum) (w : World r)
      → w.turns ≡ []
      → r.encode (record m { state = TaskState.pending }) ≡ some d
      → let (res, after) = enqueue r ks m w in
        (res ≡ ok tt)
        × IsStored d TaskState.pending after.db
        × IsCurrent after.db
        × IsAppended w.clock w.db after.db
  unfolding enqueue IsAppended
  enqueue-Placed d w calm encoded =
      let (v, registered, still, same_clock, same) = register_queue-calm r ks m.queue w calm in
      simp
        (
          encode_message-calm r (record m { state = TaskState.pending }) d w encoded,
          registered,
          call-calm _ v still,
          sym same_clock,
          sym (same m.queue stream),
        )
        (let placed = enqueue_cmd-Placed d v.clock v.db in (refl, placed.0, placed.1, placed.2))

  -- When all calls are answered and the message is encodable, Schedule succeeds, the task's hash
  -- holds the message and the scheduled state, the task's score in the scheduled set is the given
  -- time, it is in neither the completed nor the archived set, and the stream is unchanged.
  pub schedule-Placed :
      (d : r.Datum) (process_at : ℕ) (w : World r)
      → w.turns ≡ []
      → r.encode (record m { state = TaskState.scheduled }) ≡ some d
      → let (res, after) = schedule r ks m process_at w in
        (res ≡ ok tt)
        × IsStored d TaskState.scheduled after.db
        × IsCurrent after.db
        × (r.zscore (r.at after.db (key_of ks m.queue scheduled)) m.id
            ≡ some (schedule_score process_at))
        × (r.at after.db (key_of ks m.queue stream) ≡ r.at w.db (key_of ks m.queue stream))
  unfolding schedule
  schedule-Placed d process_at w calm encoded =
      let (v, registered, still, same_clock, same) = register_queue-calm r ks m.queue w calm in
      simp
        (
          encode_message-calm r (record m { state = TaskState.scheduled }) d w encoded,
          registered,
          call-calm _ v still,
          sym (same m.queue stream),
        )
        (let placed = schedule_cmd-Placed d (schedule_score process_at) v.clock v.db in
          (refl, placed.0, placed.1, placed.2, placed.3))
