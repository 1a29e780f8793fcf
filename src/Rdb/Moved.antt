-- ===== src/Rdb/Moved.antt =====
-- What Retry and Done do to a delivered task when all calls are answered.
use chronos_go.Common.{
  ℕ, ◌*◌, ◌/◌, ◌≡◌, refl, Text, eq_text, eq_text_refl, false, some, [], ap, ◌∙◌,
}
use chronos_go.Keys.{Keys, QueueKey, key_of, stream, task}
use chronos_go.Redis.{Redis, without}
use chronos_go.Task.{TaskState, TaskMessage, state_number}
use chronos_go.World.{World, ok}
use chronos_go.Rdb.Scripts.{move_to_zset_cmd, store_task, set_state, msg_field, state_field}
use chronos_go.Rdb.Score.{score_second}
use chronos_go.Rdb.Enqueue.{second, unix_score}
use chronos_go.Rdb.Finish.{move_to_zset, retry, done, discard_entry}
use chronos_go.Rdb.Slots.{at-slot}
use chronos_go.Rdb.Released.{IsLockKey, release_unique-at}
use chronos_go.Rdb.Calm.{call-calm, encode_message-calm}

module _ (r : Redis) (ks : Keys) (q : Text) (i : ℕ) (m : TaskMessage) where
  -- The entry i is gone from the stream, which is otherwise as before.
  unfoldable pub IsDropped : r.Db → r.Db → Type 0
  IsDropped before after =
      (r.ready (r.at after (key_of ks q stream))
        ≡ without i (r.ready (r.at before (key_of ks q stream))))
      × (r.unacked (r.at after (key_of ks q stream))
          ≡ without i (r.unacked (r.at before (key_of ks q stream))))

  -- The task's hash holds that message and that state, and the set of that purpose its id with that
  -- score.
  unfoldable pub IsMoved : QueueKey → TaskState → r.Datum → ℕ → r.Db → Type 0
  IsMoved zset state d score after =
      (r.hget (r.at after (key_of ks q (task m.id))) msg_field ≡ some d)
      × (r.hget (r.at after (key_of ks q (task m.id))) state_field
          ≡ some (r.number (state_number state)))
      × (r.zscore (r.at after (key_of ks q zset)) m.id ≡ some score)

  move_to_retry :
      (d : r.Datum) (score now : ℕ) (db : r.Db)
      → let after =
          move_to_zset_cmd r
            (key_of ks q stream)
            (key_of ks q (task m.id))
            (key_of ks q QueueKey.retry)
            i
            d
            TaskState.retry
            score
            m.id
            now
            db in
        IsDropped db after × IsMoved QueueKey.retry TaskState.retry d score after
  unfolding move_to_zset_cmd store_task set_state IsDropped IsMoved eq_text
  move_to_retry d score now db = (
    (
      simp (at-slot r ks q now, r.ready-xack, r.ready-xdel),
      simp (at-slot r ks q now, r.unacked-xack, r.unacked-xdel),
    ),
    (
      simp (at-slot r ks q now, r.hget-hset, eq_text_refl),
      simp (at-slot r ks q now, r.hget-hset, eq_text_refl),
      simp (at-slot r ks q now, r.zscore-zadd, eq_text_refl),
    ),
  )

  -- When all calls are answered and the message is encodable, Retry succeeds, the entry is gone
  -- from the stream and no other is, the task's hash holds the message and the retry state, and
  -- its score in the retry set is the whole second of the given time.
  pub retry-Moved :
      (d : r.Datum) (retry_at : ℕ) (w : World r)
      → w.turns ≡ []
      → r.encode (record m { state = TaskState.retry }) ≡ some d
      → let (res, after) = retry r ks q i m retry_at w in
        (res ≡ ok tt)
        × IsDropped w.db after.db
        × IsMoved QueueKey.retry TaskState.retry d (retry_at / second * score_second) after.db
  unfolding retry move_to_zset
  retry-Moved d retry_at w calm encoded =
      let moved = move_to_retry d (unix_score retry_at) w.clock w.db in
      simp
        (
          encode_message-calm r (record m { state = TaskState.retry }) d w encoded,
          call-calm _ w calm,
        )
        (refl, moved.0, moved.1)

  discard_entry-Dropped :
      (now : ℕ) (db : r.Db)
      → IsDropped db (discard_entry r ks q i m.id now db)
        × (r.exists (r.at (discard_entry r ks q i m.id now db) (key_of ks q (task m.id))) ≡ false)
  unfolding discard_entry IsDropped
  discard_entry-Dropped now db = (
    (
      simp (at-slot r ks q now, r.ready-xack, r.ready-xdel),
      simp (at-slot r ks q now, r.unacked-xack, r.unacked-xdel),
    ),
    simp (at-slot r ks q now, eq_text_refl, r.exists-del),
  )

  -- When all calls are answered, Done of a task without retention, whose lock, if any, is a
  -- unique key of the queue, leaves a stream without the entry and otherwise as before, and
  -- deletes the task's hash.
  pub done-Dropped :
      (w : World r)
      → w.turns ≡ []
      → m.retention ≡ 0
      → IsLockKey ks q m.unique_key
      → let after = (done r ks q i m w).1 in
        IsDropped w.db after.db × (r.exists (r.at after.db (key_of ks q (task m.id))) ≡ false)
  unfolding done IsDropped
  done-Dropped w calm forgets lock =
      let dropped = discard_entry-Dropped w.clock w.db in
      let v : World r = record w { db = discard_entry r ks q i m.id w.clock w.db; turns = [] } in
      simp (forgets, call-calm (λ t db. (tt, discard_entry r ks q i m.id t db)) w calm)
        (let at_stream = release_unique-at r ks q m stream v lock refl in
          let at_task = release_unique-at r ks q m (task m.id) v lock refl in
          (
            (ap r.ready at_stream ∙ dropped.0.0, ap r.unacked at_stream ∙ dropped.0.1),
            ap r.exists at_task ∙ dropped.1,
          ))
