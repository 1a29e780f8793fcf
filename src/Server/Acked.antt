-- ===== src/Server/Acked.antt =====
-- internal/rdb/rdb.go: Done, and the tasks of other ids.
use chronos_go.Common.{
  ℕ, ◌/◌, ◌+◌, ◌*◌, ◌≡◌, ◌≢◌, refl, Text, false, Bool-cases, inl, inr, eq_text, ltb, ne→eq_text,
}
use chronos_go.Keys.{Keys, QueueKey, key_of, stream, task, completed, unique}
use chronos_go.Keys.Prefix.{is_nil}
use chronos_go.Keys.Apart.{eq_key}
use chronos_go.Keys.Queues.{Lacks}
use chronos_go.Task.{TaskState, state_number, TaskMessage}
use chronos_go.Redis.{Redis, Write, hset, xack, xdel, del, zadd}
use chronos_go.World.{World}
use chronos_go.Rdb.Scripts.{move_to_zset_cmd, state_field, msg_field, store_task, set_state}
use chronos_go.Rdb.Slots.{at-queue}
use chronos_go.Rdb.Calls.{call-either, bind-keeps, move_to_zset-keeps}
use chronos_go.Rdb.Released.{IsLockKey, release_unique-keeps}
use chronos_go.Rdb.Score.{score_second}
use chronos_go.Rdb.Enqueue.{run, second}
use chronos_go.Rdb.Finish.{move_to_zset, release_unique, discard_entry, done, done_retained}
use chronos_go.Server.Attempts.{HasTask}

module _ (r : Redis) (ks : Keys) (q : Text) (i : ℕ) (clean : Lacks 125 q) where
  module _ (m : TaskMessage) (clean_m : Lacks 125 m.queue) where
    -- A command on another key of the queue q leaves the successor.
    write-HasTask :
        (a : QueueKey) (o : Write r.Datum) (t : ℕ) (db : r.Db)
        → eq_key a (task m.id) ≡ false
        → (HasTask r ks m) db
        → (HasTask r ks m) (r.write t (key_of ks q a) o db)
    write-HasTask a o t db other there = elim (Bool-cases (eq_text q m.queue)) [
      | inl same ↦ simp (at-queue r ks q m.queue t _ _ _ _ clean clean_m, same, other) there
      | inr apart ↦ simp (at-queue r ks q m.queue t _ _ _ _ clean clean_m, apart) there
    ]

    module _ (msg : TaskMessage) (locked : IsLockKey ks q msg.unique_key)
        (apart : msg.id ≢ m.id) where
      unlock-HasTask :
          (w : World r) → (HasTask r ks m) w.db → (HasTask r ks m) (release_unique r ks msg w).1.db
      unfolding release_unique is_nil IsLockKey
      unlock-HasTask w there = elim locked [
        | inl nil ↦ simp nil there
        | inr (lock, at_lock) ↦
            release_unique-keeps r ks (HasTask r ks m) msg w there
              (rw at_lock (write-HasTask (unique lock) del w.clock w.db refl there))
      ]

      other_id : eq_key (task msg.id) (task m.id) ≡ false
      other_id = ne→eq_text msg.id m.id apart

      discard-HasTask :
          (t : ℕ) (db : r.Db)
          → (HasTask r ks m) db
          → (HasTask r ks m) (discard_entry r ks q i msg.id t db)
      unfolding discard_entry
      discard-HasTask t db there =
          write-HasTask (task msg.id) del t _ other_id
            (write-HasTask stream (xdel i) t _ refl (write-HasTask stream (xack i) t db refl there))

      move-HasTask :
          (d : r.Datum) (s : TaskState) (score t : ℕ) (db : r.Db)
          → (HasTask r ks m) db
          → (HasTask r ks m) (
              move_to_zset_cmd r
                (key_of ks q stream)
                (key_of ks q (task msg.id))
                (key_of ks q completed)
                i
                d
                s
                score
                msg.id
                t
                db)
      unfolding move_to_zset_cmd store_task set_state
      move-HasTask d s score t db there = write-HasTask completed (zadd score msg.id) t _ refl (
          write-HasTask (task msg.id) (hset state_field (r.number (state_number s))) t _ other_id (
            write-HasTask (task msg.id) (hset msg_field d) t _ other_id (
              write-HasTask stream (xdel i) t _ refl
                (write-HasTask stream (xack i) t db refl there))))

      pub done-HasTask :
          (w : World r) → (HasTask r ks m) w.db → (HasTask r ks m) (done r ks q i msg w).1.db
      unfolding done done_retained
      done-HasTask w there = elim (Bool-cases (ltb 0 msg.retention)) [
        | inl kept ↦ simp kept (
            let score : ℕ = (w.clock / second + msg.retention) * score_second in
            let stored : TaskMessage = record msg { completed_at = w.clock / second } in
            bind-keeps (λ v. (HasTask r ks m) v.db)
              (move_to_zset r ks q i stored (key_of ks q completed) TaskState.completed score)
              (λ _. release_unique r ks msg) w
              (move_to_zset-keeps r ks q i (HasTask r ks m) stored (key_of ks q completed)
                TaskState.completed score w there
                (λ d _. move-HasTask d TaskState.completed score w.clock w.db there))
              (λ _ after. unlock-HasTask _ after))
        | inr dropped ↦ simp dropped (
            bind-keeps (λ v. (HasTask r ks m) v.db) (run r (discard_entry r ks q i msg.id))
              (λ _. release_unique r ks msg) w
              (call-either (HasTask r ks m) (λ t db. (tt, discard_entry r ks q i msg.id t db)) w
                there (discard-HasTask w.clock w.db there))
              (λ _ after. unlock-HasTask _ after))
      ]
