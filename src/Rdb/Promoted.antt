-- ===== src/Rdb/Promoted.antt =====
-- What RunTask's script, inspect.go, does to a task that waits in one of the sets.
use chronos_go.Common.{
  ℕ, ◌+◌, ◌≡◌, refl, Text, ℤ, pos, ◌==◌, not, eq_text_refl, true, false, Bool-cases, some, inl, inr,
  [], ◌∷◌, ◌++◌, if◌then◌else◌,
}
use chronos_go.Keys.{Keys, key_of, stream, task, scheduled, retry, archived, completed}
use chronos_go.Redis.{Redis, xadd, zrem}
use chronos_go.Task.{TaskState, state_number}
use chronos_go.Rdb.Scripts.{run_task_cmd, zrem_count, zrem_reply, set_state, state_field, ◌▷◌}
use chronos_go.Rdb.Slots.{at-slot}

module _ (r : Redis) (ks : Keys) (q id : Text) where
  -- RunTask's script for a task of a queue.
  unfoldable pub run_script : ℕ → r.Db → ℤ × r.Db
  run_script =
      run_task_cmd r (key_of ks q scheduled) (key_of ks q retry) (key_of ks q archived)
        (key_of ks q completed) (key_of ks q stream) (key_of ks q (task id)) id TaskState.pending

  -- In how many of the four sets the task is.
  unfoldable pub places : r.Db → ℕ
  places db =
      zrem_reply r (r.zscore (r.at db (key_of ks q scheduled)) id)
      + zrem_reply r (r.zscore (r.at db (key_of ks q retry)) id)
      + zrem_reply r (r.zscore (r.at db (key_of ks q archived)) id)
      + zrem_reply r (r.zscore (r.at db (key_of ks q completed)) id)

  removed : ℕ → r.Db → r.Db
  removed now db =
      db
      ▷ r.write now (key_of ks q scheduled) (zrem id)
      ▷ r.write now (key_of ks q retry) (zrem id)
      ▷ r.write now (key_of ks q archived) (zrem id)
      ▷ r.write now (key_of ks q completed) (zrem id)

  run_script_lem :
      (now : ℕ) (db : r.Db)
      → run_script now db ≡ (
          if places db == 0
          then (pos 0, removed now db)
          else if not (r.exists (r.at db (key_of ks q (task id))))
          then (pos 0, removed now db)
          else (
            pos 1,
            removed now db
                ▷ r.write now (key_of ks q stream) (xadd id)
                ▷ set_state r (key_of ks q (task id)) TaskState.pending now,
          ))
  unfolding run_script run_task_cmd zrem_count places removed
  run_script_lem now db = simp (at-slot r ks q now)

  promoted : ℕ → r.Db → r.Db
  promoted now db =
      removed now db
      ▷ r.write now (key_of ks q stream) (xadd id)
      ▷ set_state r (key_of ks q (task id)) TaskState.pending now

  promoted-nowhere : (now : ℕ) (db : r.Db) → places (promoted now db) ≡ 0
  unfolding places promoted removed set_state zrem_reply
  promoted-nowhere now db = simp (at-slot r ks q now, r.zscore-zrem, eq_text_refl)

  removed-nowhere : (now : ℕ) (db : r.Db) → places (removed now db) ≡ 0
  unfolding places removed zrem_reply
  removed-nowhere now db = simp (at-slot r ks q now, r.zscore-zrem, eq_text_refl)

  -- Whatever RunTask finds, the task is in none of the sets afterwards.
  run_script-nowhere : (now : ℕ) (db : r.Db) → places (run_script now db).1 ≡ 0
  unfolding promoted
  run_script-nowhere now db = elim (Bool-cases (places db == 0)) [
    | inl nowhere ↦ rw (run_script_lem now db) (simp nowhere (removed-nowhere now db))
    | inr waits ↦ elim (Bool-cases (r.exists (r.at db (key_of ks q (task id))))) [
      | inl there ↦ rw (run_script_lem now db) (simp (waits, there) (promoted-nowhere now db))
      | inr gone ↦ rw (run_script_lem now db) (simp (waits, gone) (removed-nowhere now db))
    ]
  ]

  promoted-ready :
      (now : ℕ) (db : r.Db)
      → let v : r.Value = r.at db (key_of ks q stream) in
        r.ready (r.at (promoted now db) (key_of ks q stream))
        ≡ r.ready v ++ record { stream_id = r.next_id now v; task_id = id } ∷ []
  unfolding promoted removed set_state
  promoted-ready now db = simp (at-slot r ks q now, r.ready-xadd)

  promoted-unacked :
      (now : ℕ) (db : r.Db)
      → r.unacked (r.at (promoted now db) (key_of ks q stream))
        ≡ r.unacked (r.at db (key_of ks q stream))
  unfolding promoted removed set_state
  promoted-unacked now db = simp (at-slot r ks q now, r.unacked-xadd)

  promoted-state :
      (now : ℕ) (db : r.Db)
      → r.hget (r.at (promoted now db) (key_of ks q (task id))) state_field
        ≡ some (r.number (state_number TaskState.pending))
  unfolding promoted removed set_state
  promoted-state now db = simp (at-slot r ks q now, r.hget-hset, eq_text_refl)

  -- For a task that waits in at least one of the scheduled, retry, archived and completed sets
  -- and has its hash, RunTask's script replies that it promoted the task, the stream has one more
  -- entry, for the task, at its end and the same unacknowledged entries, the hash says pending,
  -- and the task is in none of the four sets.
  pub run_script-promotes :
      (now : ℕ) (db : r.Db)
      → (places db == 0) ≡ false
      → r.exists (r.at db (key_of ks q (task id))) ≡ true
      → let (reply, after) = run_script now db in
        let v : r.Value = r.at db (key_of ks q stream) in
        (reply ≡ pos 1)
        × (r.ready (r.at after (key_of ks q stream))
            ≡ r.ready v ++ record { stream_id = r.next_id now v; task_id = id } ∷ [])
        × (r.unacked (r.at after (key_of ks q stream)) ≡ r.unacked v)
        × (r.hget (r.at after (key_of ks q (task id))) state_field
            ≡ some (r.number (state_number TaskState.pending)))
        × (places after ≡ 0)
  unfolding promoted
  run_script-promotes now db waits there = rw (run_script_lem now db) (
      simp (waits, there)
        (
          refl,
          promoted-ready now db,
          promoted-unacked now db,
          promoted-state now db,
          promoted-nowhere now db,
        ))

  -- For a task that is in none of the four sets RunTask's script replies that it did nothing, and
  -- leaves the stream and the task's hash as they are.
  pub run_script-idle :
      (now : ℕ) (db : r.Db)
      → places db ≡ 0
      → let (reply, after) = run_script now db in
        (reply ≡ pos 0)
        × (r.at after (key_of ks q stream) ≡ r.at db (key_of ks q stream))
        × (r.at after (key_of ks q (task id)) ≡ r.at db (key_of ks q (task id)))
  unfolding removed
  run_script-idle now db nowhere =
      rw (run_script_lem now db)
        (simp nowhere (refl, simp (at-slot r ks q now), simp (at-slot r ks q now)))

  -- Of two runs of RunTask's script for the same task, the second replies that it did nothing and
  -- leaves the stream and the task's hash as the first left them.
  pub run_script-once :
      (now later : ℕ) (db : r.Db)
      → let after = (run_script now db).1 in
        let (reply, after') = run_script later after in
        (reply ≡ pos 0)
        × (r.at after' (key_of ks q stream) ≡ r.at after (key_of ks q stream))
        × (r.at after' (key_of ks q (task id)) ≡ r.at after (key_of ks q (task id)))
  run_script-once now later db =
      run_script-idle later (run_script now db).1 (run_script-nowhere now db)
