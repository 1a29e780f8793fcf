-- ===== src/Examples/Runs.antt =====
-- RunTask, and a tick of the forwarder, at a concrete store.
use chronos_go.Common.{
  ◌≡◌, ◌≤◌, length, refl, Text, eq_text_refl, pos, ◌==◌, true, false, none, some, [], ◌∷◌, ◌++◌,
}
use chronos_go.Keys.{key_of, scheduled, stream, task}
use chronos_go.Redis.{hset, zadd, contains_text}
use chronos_go.World.{World, ok}
use chronos_go.Task.{TaskState, state_number}
use chronos_go.Rdb.Scripts.{zrem_reply, msg_field, state_field}
use chronos_go.Rdb.Slots.{at-slot}
use chronos_go.Rdb.Promoted.{places, run_script, run_script-promotes}
use chronos_go.Rdb.Score.{schedule_score}
use chronos_go.Rdb.Sweep.{forward_scheduled}
use chronos_go.Rdb.Forwarded.{due_ids, due_count, IsReady, IsForwarded, forward_scheduled-moves}
use chronos_go.Examples.Store.{store, lookup}
use chronos_go.Examples.Data.{keys, mail, body, sample, calm_world}

-- The task waits in the scheduled set.
abbrev waiting : store.Db
waiting =
    store.write 0 (key_of keys mail scheduled) (zadd 5 sample.id) (
      store.write 0 (key_of keys mail (task sample.id)) (hset msg_field (body sample))
        calm_world.db)

no_score : (x k : Text) → store.zscore (store.at calm_world.db k) x ≡ none
unfolding store lookup
no_score x k = refl

waits : (places store keys mail sample.id waiting == 0) ≡ false
unfolding places zrem_reply
waits = simp (at-slot store keys mail 0, store.zscore-zadd, eq_text_refl, no_score)

nowhere : places store keys mail sample.id calm_world.db ≡ 0
unfolding places zrem_reply
nowhere = simp no_score

there : store.exists (store.at waiting (key_of keys mail (task sample.id))) ≡ true
there = simp (at-slot store keys mail 0, eq_text_refl, store.exists-hset)

run_script-promotes_example :
    let (reply, after) = run_script store keys mail sample.id 9 waiting in
    let v : store.Value = store.at waiting (key_of keys mail stream) in
    (reply ≡ pos 1)
    × (store.ready (store.at after (key_of keys mail stream))
        ≡ store.ready v ++ record { stream_id = store.next_id 9 v; task_id = sample.id } ∷ [])
    × (store.unacked (store.at after (key_of keys mail stream)) ≡ store.unacked v)
    × (store.hget (store.at after (key_of keys mail (task sample.id))) state_field
        ≡ some (store.number (state_number TaskState.pending)))
    × (places store keys mail sample.id after ≡ 0)
run_script-promotes_example = run_script-promotes store keys mail sample.id 9 waiting waits there

-- A task that is scheduled for the fifth nanosecond.
abbrev with_scheduled : World store
unfolding store
with_scheduled = record calm_world {
  db = store.write 0 (key_of keys mail scheduled) (zadd (schedule_score 5) sample.id) calm_world.db;
}

all_answered : with_scheduled.turns ≡ []
unfolding store
all_answered = refl

forward_scheduled-moves_example :
    let ids =
      due_ids store keys mail with_scheduled.clock (schedule_score 9) 10 with_scheduled.db in
    let (res, after) = forward_scheduled store keys mail 9 10 with_scheduled in
    (res ≡ ok (length ids))
    × IsForwarded store keys mail with_scheduled.clock ids with_scheduled.db after.db
    × ((x : Text)
        → contains_text x ids ≡ true
        → IsReady store keys mail with_scheduled.clock (schedule_score 9) with_scheduled.db x)
    × (due_count store keys mail (schedule_score 9) with_scheduled.db ≤ 10
        → (x : Text)
        → IsReady store keys mail with_scheduled.clock (schedule_score 9) with_scheduled.db x
        → contains_text x ids ≡ true)
forward_scheduled-moves_example =
    forward_scheduled-moves store keys mail 9 10 with_scheduled all_answered
