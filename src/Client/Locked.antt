-- ===== src/Client/Locked.antt =====
-- dispatchMessage of chronos.go, for a unique task with a delay: how long its lock holds.
use chronos_go.Common.{
  ℕ, ℤ, ◌+◌, ◌-◌, ◌^◌, ◌≡◌, ◌≤◌, ◌<◌, refl, lt→ltb, Text, eq_text_refl, pos, none, some, [], arith,
}
use chronos_go.Keys.{Keys, key_of, task, completed, archived, scheduled, unique}
use chronos_go.Redis.{Redis}
use chronos_go.Task.{TaskState, TaskMessage}
use chronos_go.World.{World, ok}
use chronos_go.Rdb.Scripts.{schedule_cmd, schedule_unique_cmd, store_task, set_state}
use chronos_go.Rdb.Score.{schedule_score}
use chronos_go.Rdb.Enqueue.{
  millisecond, unique_ttl_millis, check_duplicate, unique_suffix, with_unique_key, schedule_unique,
}
use chronos_go.Rdb.Slots.{at-slot}
use chronos_go.Rdb.Once.{set_nx_px-free}
use chronos_go.Rdb.Calm.{call-calm, register_queue-calm, encode_message-calm}
use chronos_go.Client.Options.{EnqueueOptions}
use chronos_go.Client.Dispatch.{lock_ttl, dispatch_at, dispatch_message}

unique_ttl_millis-ge : (ttl : ℕ) → ttl < unique_ttl_millis ttl + millisecond
unfolding unique_ttl_millis
unique_ttl_millis-ge ttl = ground arith

-- A sum in the range of time.Duration is what it is on the numbers.
lock_ttl_lem :
    (unique_ttl now t : ℕ)
    → now < t
    → unique_ttl + (t - now) < 2 ^ 63
    → lock_ttl unique_ttl now t ≡ unique_ttl + (t - now)
unfolding lock_ttl
lock_ttl_lem unique_ttl now t after_now in_range = ground arith

module _ (r : Redis) (ks : Keys) (sha256_hex : Text → Text) (m : TaskMessage) where
  abbrev suffix : Text
  suffix = unique_suffix r ks sha256_hex m.kind m.payload

  -- The key of the task's lock.
  abbrev pub lock_key : Text
  lock_key = key_of ks m.queue (unique suffix)

  schedule_cmd-lock :
      (d : r.Datum) (at now : ℕ) (db : r.Db)
      → r.at
          (schedule_cmd r
            (key_of ks m.queue (task m.id))
            (key_of ks m.queue scheduled)
            (key_of ks m.queue completed)
            (key_of ks m.queue archived)
            d
            TaskState.scheduled
            at
            m.id
            now
            db)
          lock_key
        ≡ r.at db lock_key
  unfolding schedule_cmd store_task set_state
  schedule_cmd-lock d at now db = simp (at-slot r ks m.queue now)

  abbrev script : ℕ → r.Datum → ℕ → ℕ → r.Db → ℤ × r.Db
  script ttl d at =
      schedule_unique_cmd r lock_key (key_of ks m.queue (task m.id)) (key_of ks m.queue scheduled)
        (key_of ks m.queue completed) (key_of ks m.queue archived) m.id (unique_ttl_millis ttl) d
        TaskState.scheduled at

  script-locks :
      (ttl : ℕ) (d : r.Datum) (at now : ℕ) (db : r.Db)
      → r.get now (r.at db lock_key) ≡ none
      → ((script ttl d at now db).0 ≡ pos 1)
        × ((later : ℕ)
            → now ≤ later
            → later < now + unique_ttl_millis ttl
            → r.get later (r.at (script ttl d at now db).1 lock_key) ≡ some m.id)
  unfolding schedule_unique_cmd
  script-locks ttl d at now db free =
      let taken = set_nx_px-free r lock_key m.id (unique_ttl_millis ttl) now db free in
      (
        simp taken,
        λ later after before. simp (
          taken,
          schedule_cmd-lock,
          r.at-write,
          eq_text_refl,
          r.get-set_px now later (unique_ttl_millis ttl) m.id (r.at db lock_key) after,
          lt→ltb later (now + unique_ttl_millis ttl) before,
        ),
      )

  schedule_unique-locks :
      (d : r.Datum) (at ttl : ℕ) (w : World r)
      → w.turns ≡ []
      → r.encode (record (with_unique_key r ks sha256_hex m) { state = TaskState.scheduled })
        ≡ some d
      → r.get w.clock (r.at w.db lock_key) ≡ none
      → ((schedule_unique r ks sha256_hex m at ttl w).0 ≡ ok tt)
        × ((later : ℕ)
            → w.clock ≤ later
            → later < w.clock + unique_ttl_millis ttl
            → r.get later (r.at (schedule_unique r ks sha256_hex m at ttl w).1.db lock_key)
              ≡ some m.id)
  unfolding schedule_unique check_duplicate
  schedule_unique-locks d at ttl w calm encoded free =
      let (v, registered, still, same_clock, same) = register_queue-calm r ks m.queue w calm in
      let free_still : r.get v.clock (r.at v.db lock_key) ≡ none =
        rw (same_clock, same m.queue (unique suffix)) free in
      let locked = script-locks ttl d (schedule_score at) v.clock v.db free_still in
      simp
        (
          encode_message-calm r
              (record (with_unique_key r ks sha256_hex m) { state = TaskState.scheduled }) d w
              encoded,
          registered,
          call-calm (script ttl d (schedule_score at)) v still,
          locked.0,
        )
        (refl, λ later after before. locked.1 later (rw same_clock after) (rw same_clock before))

  -- When all calls are answered, the message is encodable, the task is unique with a time to
  -- process that is after now, its uniqueness and its delay add up to less than 2 ^ 63
  -- nanoseconds, so that their sum as a time.Duration does not wrap, and its lock is free,
  -- dispatchMessage succeeds, and the lock is held for the task at every time from now on until a
  -- millisecond before the end of the uniqueness, counted from the time to process.
  pub dispatch_message-locks :
      (o : EnqueueOptions) (d : r.Datum) (t : ℕ) (w : World r)
      → w.turns ≡ []
      → r.encode (record (with_unique_key r ks sha256_hex m) { state = TaskState.scheduled })
        ≡ some d
      → o.process_at ≡ some t
      → w.clock < t
      → 0 < o.unique_ttl
      → o.unique_ttl + (t - w.clock) < 2 ^ 63
      → r.get w.clock (r.at w.db lock_key) ≡ none
      → ((dispatch_message r ks sha256_hex m o w).0 ≡ ok tt)
        × ((later : ℕ)
            → w.clock ≤ later
            → later + millisecond ≤ t + o.unique_ttl
            → r.get later (r.at (dispatch_message r ks sha256_hex m o w).1.db lock_key) ≡ some m.id)
  unfolding dispatch_message dispatch_at
  dispatch_message-locks o d t w calm encoded delayed after_now unique_for in_range free =
      let ttl = lock_ttl o.unique_ttl w.clock t in
      let locked = schedule_unique-locks d t ttl w calm encoded free in
      simp (delayed, lt→ltb w.clock t after_now, lt→ltb 0 o.unique_ttl unique_for)
        (
          locked.0,
          λ later since before. locked.1 later since (
              omega (
                arith,
                unique_ttl_millis-ge ttl,
                lock_ttl_lem o.unique_ttl w.clock t after_now in_range,
              )),
        )
