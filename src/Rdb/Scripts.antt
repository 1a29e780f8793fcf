-- ===== src/Rdb/Scripts.antt =====
-- The Lua scripts of internal/rdb. A script runs at one moment and as a whole: it is a function on
-- the database, over the texts that it is given as KEYS and ARGV.
use chronos_go.Common.{
  ℕ, ◌+◌, ◌-◌, ℤ, pos, negsuc, Text, codes, eq_text, Bool, true, false, leb, ltb, ◌==◌, not,
  if◌then◌else◌, Option, none, some, List, [], ◌∷◌, ◌++◌, take, length,
}
use chronos_go.Task.{TaskState, state_number}
use chronos_go.Redis.{Redis, hset, del, set_px, pexpire, zadd, zrem, xadd, xack, xdel}

abbrev pub msg_field : Text
msg_field = codes "msg"

abbrev pub state_field : Text
state_field = codes "state"

-- One command after another.
infixl 8 ◌▷◌
abbrev pub ◌▷◌ {ℓ κ} : {A : Type ℓ} {B : Type κ} → A → (A → B) → B
a ▷ f = f a

module _ (r : Redis) where
  open r use {Db, Value, Datum, at, write, get, exists, zscore, zrange}

  -- HSET key "state" n
  unfoldable pub set_state : Text → TaskState → ℕ → Db → Db
  set_state task state now = write now task (hset state_field (r.number (state_number state)))

  -- HSET key "msg" m "state" n
  unfoldable pub store_task : Text → Datum → TaskState → ℕ → Db → Db
  unfolding set_state
  store_task task encoded state now db =
      db ▷ write now task (hset msg_field encoded) ▷ set_state task state now

  -- enqueueCmd
  unfoldable pub enqueue_cmd : Text → Text → Text → Text → Datum → TaskState → Text → ℕ → Db → Db
  unfolding store_task
  enqueue_cmd task stream completed archived encoded state id now db =
      db
      ▷ store_task task encoded state now
      ▷ write now stream (xadd id)
      ▷ write now completed (zrem id)
      ▷ write now archived (zrem id)

  -- scheduleCmd
  unfoldable pub schedule_cmd :
      Text → Text → Text → Text → Datum → TaskState → ℕ → Text → ℕ → Db → Db
  unfolding store_task
  schedule_cmd task scheduled completed archived encoded state score id now db =
      db
      ▷ store_task task encoded state now
      ▷ write now scheduled (zadd score id)
      ▷ write now completed (zrem id)
      ▷ write now archived (zrem id)

  -- SET key value NX PX ttl: whether the key was set.
  unfoldable pub set_nx_px : Text → Text → ℕ → ℕ → Db → Bool × Db
  set_nx_px key value ttl now db = elim (get now (at db key)) [
    | some held ↦ (false, db)
    | none ↦ (true, write now key (set_px value ttl) db)
  ]

  -- enqueueUniqueCmd
  unfoldable pub enqueue_unique_cmd :
      Text → Text → Text → Text → Text → Text → ℕ → Datum → TaskState → ℕ → Db → ℤ × Db
  unfolding set_nx_px enqueue_cmd
  enqueue_unique_cmd lock task stream completed archived id ttl encoded state now db =
      let (acquired, db') = set_nx_px lock id ttl now db in
      if acquired
      then (pos 1, enqueue_cmd task stream completed archived encoded state id now db')
      else (negsuc 0, db')

  -- scheduleUniqueCmd
  unfoldable pub schedule_unique_cmd :
      Text → Text → Text → Text → Text → Text → ℕ → Datum → TaskState → ℕ → ℕ → Db → ℤ × Db
  unfolding set_nx_px schedule_cmd
  schedule_unique_cmd lock task scheduled completed archived id ttl encoded state score now db =
      let (acquired, db') = set_nx_px lock id ttl now db in
      if acquired
      then (pos 1, schedule_cmd task scheduled completed archived encoded state score id now db')
      else (negsuc 0, db')

  -- enqueuePeriodicCmd
  unfoldable pub enqueue_periodic_cmd :
      Text → Text → Text → Text → Text → Text → ℕ → Datum → TaskState → ℕ → Db → ℤ × Db
  unfolding set_nx_px enqueue_cmd
  enqueue_periodic_cmd dedup task stream completed archived id ttl encoded state now db =
      let (acquired, db') = set_nx_px dedup (codes "1") ttl now db in
      if acquired
      then (pos 1, enqueue_cmd task stream completed archived encoded state id now db')
      else (negsuc 0, db')

  -- chainEnqueueCmd
  unfoldable pub chain_enqueue_cmd : Text → Text → Datum → TaskState → Text → ℕ → Db → ℤ × Db
  unfolding store_task
  chain_enqueue_cmd task stream encoded state id now db =
      if exists (at db task)
      then (pos 0, db)
      else (pos 1, db ▷ store_task task encoded state now ▷ write now stream (xadd id))

  -- chainScheduleCmd
  unfoldable pub chain_schedule_cmd : Text → Text → Datum → TaskState → ℕ → Text → ℕ → Db → ℤ × Db
  unfolding store_task
  chain_schedule_cmd task scheduled encoded state score id now db =
      if exists (at db task)
      then (pos 0, db)
      else (pos 1, db ▷ store_task task encoded state now ▷ write now scheduled (zadd score id))

  -- requeueCmd
  unfoldable pub requeue_cmd : Text → Text → ℕ → Text → TaskState → ℕ → Db → Db
  unfolding set_state
  requeue_cmd stream task stream_id id state now db =
      let db' = db ▷ write now stream (xack stream_id) ▷ write now stream (xdel stream_id) in
      if exists (at db' task)
      then db' ▷ set_state task state now ▷ write now stream (xadd id)
      else db'

  -- moveToZSetCmd
  unfoldable pub move_to_zset_cmd :
      Text → Text → Text → ℕ → Datum → TaskState → ℕ → Text → ℕ → Db → Db
  unfolding store_task
  move_to_zset_cmd stream task zset stream_id encoded state score id now db =
      db
      ▷ write now stream (xack stream_id)
      ▷ write now stream (xdel stream_id)
      ▷ store_task task encoded state now
      ▷ write now zset (zadd score id)

  -- releaseUniqueCmd
  unfoldable pub release_unique_cmd : Text → Text → ℕ → Db → Db
  release_unique_cmd lock id now db = elim (get now (at db lock)) [
    | some holder ↦ if eq_text holder id then write now lock del db else db
    | none ↦ db
  ]

  -- acquireOrRenewCmd
  unfoldable pub acquire_or_renew_cmd : Text → Text → ℕ → ℕ → Db → ℤ × Db
  acquire_or_renew_cmd leader instance_id ttl now db = elim (get now (at db leader)) [
    | none ↦ (pos 1, write now leader (set_px instance_id ttl) db)
    | some cur ↦
        if eq_text cur instance_id then (pos 1, write now leader (pexpire ttl) db) else (pos 0, db)
  ]

  -- resignCmd
  unfoldable pub resign_cmd : Text → Text → ℕ → Db → ℤ × Db
  resign_cmd leader instance_id now db = elim (get now (at db leader)) [
    | none ↦ (pos 0, db)
    | some cur ↦ if eq_text cur instance_id then (pos 1, write now leader del db) else (pos 0, db)
  ]

  -- Whether a member's score is at most the cutoff.
  unfoldable pub is_due : ℕ → Option ℕ → Bool
  is_due cutoff none = false
  is_due cutoff (some s) = leb s cutoff

  unfoldable pub keep_due : ℕ → Value → List Text → List Text
  unfolding is_due
  keep_due cutoff v [] = []
  keep_due cutoff v (m ∷ ms) =
      let rest = keep_due cutoff v ms in if is_due cutoff (zscore v m) then m ∷ rest else rest

  -- ZRANGEBYSCORE key -inf cutoff LIMIT 0 max
  unfoldable pub zrange_by_score : ℕ → ℕ → Value → List Text
  unfolding keep_due
  zrange_by_score cutoff max v = take max (keep_due cutoff v (zrange v))

  -- The loop of forwardCmd.
  unfoldable pub forward_each : Text → Text → Text → TaskState → ℕ → List Text → Db → Db
  unfolding set_state
  forward_each source stream prefix state now [] db = db
  forward_each source stream prefix state now (id ∷ ids) db =
      forward_each source stream prefix state now ids (
        db
        ▷ write now stream (xadd id)
        ▷ set_state (prefix ++ id) state now
        ▷ write now source (zrem id))

  -- forwardCmd
  unfoldable pub forward_cmd : Text → Text → ℕ → ℕ → Text → TaskState → ℕ → Db → ℕ × Db
  unfolding zrange_by_score forward_each
  forward_cmd source stream cutoff max prefix state now db =
      let ids = zrange_by_score cutoff max (at db source) in
      (length ids, forward_each source stream prefix state now ids db)

  -- The loops of trimArchivedCmd.
  unfoldable pub delete_each : Text → Text → ℕ → List Text → Db → Db
  delete_each zset prefix now [] db = db
  delete_each zset prefix now (id ∷ ids) db =
      delete_each zset prefix now ids (db ▷ write now (prefix ++ id) del ▷ write now zset (zrem id))

  -- The second pass of trimArchivedCmd: the oldest beyond the size cap, at most a batch of them. A
  -- negative maxSize disables it.
  unfoldable pub excess : ℤ → ℕ → Value → List Text
  excess (negsuc n) batch v = []
  excess (pos max_size) batch v =
      let over = length (zrange v) - max_size in
      take (if ltb batch over then batch else over) (zrange v)

  -- trimArchivedCmd
  unfoldable pub trim_archived_cmd : Text → ℕ → ℕ → Text → ℤ → ℕ → Db → ℕ × Db
  unfolding zrange_by_score delete_each excess
  trim_archived_cmd zset cutoff batch prefix max_size now db =
      let expired = zrange_by_score cutoff batch (at db zset) in
      let db' = delete_each zset prefix now expired db in
      let over = excess max_size batch (at db' zset) in
      (length expired + length over, delete_each zset prefix now over db')

  -- ZREM key member: how many members it removes.
  unfoldable pub zrem_reply : Option ℕ → ℕ
  zrem_reply none = 0
  zrem_reply (some s) = 1

  unfoldable pub zrem_count : Text → Text → ℕ → Db → ℕ × Db
  unfolding zrem_reply
  zrem_count zset id now db = (zrem_reply (zscore (at db zset) id), write now zset (zrem id) db)

  -- runTaskCmd
  unfoldable pub run_task_cmd :
      Text → Text → Text → Text → Text → Text → Text → TaskState → ℕ → Db → ℤ × Db
  unfolding zrem_count set_state
  run_task_cmd scheduled retry archived completed stream task id state now db =
      let (n₁, db₁) = zrem_count scheduled id now db in
      let (n₂, db₂) = zrem_count retry id now db₁ in
      let (n₃, db₃) = zrem_count archived id now db₂ in
      let (n₄, db₄) = zrem_count completed id now db₃ in
      if n₁ + n₂ + n₃ + n₄ == 0
      then (pos 0, db₄)
      else if not (exists (at db₄ task))
      then (pos 0, db₄)
      else (pos 1, db₄ ▷ write now stream (xadd id) ▷ set_state task state now)
