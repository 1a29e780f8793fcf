-- ===== src/Rdb/Operator.antt =====
-- The reads and switches of the operators' tools: pause.go, and the parts of inspect.go and group.go
-- that look things up.
use chronos_go.Common.{
  ℕ, ◌+◌, ◌-◌, ℤ, pos, negsuc, ltb, Text, codes, eq_text, if◌then◌else◌, Option, none, some, List,
  [], ◌∷◌, length, take,
}
use chronos_go.Keys.{
  Keys, key_of, stream, scheduled, retry, archived, completed, group, queues_key, paused_key,
  leader_key,
}
use chronos_go.Redis.{Redis, sadd, srem}
use chronos_go.Task.{TaskMessage}
use chronos_go.World.{M, Result, ok, err, redis_nil, pure, raise, call, attempt, ◌>>=◌}
use chronos_go.Rdb.Enqueue.{run}
use chronos_go.Rdb.Group.{drop_lapsed, group_members}
use chronos_go.Rdb.Finish.{get_task}

-- ZSetKeyForState
unfoldable pub zset_key_for_state : Keys → Text → Text → Option Text
zset_key_for_state ks q state =
    if eq_text state (codes "scheduled")
    then some (key_of ks q scheduled)
    else if eq_text state (codes "retry")
    then some (key_of ks q retry)
    else if eq_text state (codes "archived")
    then some (key_of ks q archived)
    else if eq_text state (codes "completed")
    then some (key_of ks q completed)
    else none

-- QueueStats, the counts of a queue
pub record QueueStats : Type 0 where
  pub queue : Text
  pub pending : ℕ
  pub active : ℕ
  pub scheduled : ℕ
  pub retry : ℕ
  pub archived : ℕ
  pub completed : ℕ

-- ZSetTask
pub record ZsetTask : Type 0 where
  pub msg : TaskMessage
  pub score : ℕ

module _ (r : Redis) (ks : Keys) where
  -- PauseQueue
  unfoldable pub pause_queue : Text → M r Unit
  pause_queue q = run r (λ t. r.write t (paused_key ks) (sadd q))

  -- ResumeQueue
  unfoldable pub resume_queue : Text → M r Unit
  resume_queue q = run r (λ t. r.write t (paused_key ks) (srem q))

  -- A command that reads a key.
  abbrev pub look : {A : Type 0} → Text → (ℕ → r.Value → A) → M r A
  look key f = call (λ t db. (f t (r.at db key), db))

  -- PausedQueues
  unfoldable pub paused_queues : M r (List Text)
  paused_queues = look (paused_key ks) (λ t. r.members)

  -- Queues
  unfoldable pub queues : M r (List Text)
  queues = look (queues_key ks) (λ t. r.members)

  -- GroupMemberIDs
  unfoldable pub group_member_ids : Text → Text → M r (List Text)
  unfolding group_members
  group_member_ids cb_queue group_id = group_members r ks cb_queue group_id

  -- GroupPending
  unfoldable pub group_pending : Text → Text → M r ℕ
  unfolding drop_lapsed
  group_pending cb_queue group_id = call (λ t db.
      let key = key_of ks cb_queue (group group_id) in
      let db' = drop_lapsed r key t db in (length (r.members (r.at db' key)), db'))

  -- LeaderID
  unfoldable pub leader_id : M r Text
  leader_id = do
    holder ← look (leader_key ks) r.get
    pure (elim holder [ none ↦ [] | some id ↦ id ])

  -- XLEN counts the entries delivered and the entries not delivered, XPENDING the former.
  unfoldable pub queue_stats : Text → M r QueueStats
  queue_stats q = do
    xlen ← look (key_of ks q stream) (λ t v. length (r.ready v) + length (r.unacked v))
    active ← look (key_of ks q stream) (λ t v. length (r.unacked v))
    in_scheduled ← look (key_of ks q scheduled) (λ t v. length (r.zrange v))
    in_retry ← look (key_of ks q retry) (λ t v. length (r.zrange v))
    in_archived ← look (key_of ks q archived) (λ t v. length (r.zrange v))
    in_completed ← look (key_of ks q completed) (λ t v. length (r.zrange v))
    pure (record {
      queue = q;
      pending = xlen - active;
      active = active;
      scheduled = in_scheduled;
      retry = in_retry;
      archived = in_archived;
      completed = in_completed;
    })

  -- ZScore
  unfoldable pub zscore : Text → Text → M r (Option ℕ)
  zscore key id = look key (λ t v. r.zscore v id)

  -- What the loop of ListZSetTasks does with the task of one entry.
  unfoldable pub listed : ℕ → Result TaskMessage → M r (List ZsetTask) → M r (List ZsetTask)
  listed score (ok m) rest = do tasks ← rest; pure (record { msg = m; score = score } ∷ tasks)
  listed score (err redis_nil) rest = rest
  listed score (err e) rest = raise e

  unfoldable pub list_entries : Text → List (Text × ℕ) → M r (List ZsetTask)
  unfolding get_task listed
  list_entries q [] = pure []
  list_entries q ((id, score) ∷ entries) =
      attempt (get_task r ks q id) (λ res. listed score res (list_entries q entries))

  -- ZRANGE WITHSCORES: every member has a score.
  unfoldable pub scored : Text → Option ℕ → List (Text × ℕ) → List (Text × ℕ)
  scored id none entries = entries
  scored id (some score) entries = (id, score) ∷ entries

  unfoldable pub with_scores : List Text → r.Value → List (Text × ℕ)
  unfolding scored
  with_scores [] v = []
  with_scores (id ∷ ids) v = scored id (r.zscore v id) (with_scores ids v)

  -- ListZSetTasks, of at most so many
  unfoldable pub list_zset_tasks : Text → Text → ℤ → M r (List ZsetTask)
  unfolding list_entries with_scores
  list_zset_tasks q key (negsuc n) = pure []
  list_zset_tasks q key (pos limit) =
      if ltb 0 limit
      then (look key (λ t v. with_scores (take limit (r.zrange v)) v) >>= list_entries q)
      else pure []
