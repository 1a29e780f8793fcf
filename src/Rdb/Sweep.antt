-- ===== src/Rdb/Sweep.antt =====
-- The methods of RDB that the maintenance loops call: forward.go and janitor.go; and leader.go.
use chronos_go.Common.{ℕ, ℤ, Text, Bool}
use chronos_go.Keys.{
  Keys, key_of, stream, retry, archived, completed, scheduled, task_key_prefix, leader_key,
}
use chronos_go.Task.{TaskState}
use chronos_go.Redis.{Redis}
use chronos_go.World.{M, pure, call, ◌>>=◌}
use chronos_go.Rdb.Scripts.{forward_cmd, trim_archived_cmd, acquire_or_renew_cmd, resign_cmd}
use chronos_go.Rdb.Score.{schedule_score}
use chronos_go.Rdb.Enqueue.{unix_score, unique_ttl_millis, is_one}

module _ (r : Redis) (ks : Keys) where
  -- ForwardRetry
  unfoldable pub forward_retry : Text → ℕ → ℕ → M r ℕ
  forward_retry q at max = call (
      forward_cmd r (key_of ks q retry) (key_of ks q stream) (unix_score at) max
        (task_key_prefix ks q) TaskState.pending)

  -- ForwardScheduled
  unfoldable pub forward_scheduled : Text → ℕ → ℕ → M r ℕ
  forward_scheduled q at max = call (
      forward_cmd r (key_of ks q scheduled) (key_of ks q stream) (schedule_score at) max
        (task_key_prefix ks q) TaskState.pending)

  -- TrimArchived
  unfoldable pub trim_archived : Text → ℕ → ℤ → ℕ → M r ℕ
  trim_archived q cutoff max_size batch = call (
      trim_archived_cmd r (key_of ks q archived) (unix_score cutoff) batch (task_key_prefix ks q)
        max_size)

  -- TrimCompleted
  unfoldable pub trim_completed : Text → ℕ → ℤ → ℕ → M r ℕ
  trim_completed q at max_size batch = call (
      trim_archived_cmd r (key_of ks q completed) (unix_score at) batch (task_key_prefix ks q)
        max_size)

  -- AcquireOrRenewLeadership
  unfoldable pub acquire_or_renew_leadership : Text → ℕ → M r Bool
  unfolding unique_ttl_millis is_one
  acquire_or_renew_leadership instance_id ttl = do
    n ← call (acquire_or_renew_cmd r (leader_key ks) instance_id (unique_ttl_millis ttl))
    pure (is_one r n)

  -- ResignLeadership, without the notice that it publishes to the followers.
  unfoldable pub resign_leadership : Text → M r ℤ
  resign_leadership instance_id = call (resign_cmd r (leader_key ks) instance_id)
