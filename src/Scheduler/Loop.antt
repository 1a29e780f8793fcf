-- ===== src/Scheduler/Loop.antt =====
-- scheduler.go: the start, the rounds of the loop and the end of a scheduler, with the registry.
use chronos_go.Common.{ℕ, ◌-◌, Text, Bool, true, false, if◌then◌else◌, List}
use chronos_go.Keys.{Keys}
use chronos_go.Redis.{Redis}
use chronos_go.World.{M, Result, ok, err, pure, attempt, time_now, ◌>>=◌, ◌>>◌}
use chronos_go.Rdb.Sweep.{acquire_or_renew_leadership, resign_leadership}
use chronos_go.Rdb.Registry.{register_schedules, touch_schedules, prune_schedules}
use chronos_go.Inspector.Status.{stale_after}
use chronos_go.Scheduler.{ScheduleEntry, schedule_ids, schedule_metas, fire_due}

-- isLeader after tryElect, by the reply
unfoldable pub elected : Bool → Result Bool → Bool
elected is_leader (ok granted) = granted
elected is_leader (err e) = is_leader

module _ (r : Redis) (ks : Keys) (leader_ttl : ℕ) where
  -- tryElect: isLeader before and after
  unfoldable pub try_elect : Text → Bool → M r Bool
  unfolding elected
  try_elect instance_id is_leader =
      attempt (acquire_or_renew_leadership r ks instance_id leader_ttl)
        (λ res. pure (elected is_leader res))

  -- pruneRegistry. The time is far enough from the epoch for the subtraction.
  unfoldable pub prune_registry : List ScheduleEntry → M r Unit
  unfolding schedule_ids
  prune_registry entries = do
    now ← time_now
    attempt (prune_schedules r ks (schedule_ids entries) (now - stale_after)) (λ _. pure tt)

  -- The registry's part of a renewal.
  unfoldable pub renew_registry : List ScheduleEntry → M r Unit
  unfolding prune_registry schedule_ids
  renew_registry entries =
      attempt (touch_schedules r ks (schedule_ids entries)) (λ _. prune_registry entries)

  -- Start, up to the start of the loop
  unfoldable pub start : List ScheduleEntry → M r Unit
  unfolding prune_registry schedule_metas
  start entries =
      attempt (register_schedules r ks (schedule_metas entries)) (λ _. prune_registry entries)

  -- What wakes the loop of run.
  pub data SchedulerEvent : Type 0 where
    renew_tick resign_notice fire_tick : SchedulerEvent

  -- One round of the loop of run.
  unfoldable pub run_round : Text → List ScheduleEntry → Bool → SchedulerEvent → M r Bool
  unfolding try_elect renew_registry fire_due
  run_round instance_id entries is_leader renew_tick = do
    leads ← try_elect instance_id is_leader
    renew_registry entries
    pure leads
  run_round instance_id entries is_leader resign_notice = try_elect instance_id is_leader
  run_round instance_id entries is_leader fire_tick =
      if is_leader then fire_due r ks leader_ttl entries >> pure is_leader else pure is_leader

  -- Shutdown, once the loop has been cancelled.
  unfoldable pub shutdown : Text → Bool → M r Unit
  shutdown instance_id true = attempt (resign_leadership r ks instance_id) (λ _. pure tt)
  shutdown instance_id false = pure tt
