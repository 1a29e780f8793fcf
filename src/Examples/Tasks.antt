-- ===== src/Examples/Tasks.antt =====
-- The operations on tasks at a concrete store, with calls that fail.
use chronos_go.Common.{
  none, ℕ, ◌≡◌, ◌≢◌, refl, inl, codes, ℤ, pos, negsuc, some, none, List, [], ◌∷◌, arith,
}
use chronos_go.Keys.Queues.{Lacks}
use chronos_go.Task.{TaskState, TaskMessage}
use chronos_go.Redis.{has_entry}
use chronos_go.World.{ok}
use chronos_go.Rdb.Enqueue.{second, enqueue}
use chronos_go.Rdb.Scripts.{acquire_or_renew_cmd, enqueue_periodic_cmd, set_nx_px}
use chronos_go.Rdb.Released.{IsLockKey}
use chronos_go.Rdb.Placed.{IsStored, IsCurrent, IsAppended, enqueue-Placed}
use chronos_go.Rdb.Once.{periodic_script, periodic_script-once}
use chronos_go.Rdb.Lease.{
  LeaderOp, acquire_or_renew, resign, leader_step, leader_run, refusals, AreOthers, lease-exclusive,
  lease-takeover,
}
use chronos_go.Server.Process.{process_failure, process_success, successor}
use chronos_go.Server.Parked.{IsSafe}
use chronos_go.Server.Kept.{process_failure-IsSafe, recover_message-IsSafe}
use chronos_go.Rdb.Consume.{recover_message}
use chronos_go.Server.Attempts.{IsUnacked}
use chronos_go.Server.Handover.{IsHandedOver, process_success-handover}
use chronos_go.Examples.Store.{store, still}
use chronos_go.Examples.Data.{keys, mail, body, sample, send_link, boom, one_lost, calm_world}

unlocked : IsLockKey keys mail sample.unique_key
unfolding IsLockKey
unlocked = inl refl

held : IsUnacked store keys mail 1 one_lost.db
unfolding store has_entry
held = refl

process_failure-IsSafe_example :
    IsSafe store keys mail 1 sample
      (process_failure store keys (λ n e. second) mail 1 sample boom one_lost).1.db
process_failure-IsSafe_example =
    process_failure-IsSafe store keys mail 1 (λ n e. second) sample boom one_lost refl unlocked held

recover_message-IsSafe_example :
    IsSafe store keys mail 1 sample
      (recover_message store keys mail 1 sample 1000000000
        (record { recovered = 0; archived = []; last_err = none })
        one_lost).1.db
recover_message-IsSafe_example =
    recover_message-IsSafe store keys mail 1 sample 1000000000
      (record { recovered = 0; archived = []; last_err = none }) one_lost unlocked held

clean : Lacks b'}' mail
clean = (refl, (refl, (refl, (refl, tt))))

apart : sample.id ≢ (successor sample send_link []).id
unfolding successor
apart e = ground arith

process_success-handover_example :
    IsHandedOver store keys mail 1 clean sample send_link [] clean
      (process_success store keys mail 1 sample one_lost)
process_success-handover_example =
    process_success-handover store keys mail 1 clean sample send_link [] clean one_lost refl refl
      unlocked apart held

calm : calm_world.turns ≡ []
unfolding store
calm = refl

encodes : (m : TaskMessage) → store.encode m ≡ some (body m)
unfolding store body
encodes m = refl

enqueue-Placed_example :
    let (res, after) = enqueue store keys sample calm_world in
    (res ≡ ok tt)
    × IsStored store keys sample
        (body (record sample { state = TaskState.pending }))
        TaskState.pending
        after.db
    × IsCurrent store keys sample after.db
    × IsAppended store keys sample calm_world.clock calm_world.db after.db
enqueue-Placed_example =
    enqueue-Placed store keys sample (body (record sample { state = TaskState.pending })) calm_world
      calm (encodes (record sample { state = TaskState.pending }))

abbrev first_fire : ℤ × store.Db
first_fire = periodic_script store keys mail sample (codes "t") 60 (body sample) 100 calm_world.db

fired : first_fire.0 ≡ pos 1
unfolding enqueue_periodic_cmd set_nx_px store still
fired = refl

periodic_script-once_example :
    periodic_script store keys mail sample (codes "t") 60 (body sample) 130 first_fire.1
    ≡ (negsuc 0, first_fire.1)
periodic_script-once_example =
    periodic_script-once store keys mail sample sample (codes "t") 60 60 (body sample) (body sample)
      100 130 calm_world.db fired (omega arith) (omega arith)

abbrev first_lease : ℤ × store.Db
first_lease = leader_step store keys (acquire_or_renew (codes "i") 60) 100 calm_world.db

granted : first_lease.0 ≡ pos 1
unfolding leader_step acquire_or_renew_cmd store still
granted = refl

abbrev rivals : List (ℕ × LeaderOp)
rivals = (110, acquire_or_renew (codes "j") 60) ∷ (120, resign (codes "j")) ∷ []

different : codes "i" ≢ codes "j"
different e = ground arith

others : AreOthers store keys (codes "i") 100 160 rivals
unfolding AreOthers
others = (different, omega arith, omega arith, (different, omega arith, omega arith, tt))

lease-exclusive_example :
    leader_run store keys rivals first_lease.1 ≡ (refusals store keys rivals, first_lease.1)
lease-exclusive_example =
    lease-exclusive store keys (codes "i") 60 100 rivals calm_world.db granted others

lease-takeover_example :
    (leader_step store keys (acquire_or_renew (codes "j") 60) 160 first_lease.1).0 ≡ pos 1
lease-takeover_example =
    lease-takeover store keys (codes "i") (codes "j") 60 60 100 160 calm_world.db granted
      (omega arith)
