-- ===== src/Examples/Views.antt =====
-- The Inspector's views, and a unique task with a delay, at concrete inputs.
use chronos_go.Common.{
  ◌≤◌, ◌*◌, ◌/◌, ◌+◌, ℕ, ◌+◌, ◌*◌, ◌≤◌, none, arith, ◌≡◌, refl, codes, some, List, [], ◌∷◌,
  if◌then◌else◌,
}
use chronos_go.Redis.{contains_text}
use chronos_go.ScheduleMeta.{ScheduleMeta}
use chronos_go.Task.{TaskState, TaskMessage}
use chronos_go.World.{ok, call}
use chronos_go.Rdb.Score.{score_second, schedule_score}
use chronos_go.Rdb.Enqueue.{schedule, second, millisecond, with_unique_key}
use chronos_go.Client.Options.{EnqueueOptions, default_options}
use chronos_go.Client.Dispatch.{dispatch_message}
use chronos_go.Client.Locked.{lock_key, dispatch_message-locks}
use chronos_go.Inspector.{inspect_task}
use chronos_go.Inspector.Found.{waiting_detail, inspect_task-schedule}
use chronos_go.Inspector.Status.{
  ScheduleFireInfo, times_in, info_ids, ids_of, fired_ids, merge_schedules,
  times_in-merge_schedules,
}
use chronos_go.Examples.Store.{store, still}
use chronos_go.Examples.Data.{keys, mail, sample, body, calm_world}

-- A nanosecond before a whole second, and the float64 of its score is that second.
abbrev almost_whole : ℕ
almost_whole = 1700000001 * second + 999999999

almost_whole-rounds : schedule_score almost_whole / score_second ≡ 1700000002
unfolding schedule_score
almost_whole-rounds = refl

nothing_fails : calm_world.turns ≡ []
unfolding store
nothing_fails = refl

encodes_sample :
    store.encode (record sample { state = TaskState.scheduled })
    ≡ some (body (record sample { state = TaskState.scheduled }))
unfolding store body
encodes_sample = refl

still_calm : (schedule store keys sample almost_whole calm_world).1.turns ≡ []
unfolding store schedule call
still_calm = refl

inspect_task-schedule_example :
    ((inspect_task store keys mail sample.id
        (schedule store keys sample almost_whole calm_world).1).0
      ≡ ok (waiting_detail store keys sample (schedule_score almost_whole)))
    × (almost_whole / second ≤ schedule_score almost_whole / score_second)
    × (schedule_score almost_whole / score_second ≤ almost_whole / second + 1)
inspect_task-schedule_example =
    inspect_task-schedule store keys sample (body (record sample { state = TaskState.scheduled }))
      almost_whole calm_world (schedule store keys sample almost_whole calm_world).1 nothing_fails
      encodes_sample refl still_calm refl (omega arith)

-- A schedule that is registered and has fired, and one that has only fired.
abbrev nightly : ScheduleMeta
nightly = record {
  id = codes "nightly";
  kind = codes "report";
  queue = mail;
  spec = codes "0 0 * * *";
  registered_at = 10;
  last_seen = 40;
}

abbrev both : List ScheduleFireInfo
both =
    record { id = codes "old"; last_fired = 5 }
    ∷ record { id = codes "nightly"; last_fired = 30 }
    ∷ []

times_in-merge_schedules_example :
    times_in (codes "nightly") (info_ids (merge_schedules 0 (nightly ∷ []) both)) ≡ (
      if contains_text (codes "nightly") (ids_of (nightly ∷ []))
      then times_in (codes "nightly") (ids_of (nightly ∷ []))
      else times_in (codes "nightly") (fired_ids both))
times_in-merge_schedules_example = times_in-merge_schedules (codes "nightly") 0 (nightly ∷ []) both

-- At five seconds, and unique for a second.
abbrev delayed_unique : EnqueueOptions
delayed_unique = record default_options { process_at = some (5 * second); unique_ttl = second }

abbrev locked_sample : TaskMessage
locked_sample = record (with_unique_key store keys (λ s. s) sample) { state = TaskState.scheduled }

encodes_locked : store.encode locked_sample ≡ some (body locked_sample)
unfolding store body
encodes_locked = refl

is_free :
    store.get calm_world.clock (store.at calm_world.db (lock_key store keys (λ s. s) sample)) ≡ none
unfolding store still
is_free = refl

starts_at_one : calm_world.clock ≡ second
unfolding store
starts_at_one = refl

dispatch_message-locks_example :
    ((dispatch_message store keys (λ s. s) sample delayed_unique calm_world).0 ≡ ok tt)
    × ((later : ℕ)
        → calm_world.clock ≤ later
        → later + millisecond ≤ 5 * second + delayed_unique.unique_ttl
        → store.get later (
            store.at
              (dispatch_message store keys (λ s. s) sample delayed_unique calm_world).1.db
              (lock_key store keys (λ s. s) sample))
          ≡ some sample.id)
dispatch_message-locks_example =
    dispatch_message-locks store keys (λ s. s) sample delayed_unique (body locked_sample)
      (5 * second) calm_world nothing_fails encodes_locked refl (omega (arith, starts_at_one))
      (omega arith) (omega arith) is_free
