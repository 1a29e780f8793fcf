-- ===== src/Scheduler.antt =====
-- scheduler.go: the registration of schedules, the election, and the enqueueing of due triggers.
pub mod Loop
pub mod Seen
pub mod Fired
use chronos_go.Common.{
  ℕ, ◌+◌, ◌*◌, ◌/◌, ℤ, pos, negsuc, Text, codes, decimal, Bool, true, false, ltb, ◌==◌, ◌||◌,
  if◌then◌else◌, Option, none, some, List, [], ◌∷◌, ◌++◌, map, take,
}
use chronos_go.Keys.{Keys}
use chronos_go.Redis.{Redis}
use chronos_go.Task.{TaskState, TaskMessage}
use chronos_go.World.{
  M, Result, ok, err, Failure, duplicate_task, pure, attempt, time_now, ◌>>=◌, ◌>>◌,
}
use chronos_go.Schedule
use chronos_go.ScheduleMeta.{ScheduleMeta}
use chronos_go.Rdb.Enqueue.{second, enqueue_periodic}
use chronos_go.Rdb.Sweep.{acquire_or_renew_leadership, resign_leadership}
use chronos_go.Rdb.LastFired.{get_last_fired, set_last_fired}
use chronos_go.Client.Options.{
  TaskArgs, EnqueueOptions, EnqueueOption, default_options, apply_all, encode_args,
}

-- scheduleEntry, with its schedule's `Next`
pub record ScheduleEntry : Type 0 where
  pub id : Text
  pub kind : Text
  pub spec : Text
  pub payload : Text
  pub queue : Text
  pub max_retry : ℕ
  pub no_arch : Bool
  pub misfire : Schedule.MisfirePolicy
  pub retention : ℕ
  pub next : ℕ → ℕ

-- The default of newScheduler's LeaderTTL.
unfoldable pub leader_ttl_of : ℤ → ℕ
leader_ttl_of (negsuc n) = 5 * second
leader_ttl_of (pos n) = if ltb 0 n then n else 5 * second

-- renewEvery of run
unfoldable pub renew_every : ℕ → ℕ
renew_every leader_ttl =
    let half = leader_ttl / 2 in if ltb (20 * second) half then 20 * second else half

module _ (sha256_hex : Text → Text) where
  -- The kind, the specification, and the first eight bytes of the digest of queue and payload.
  unfoldable pub schedule_id : Text → Text → Text → Text → Text
  schedule_id kind spec queue payload =
      kind ++ codes ":" ++ spec ++ codes "#" ++ take 16 (sha256_hex (queue ++ 0 ∷ payload))

  -- register
  unfoldable pub register :
      ℕ
      → Text
      → (ℕ → ℕ)
      → Text
      → Text
      → List EnqueueOption
      → List ScheduleEntry
      → List ScheduleEntry
  unfolding schedule_id apply_all
  register now spec next kind payload opts entries =
      let o : EnqueueOptions = apply_all now opts default_options in
      entries
      ++ record {
        id = schedule_id kind spec o.queue payload;
        kind = kind;
        spec = spec;
        payload = payload;
        queue = o.queue;
        max_retry = o.max_retry;
        no_arch = o.no_archive;
        misfire = o.misfire;
        retention = o.retention;
        next = next;
      }
        ∷ []

-- scheduleIDs
unfoldable pub schedule_ids : List ScheduleEntry → List Text
schedule_ids entries = map (λ e. e.id) entries

-- scheduleMetas
unfoldable pub schedule_metas : List ScheduleEntry → List ScheduleMeta
schedule_metas entries =
    map
      (λ e. record {
        id = e.id;
        kind = e.kind;
        queue = e.queue;
        spec = e.spec;
        registered_at = 0;
        last_seen = 0;
      })
      entries

-- The identifier of a trigger: the same on every instance.
unfoldable pub trigger_id : ScheduleEntry → ℕ → Text
trigger_id e trigger = e.id ++ codes ":" ++ decimal (trigger / second)

abbrev pub trigger_message : ScheduleEntry → ℕ → TaskMessage
trigger_message e trigger = record {
  id = trigger_id e trigger;
  kind = e.kind;
  payload = e.payload;
  queue = e.queue;
  state = TaskState.pending;
  retried = 0;
  max_retry = e.max_retry;
  no_archive = e.no_arch;
  unique_key = [];
  last_err = [];
  retention = e.retention / second;
  completed_at = 0;
  chain = [];
  chain_id = [];
  chain_index = 0;
  group_id = [];
  group_queue = [];
  group_callback = none;
  result = [];
  prev_result = [];
  group_results = [];
  group_index = 0;
  group_size = 0;
  group_member_id = [];
  group_callback_chain = [];
}

-- What fireDue counts as a failure: every error but that of a duplicate.
unfoldable pub is_failure : Result (Unit {0}) → Bool
is_failure (ok tt) = false
is_failure (err duplicate_task) = false
is_failure (err e) = true

module _ (r : Redis) (ks : Keys) (leader_ttl : ℕ) where
  -- enqueueTrigger
  unfoldable pub enqueue_trigger : ScheduleEntry → ℕ → M r Unit
  unfolding trigger_id
  enqueue_trigger e trigger =
      enqueue_periodic r ks (trigger_message e trigger) (trigger_id e trigger) (10 * leader_ttl)

  -- The loop over the triggers of an entry: whether one has failed.
  unfoldable pub fire_all : ScheduleEntry → List ℕ → M r Bool
  unfolding enqueue_trigger is_failure
  fire_all e [] = pure false
  fire_all e (trigger ∷ triggers) =
      attempt (enqueue_trigger e trigger)
        (λ res. fire_all e triggers >>= λ failed. pure (is_failure res || failed))

  -- What lastFiredOrInit does with what it read.
  unfoldable pub last_or_init : Text → ℕ → Result (Option ℕ) → M r ℕ
  last_or_init id now (ok (some last)) = pure last
  last_or_init id now (ok none) = attempt (set_last_fired r ks id now) (λ _. pure now)
  last_or_init id now (err e) = attempt (set_last_fired r ks id now) (λ _. pure now)

  -- lastFiredOrInit
  unfoldable pub last_fired_or_init : ScheduleEntry → ℕ → M r ℕ
  unfolding last_or_init
  last_fired_or_init e now = attempt (get_last_fired r ks e.id) (last_or_init e.id now)

  -- What fireDue does after the triggers of an entry.
  unfoldable pub advance : Text → ℕ → ℕ → Bool → M r Unit
  advance id last new_last true = pure tt
  advance id last new_last false =
      if new_last == last then pure tt else attempt (set_last_fired r ks id new_last) (λ _. pure tt)

  -- The round of fireDue for one entry.
  unfoldable pub fire_entry : ℕ → ScheduleEntry → M r Unit
  unfolding last_fired_or_init fire_all advance
  fire_entry now e = do
    last ← last_fired_or_init e now
    let due : List ℕ × ℕ = Schedule.compute_fires e.next last now e.misfire
    failed ← fire_all e due.0
    advance e.id last due.1 failed

  unfoldable pub fire_entries : ℕ → List ScheduleEntry → M r Unit
  unfolding fire_entry
  fire_entries now [] = pure tt
  fire_entries now (e ∷ es) = fire_entry now e >> fire_entries now es

  -- fireDue
  unfoldable pub fire_due : List ScheduleEntry → M r Unit
  unfolding fire_entries
  fire_due entries = do now ← time_now; fire_entries now entries

-- RegisterInterval and RegisterCron, for what the cron package makes of an interval or of a
-- specification, and the text of an interval.
module _ (sha256_hex : Text → Text) (every : ℕ → ℕ → ℕ) (parse_standard : Text → Option (ℕ → ℕ))
    (duration_text : ℕ → Text) where
  unfoldable pub register_interval :
      ℕ → ℕ → TaskArgs → List EnqueueOption → List ScheduleEntry → Option (List ScheduleEntry)
  unfolding register encode_args
  register_interval now interval args opts entries =
      if ltb interval second then none else (elim (encode_args args) [
        | ok payload ↦ some (
            register sha256_hex now (codes "@every " ++ duration_text interval) (every interval)
              args.kind payload opts entries)
        | err e ↦ none
      ])

  unfoldable pub register_cron :
      ℕ → Text → TaskArgs → List EnqueueOption → List ScheduleEntry → Option (List ScheduleEntry)
  unfolding register encode_args
  register_cron now spec args opts entries = elim (parse_standard spec) [
    | none ↦ none
    | some next ↦ elim (encode_args args) [
      | ok payload ↦ some (register sha256_hex now spec next args.kind payload opts entries)
      | err e ↦ none
    ]
  ]
