-- ===== src/Client/Options.antt =====
-- chronos.go and codec.go: the options of a task, and its arguments. A zero time is `none`; the other
-- times are nanoseconds since the epoch, and durations are signed nanoseconds.
use chronos_go.Common.{
  ℕ, ◌+◌, ◌-◌, ◌/◌, ℤ, pos, negsuc, Text, codes, Bool, true, false, ltb, if◌then◌else◌, Option,
  none, some, List, [], ◌∷◌,
}
use chronos_go.Schedule
use chronos_go.Refusal.{Refusal, args_not_encodable}
use chronos_go.World.{Result, ok, err, refused_by_builder}
use chronos_go.Rdb.Enqueue.{second}

-- TaskArgs with what json.Marshal makes of it, if it can.
pub record TaskArgs : Type 0 where
  pub kind : Text
  pub json : Option Text

abbrev pub refuse : {A : Type 0} → Refusal → Result A
refuse e = err (refused_by_builder e)

-- encodeArgs
unfoldable pub encode_args : TaskArgs → Result Text
encode_args args = elim args.json [ none ↦ refuse args_not_encodable | some p ↦ ok p ]

pub record EnqueueOptions : Type 0 where
  pub queue : Text
  pub task_id : Text
  pub max_retry : ℕ
  pub no_archive : Bool
  pub process_at : Option ℕ
  pub process_at_absolute : Bool
  pub unique_ttl : ℕ
  pub misfire : Schedule.MisfirePolicy
  pub retention : ℕ

-- The values of the interface Option.
pub data EnqueueOption : Type 0 where
  with_queue with_task_id : Text → EnqueueOption
  with_max_retry : ℤ → EnqueueOption
  with_dead_letter_discard : EnqueueOption
  with_process_at : Option ℕ → EnqueueOption
  with_process_in : ℤ → EnqueueOption
  with_unique with_retention : ℤ → EnqueueOption
  with_misfire_policy : Schedule.MisfirePolicy → EnqueueOption

abbrev pub default_queue : Text
default_queue = codes "default"

abbrev pub default_max_retry : ℕ
default_max_retry = 25

-- time.Now().Add(d)
unfoldable pub add_duration : ℕ → ℤ → ℕ
add_duration now (pos d) = now + d
add_duration now (negsuc d) = now - (d + 1)

-- max(n, 0)
unfoldable pub not_negative : ℤ → ℕ
not_negative (pos n) = n
not_negative (negsuc n) = 0

unfoldable pub retention_of : ℤ → ℕ
retention_of (negsuc d) = 0
retention_of (pos d) = if ltb 0 d then (if ltb d second then second else d) else 0

unfoldable pub unique_ttl_of : ℤ → ℕ → ℕ
unique_ttl_of (negsuc d) before = before
unique_ttl_of (pos d) before = if ltb 0 d then d else before

-- apply, at a time
unfoldable pub apply : ℕ → EnqueueOption → EnqueueOptions → EnqueueOptions
unfolding add_duration not_negative retention_of unique_ttl_of
apply now (with_queue name) o = record o { queue = name }
apply now (with_task_id id) o = record o { task_id = id }
apply now (with_max_retry n) o = record o { max_retry = not_negative n }
apply now with_dead_letter_discard o = record o { no_archive = true }
apply now (with_process_at t) o = record o { process_at = t; process_at_absolute = true }
apply now (with_process_in d) o = record o { process_at = some (add_duration now d) }
apply now (with_unique ttl) o = record o { unique_ttl = unique_ttl_of ttl o.unique_ttl }
apply now (with_retention d) o = record o { retention = retention_of d }
apply now (with_misfire_policy p) o = record o { misfire = p }

abbrev pub default_options : EnqueueOptions
default_options = record {
  queue = default_queue;
  task_id = [];
  max_retry = default_max_retry;
  no_archive = false;
  process_at = none;
  process_at_absolute = false;
  unique_ttl = 0;
  misfire = Schedule.skip;
  retention = 0;
}

-- for _, opt := range opts { opt.apply(&o) }
unfoldable pub apply_all : ℕ → List EnqueueOption → EnqueueOptions → EnqueueOptions
unfolding apply
apply_all now [] o = o
apply_all now (opt ∷ opts) o = apply_all now opts (apply now opt o)

-- time.Until of a time that is set, and nothing of one that is not or is past.
unfoldable pub time_until : ℕ → Option ℕ → ℕ
time_until now none = 0
time_until now (some t) = t - now

-- What captureRelativeDelay makes of a wait: the nearest second, but no less than one. The wait is at
-- least half a second below the end of the range of time.Duration.
unfoldable pub whole_seconds : ℕ → ℕ
whole_seconds d =
    if ltb 0 d
    then (let delay = (d + second / 2) / second in if ltb 0 delay then delay else 1)
    else 0

-- captureRelativeDelay
unfoldable pub capture_relative_delay : ℕ → EnqueueOptions → ℕ
unfolding whole_seconds time_until
capture_relative_delay now o = whole_seconds (time_until now o.process_at)
