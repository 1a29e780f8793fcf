-- ===== src/Client/Dispatch.antt =====
-- chronos.go: Enqueue, and the choice of the path into Redis.
use chronos_go.Common.{
  int64, until, above_zero, ℕ, ◌+◌, ◌/◌, Text, ltb, if◌then◌else◌, Option, none, some, List, [],
}
use chronos_go.Keys.{Keys}
use chronos_go.Keys.Prefix.{is_nil}
use chronos_go.Redis.{Redis}
use chronos_go.Task.{TaskState, TaskMessage}
use chronos_go.World.{M, Result, pure, time_now, ◌>>=◌, ◌>>◌}
use chronos_go.Rdb.Enqueue.{second, enqueue, schedule, enqueue_unique, schedule_unique}
use chronos_go.Client.Options.{
  TaskArgs, EnqueueOptions, EnqueueOption, default_options, apply_all, encode_args,
}

-- TaskInfo, as far as the enqueueing calls fill it.
pub record TaskInfo : Type 0 where
  pub id : Text
  pub kind : Text
  pub queue : Text
  pub chain_pending : ℕ

-- A message with what the options of a task say of it.
abbrev pub options_message : Text → Text → Text → EnqueueOptions → TaskMessage
options_message id kind payload o = record {
  id = id;
  kind = kind;
  payload = payload;
  queue = o.queue;
  state = TaskState.pending;
  retried = 0;
  max_retry = o.max_retry;
  no_archive = o.no_archive;
  unique_key = [];
  last_err = [];
  retention = o.retention / second;
  completed_at = 0;
  chain = [];
  chain_id = [];
  chain_index = 0;
  group_id = [];
  group_queue = [];
  group_callback = none;
  result = [];
  prev_result = [];
  group_results = [];
  group_index = 0;
  group_size = 0;
  group_member_id = [];
  group_callback_chain = [];
}

-- Code that does not touch the world and may refuse.
abbrev pub checked : {r : Redis} {A : Type 0} → Result A → M r A
checked res w = (res, w)

-- options.uniqueTTL + time.Until(options.processAt); uniqueTTLMillis makes a millisecond of all that
-- is shorter, so that nothing stands for a sum below zero.
unfoldable pub lock_ttl : ℕ → ℕ → ℕ → ℕ
lock_ttl unique_ttl now t = above_zero (int64 (unique_ttl + until now t))

module _ (r : Redis) (ks : Keys) (sha256_hex : Text → Text) where
  -- The cases of dispatchMessage, for a time that is after now or none that is.
  unfoldable pub dispatch_at : ℕ → TaskMessage → ℕ → Option ℕ → M r Unit
  unfolding lock_ttl
  dispatch_at now m unique_ttl none =
      if ltb 0 unique_ttl then enqueue_unique r ks sha256_hex m unique_ttl else enqueue r ks m
  dispatch_at now m unique_ttl (some t) =
      if ltb now t
      then (if ltb 0 unique_ttl
          then schedule_unique r ks sha256_hex m t (lock_ttl unique_ttl now t)
          else schedule r ks m t)
      else (if ltb 0 unique_ttl
          then enqueue_unique r ks sha256_hex m unique_ttl
          else enqueue r ks m)

  -- dispatchMessage
  unfoldable pub dispatch_message : TaskMessage → EnqueueOptions → M r Unit
  unfolding dispatch_at
  dispatch_message m o = do now ← time_now; dispatch_at now m o.unique_ttl o.process_at

  -- Enqueue, for the identifier that uuid.NewString returns.
  unfoldable pub enqueue_task : Text → TaskArgs → List EnqueueOption → M r TaskInfo
  unfolding dispatch_message apply_all is_nil encode_args
  enqueue_task uuid args opts = do
    now ← time_now
    let o : EnqueueOptions = apply_all now opts default_options
    let id : Text = if is_nil o.task_id then uuid else o.task_id
    payload ← checked (encode_args args)
    dispatch_message (options_message id args.kind payload o) o
    pure (record { id = id; kind = args.kind; queue = o.queue; chain_pending = 0 })
