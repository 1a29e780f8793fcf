-- ===== src/Server/Process.antt =====
-- process, deadLetter and enqueueNext of server.go.
use chronos_go.Common.{
  ℕ, zero, suc, ◌+◌, ◌*◌, Text, codes, decimal, Bool, true, false, leb, ◌==◌, ◌||◌, if◌then◌else◌,
  Option, none, some, List, [], ◌∷◌, ◌++◌, length,
}
use chronos_go.Keys.{Keys}
use chronos_go.Keys.Prefix.{is_nil}
use chronos_go.Task.{TaskState, TaskMessage, ChainLink, GroupMemberLink, state_number}
use chronos_go.Redis.{Redis, contains_text}
use chronos_go.World.{M, Result, ok, err, redis_nil, pure, raise, time_now, attempt, ◌>>=◌, ◌>>◌}
use chronos_go.Rdb.Enqueue.{second, enqueue_chain_link}
use chronos_go.Rdb.Finish.{retry, archive, done, get_task, task_state}
use chronos_go.Rdb.Group.{
  GroupStageState, stage_done, stage_exists, stage_created, link_message, create_group_if_absent,
  complete_group_member, group_members,
}
use chronos_go.Retry.{GoError, as_skip_retry, error_text}

-- What a handler returns: for a success, the result that AddHandlerR stores in the message, or
-- nothing.
pub data Outcome : Type 0 where
  succeeded : Text → Outcome
  failed : GoError → Outcome

-- TaskOutcome, as reported to Metrics; none is reported where process returns before.
pub data TaskOutcome : Type 0 where
  outcome_success outcome_retry outcome_dead_letter unreported : TaskOutcome

-- fmt.Sprintf("%s:%d", chainID, index)
unfoldable pub link_id : Text → ℕ → Text
link_id chain_id index = chain_id ++ b':' ∷ decimal index

-- fmt.Sprintf("%s:m%d", groupID, j)
unfoldable pub member_id : Text → ℕ → Text
member_id group_id j = group_id ++ b':' ∷ b'm' ∷ decimal j

-- The IDs of the members from index j on.
unfoldable pub member_ids : Text → ℕ → List GroupMemberLink → List Text
unfolding member_id
member_ids group_id j [] = []
member_ids group_id j (m ∷ ms) = member_id group_id j ∷ member_ids group_id (suc j) ms

-- The successor that enqueueNext makes of a link.
unfoldable pub successor : TaskMessage → ChainLink → List ChainLink → TaskMessage
unfolding link_id
successor msg link tail = record (link_message (link_id msg.chain_id (msg.chain_index + 1)) link) {
  chain = tail;
  chain_id = msg.chain_id;
  chain_index = msg.chain_index + 1;
  prev_result = msg.result;
  group_id = msg.group_id;
  group_queue = msg.group_queue;
  group_callback = msg.group_callback;
  group_index = msg.group_index;
  group_size = msg.group_size;
  group_member_id = msg.group_member_id;
}

-- The link that a stage's members carry as their callback.
unfoldable pub callback_link : ChainLink → ChainLink
callback_link link = record link { group = [] }

-- Member j of a stage.
unfoldable pub stage_member :
    TaskMessage → ChainLink → List ChainLink → ℕ → GroupMemberLink → TaskMessage
unfolding link_id member_id callback_link
stage_member msg link tail j m =
    let group_id = link_id msg.chain_id (msg.chain_index + 1) in
    record (link_message (member_id group_id j) link) {
      kind = m.kind;
      payload = m.payload;
      queue = m.queue;
      max_retry = m.max_retry;
      no_archive = false;
      retention = m.retention;
      group_id = group_id;
      group_queue = link.queue;
      group_callback = some (callback_link link);
      group_index = j;
      group_size = length link.group;
      group_callback_chain = tail;
      chain_id = msg.chain_id;
      chain_index = msg.chain_index + 1;
      prev_result = msg.result;
    }

module _ (r : Redis) (ks : Keys) where
  -- The rest of drainCompletedStageMember, for a member in state completed.
  unfoldable pub drain_stored : Result TaskMessage → M r Unit
  drain_stored (ok stored) = complete_group_member r ks stored >> pure tt
  drain_stored (err redis_nil) = pure tt
  drain_stored (err e) = raise e

  unfoldable pub drain_in_state : Text → Text → Result ℕ → M r Unit
  unfolding drain_stored state_number
  drain_in_state q id (ok n) =
      if n == state_number TaskState.completed
      then attempt (get_task r ks q id) drain_stored
      else pure tt
  drain_in_state q id (err redis_nil) = pure tt
  drain_in_state q id (err e) = raise e

  -- drainCompletedStageMember
  unfoldable pub drain_completed_stage_member : Text → Text → M r Unit
  unfolding drain_in_state
  drain_completed_stage_member q id = attempt (task_state r ks q id) (drain_in_state q id)

  -- Whether a member is to be enqueued: all are in a new stage, and in one that is under way those
  -- still pending.
  unfoldable pub is_wanted : Option (List Text) → Text → Bool
  is_wanted none id = true
  is_wanted (some pending) id = contains_text id pending

  -- One round of the loop over the members.
  unfoldable pub enqueue_member : TaskMessage → ℕ → M r Unit
  unfolding drain_completed_stage_member
  enqueue_member member delay = do
    created ← enqueue_chain_link r ks member (delay * second)
    if created then pure tt else drain_completed_stage_member member.queue member.id

  -- The loop over the members from index j on.
  unfoldable pub enqueue_members :
      TaskMessage
      → ChainLink
      → List ChainLink
      → Option (List Text)
      → ℕ
      → List GroupMemberLink
      → M r Unit
  unfolding stage_member is_wanted enqueue_member
  enqueue_members msg link tail pending j [] = pure tt
  enqueue_members msg link tail pending j (m ∷ ms) =
      let member = stage_member msg link tail j m in
      let rest = enqueue_members msg link tail pending (suc j) ms in
      if is_wanted pending member.id then enqueue_member member m.delay >> rest else rest

  unfoldable pub enqueue_stage :
      TaskMessage → ChainLink → List ChainLink → GroupStageState → M r Unit
  unfolding link_id enqueue_members
  enqueue_stage msg link tail stage_done = pure tt
  enqueue_stage msg link tail stage_exists = do
    ids ← group_members r ks link.queue (link_id msg.chain_id (msg.chain_index + 1))
    enqueue_members msg link tail (some ids) 0 link.group
  enqueue_stage msg link tail stage_created = enqueue_members msg link tail none 0 link.group

  -- enqueueNextGroup
  unfoldable pub enqueue_next_group : TaskMessage → ChainLink → List ChainLink → M r Unit
  unfolding link_id member_ids enqueue_stage
  enqueue_next_group msg link tail =
      let group_id = link_id msg.chain_id (msg.chain_index + 1) in
      do
        state ←
            create_group_if_absent r ks link.queue group_id (member_ids group_id 0 link.group)
              (group_id ++ codes ":cb")
        enqueue_stage msg link tail state

  -- The two branches of enqueueNext: a plain link, and a stage of several members.
  unfoldable pub enqueue_link :
      TaskMessage → ChainLink → List ChainLink → List GroupMemberLink → M r Unit
  unfolding successor enqueue_next_group
  enqueue_link msg link tail [] =
      enqueue_chain_link r ks (successor msg link tail) (link.delay * second) >> pure tt
  enqueue_link msg link tail (m ∷ ms) = enqueue_next_group msg link tail

  -- enqueueNext, for a message whose chain is link and tail.
  unfoldable pub enqueue_next : TaskMessage → ChainLink → List ChainLink → M r Unit
  unfolding enqueue_link
  enqueue_next msg link tail = enqueue_link msg link tail link.group

  -- The attempts of enqueueNextWithRetry and completeGroupWithRetry, as many as are left; the pauses
  -- between them change nothing but the time.
  unfoldable pub with_retry : ℕ → M r Unit → M r Unit
  with_retry zero action = action
  with_retry (suc n) action =
      attempt action (λ res. elim res [ ok _ ↦ pure tt | err e ↦ with_retry n action ])

  -- Three attempts: two more after the first.
  unfoldable pub three_times : M r Unit → M r Unit
  unfolding with_retry
  three_times action = with_retry 2 action

  -- deadLetter, without its report to OnDeadLetter, which changes no state of the queue
  unfoldable pub dead_letter : Text → ℕ → TaskMessage → GoError → M r Unit
  dead_letter q stream_id msg cause =
      let m : TaskMessage = record msg { last_err = error_text cause; completed_at = 0 } in
      if m.no_archive
      then attempt (done r ks q stream_id (record m { retention = 0 })) (λ _. pure tt)
      else attempt (time_now >>= archive r ks q stream_id m) (λ _. pure tt)

  -- The end of process for a success: the ack.
  unfoldable pub acknowledge : Text → ℕ → TaskMessage → M r TaskOutcome
  acknowledge q stream_id msg = attempt (done r ks q stream_id msg) (λ _. pure outcome_success)

  -- A step before the ack whose failure leaves the task for redelivery.
  abbrev pub unless_failed : M r TaskOutcome → Result (Unit {0}) → M r TaskOutcome
  unless_failed next (ok _) = next
  unless_failed next (err e) = pure unreported

  -- What precedes the ack, for a message with that chain: the successor, or the report to a group.
  unfoldable pub hand_over : Text → ℕ → TaskMessage → List ChainLink → M r TaskOutcome
  unfolding acknowledge three_times enqueue_next
  hand_over q stream_id msg (link ∷ tail) =
      attempt (three_times (enqueue_next msg link tail))
        (unless_failed (acknowledge q stream_id (record msg { chain = [] })))
  hand_over q stream_id msg [] =
      if is_nil msg.group_id
      then acknowledge q stream_id msg
      else attempt (three_times (complete_group_member r ks msg >> pure tt))
          (unless_failed (acknowledge q stream_id msg))

  -- The branch of process for a success.
  unfoldable pub process_success : Text → ℕ → TaskMessage → M r TaskOutcome
  unfolding hand_over
  process_success q stream_id msg = hand_over q stream_id msg msg.chain

  -- The branch of process for a failure. The retry delay is a setting.
  unfoldable pub process_failure :
      (ℕ → GoError → ℕ) → Text → ℕ → TaskMessage → GoError → M r TaskOutcome
  unfolding dead_letter
  process_failure retry_delay q stream_id msg e =
      if as_skip_retry e || leb msg.max_retry msg.retried
      then dead_letter q stream_id msg e >> pure outcome_dead_letter
      else (let m : TaskMessage = record msg {
        retried = msg.retried + 1;
        last_err = error_text e;
        completed_at = 0;
      } in
          do
            t ← time_now
            attempt (retry r ks q stream_id m (t + retry_delay m.retried e))
                (λ _. pure outcome_retry))

  -- process
  unfoldable pub process : (ℕ → GoError → ℕ) → Text → ℕ → TaskMessage → Outcome → M r TaskOutcome
  unfolding process_success process_failure
  process retry_delay q stream_id msg (succeeded result) =
      process_success q stream_id (if is_nil result then msg else record msg { result = result })
  process retry_delay q stream_id msg (failed e) = process_failure retry_delay q stream_id msg e
