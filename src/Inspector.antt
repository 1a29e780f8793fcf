-- ===== src/Inspector.antt =====
-- inspector.go: the operators' view of the queues, of a task and of the schedules.
pub mod Status
pub mod Found
use chronos_go.Common.{
  ℕ, ◌/◌, ◌-◌, ltb, Text, codes, decimal, Bool, true, false, ◌&&◌, if◌then◌else◌, Option, none,
  some, List, [], ◌∷◌, ◌++◌, length, map, ℤ, not,
}
use chronos_go.Keys.{Keys}
use chronos_go.Keys.Prefix.{is_nil}
use chronos_go.Redis.{Redis, contains_text}
use chronos_go.Task.{TaskMessage, ChainLink, GroupMemberLink, state_text}
use chronos_go.ScheduleMeta.{ScheduleMeta}
use chronos_go.World.{
  M, Result, ok, err, redis_nil, invalid_state, task_not_found, pure, raise, attempt, time_now,
  ◌>>=◌,
}
use chronos_go.Rdb.Score.{score_second}
use chronos_go.Rdb.Finish.{get_task}
use chronos_go.Rdb.Operator.{
  QueueStats, ZsetTask, queue_stats, queues, paused_queues, list_zset_tasks, zset_key_for_state,
  zscore, group_pending, leader_id,
}
use chronos_go.Rdb.Registry.{list_schedules}

pub record QueueInfo : Type 0 where
  pub stats : QueueStats
  pub paused : Bool

-- TaskInfo as the Inspector fills it; a zero time is `none`.
pub record TaskDetail : Type 0 where
  pub id : Text
  pub kind : Text
  pub queue : Text
  pub state : Text
  pub payload : Text
  pub retried : ℕ
  pub max_retry : ℕ
  pub last_err : Text
  pub next_process_at : Option ℕ
  pub completed_at : Option ℕ
  pub chain_pending : ℕ
  pub chain_index : ℕ
  pub chain_next : List Text
  pub group_id : Text
  pub group_pending : ℕ
  pub group_queue : Text
  pub has_result : Bool
  pub result_size : ℕ

-- The name of a link behind a task; the bytes are those of an arrow.
unfoldable pub link_name : Text → List GroupMemberLink → Text
link_name kind [] = kind
link_name kind (g ∷ gs) =
    codes "group[" ++ decimal (length (g ∷ gs)) ++ codes "]" ++ 226 ∷ 134 ∷ 146 ∷ kind

-- taskInfoFromMsg
unfoldable pub task_info_from_msg : TaskMessage → TaskDetail
unfolding link_name
task_info_from_msg m = record {
  id = m.id;
  kind = m.kind;
  queue = m.queue;
  state = state_text m.state;
  payload = m.payload;
  retried = m.retried;
  max_retry = m.max_retry;
  last_err = m.last_err;
  next_process_at = none;
  completed_at = if ltb 0 m.completed_at then some m.completed_at else none;
  chain_pending = length m.chain;
  chain_index = m.chain_index;
  chain_next = map (λ (l : ChainLink). link_name l.kind l.group) m.chain;
  group_id = m.group_id;
  group_pending = 0;
  group_queue = m.group_queue;
  has_result = not (is_nil m.result);
  result_size = length m.result;
}

-- One entry of ListTasks; the score in whole seconds.
unfoldable pub listed_task : ZsetTask → TaskDetail
unfolding task_info_from_msg
listed_task e = record (task_info_from_msg e.msg) {
  next_process_at = some (e.score / score_second);
}

module _ (r : Redis) (ks : Keys) where
  -- The loop of Queues
  unfoldable pub queue_infos : List Text → List Text → M r (List QueueInfo)
  unfolding queue_stats contains_text
  queue_infos paused [] = pure []
  queue_infos paused (name ∷ names) = do
    st ← queue_stats r ks name
    infos ← queue_infos paused names
    pure (record { stats = st; paused = contains_text st.queue paused } ∷ infos)

  -- Queues
  unfoldable pub all_queues : M r (List QueueInfo)
  unfolding queues paused_queues queue_infos
  all_queues = do names ← queues r ks; paused ← paused_queues r ks; queue_infos paused names

  -- ListTasks
  unfoldable pub list_tasks : Text → Text → ℤ → M r (List TaskDetail)
  unfolding zset_key_for_state list_zset_tasks
  list_tasks q state limit = elim (zset_key_for_state ks q state) [
    | none ↦ raise (invalid_state state)
    | some key ↦ do entries ← list_zset_tasks r ks q key limit; pure (map listed_task entries)
  ]

  -- GetTask: when the task is to be processed, if its state is in a sorted set
  unfoldable pub scored_detail : TaskDetail → Result (Option ℕ) → M r TaskDetail
  scored_detail ti (ok (some score)) =
      pure (record ti { next_process_at = some (score / score_second) })
  scored_detail ti (ok none) = pure ti
  scored_detail ti (err e) = pure ti

  unfoldable pub timed_detail : Text → Text → TaskDetail → M r TaskDetail
  unfolding zscore scored_detail zset_key_for_state
  timed_detail q id ti = elim (zset_key_for_state ks q ti.state) [
    | none ↦ pure ti
    | some key ↦ attempt (zscore r ks key id) (scored_detail ti)
  ]

  -- How many members of its group are pending, if that can be read
  unfoldable pub counted_detail : TaskDetail → Result ℕ → M r TaskDetail
  counted_detail ti (ok n) = pure (record ti { group_pending = n })
  counted_detail ti (err e) = pure ti

  unfoldable pub grouped_detail : TaskMessage → TaskDetail → M r TaskDetail
  unfolding group_pending counted_detail is_nil
  grouped_detail m ti =
      if not (is_nil m.group_id) && not (is_nil m.group_queue)
      then attempt (group_pending r ks m.group_queue m.group_id) (counted_detail ti)
      else pure ti

  unfoldable pub task_detail : Text → Text → Result TaskMessage → M r TaskDetail
  unfolding task_info_from_msg timed_detail grouped_detail
  task_detail q id (err redis_nil) = raise (task_not_found id q)
  task_detail q id (err e) = raise e
  task_detail q id (ok m) = do ti ← timed_detail q id (task_info_from_msg m); grouped_detail m ti

  -- Inspector.GetTask
  unfoldable pub inspect_task : Text → Text → M r TaskDetail
  unfolding get_task task_detail
  inspect_task q id = attempt (get_task r ks q id) (task_detail q id)
