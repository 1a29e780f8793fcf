-- ===== src/Inspector/Found.antt =====
-- Inspector.GetTask, on what the client's Schedule has left.
use chronos_go.Common.{
  ℕ, ◌/◌, ◌+◌, ◌^◌, ◌≤◌, ◌<◌, ◌≡◌, refl, ap, ◌∙◌, eq_text, Option, none, some, [],
}
use chronos_go.Keys.{Keys, key_of, task, scheduled}
use chronos_go.Keys.Prefix.{is_nil}
use chronos_go.Redis.{Redis}
use chronos_go.Task.{TaskState, TaskMessage, state_text}
use chronos_go.World.{World, M, ok, bad_body, raise, pure, call}
use chronos_go.Rdb.Scripts.{msg_field}
use chronos_go.Rdb.Score.{second, score_second, schedule_score}
use chronos_go.Rdb.Rounded.{schedule_score-second}
use chronos_go.Rdb.Enqueue.{schedule}
use chronos_go.Rdb.Finish.{get_task, decode_message}
use chronos_go.Rdb.Calm.{call-calm}
use chronos_go.Rdb.Operator.{zset_key_for_state, zscore}
use chronos_go.Rdb.Placed.{IsStored, schedule-Placed}
use chronos_go.Inspector.{
  TaskDetail, task_info_from_msg, scored_detail, timed_detail, grouped_detail, task_detail,
  inspect_task,
}

module _ (r : Redis) (ks : Keys) (m : TaskMessage) where
  abbrev stored : TaskMessage
  stored = record m { state = TaskState.scheduled }

  -- What the Inspector shows of a scheduled task.
  abbrev pub waiting_detail : ℕ → TaskDetail
  waiting_detail at = record (task_info_from_msg stored) {
    next_process_at = some (at / score_second);
  }

  decode_message-stored :
      (d : r.Datum) (u : World r)
      → r.decode d ≡ some stored
      → decode_message r ks d u ≡ (ok stored, u)
  unfolding decode_message
  decode_message-stored d u decoded =
      ap
        (λ (o : Option TaskMessage).
          elim o as (λ _. M r TaskMessage) [ none ↦ raise bad_body | some n ↦ pure n ] u)
        decoded

  get_task-calm :
      (d : r.Datum) (u : World r)
      → u.turns ≡ []
      → r.hget (r.at u.db (key_of ks m.queue (task m.id))) msg_field ≡ some d
      → r.decode d ≡ some stored
      → get_task r ks m.queue m.id u ≡ (ok stored, record u { turns = [] })
  unfolding get_task
  get_task-calm d u calm there decoded =
      simp (call-calm _ u calm, there, decode_message-stored d (record u { turns = [] }) decoded)

  timed_detail-calm :
      (at : ℕ) (u : World r)
      → u.turns ≡ []
      → r.zscore (r.at u.db (key_of ks m.queue scheduled)) m.id ≡ some at
      → timed_detail r ks m.queue m.id (task_info_from_msg stored) u
        ≡ (ok (waiting_detail at), record u { turns = [] })
  unfolding timed_detail zset_key_for_state eq_text state_text task_info_from_msg scored_detail
      zscore
  timed_detail-calm at u calm waits = simp (call-calm _ u calm, waits)

  -- When all calls are answered, the message is encodable, the task is in no group and the whole
  -- second of the given time is below 2 ^ 53 - 1, then on the database that Schedule leaves, the
  -- Inspector's GetTask returns what the message says of the task, in the scheduled state, to be
  -- processed at the whole second of the score that scheduleScore makes of the given time, a
  -- float64, which is the whole second of that time or the one after it.
  pub inspect_task-schedule :
      (d : r.Datum) (process_at : ℕ) (w u : World r)
      → w.turns ≡ []
      → r.encode (record m { state = TaskState.scheduled }) ≡ some d
      → m.group_id ≡ []
      → u.turns ≡ []
      → u.db ≡ (schedule r ks m process_at w).1.db
      → process_at / second + 1 < 2 ^ 53
      → ((inspect_task r ks m.queue m.id u).0 ≡ ok (waiting_detail (schedule_score process_at)))
        × (process_at / second ≤ schedule_score process_at / score_second)
        × (schedule_score process_at / score_second ≤ process_at / second + 1)
  unfolding inspect_task task_detail grouped_detail is_nil IsStored eq_text state_text call
  inspect_task-schedule d process_at w u calm encoded alone calm_later same early =
      let placed = schedule-Placed r ks m d process_at w calm encoded in
      let there =
        ap (λ db. r.hget (r.at db (key_of ks m.queue (task m.id))) msg_field) same ∙ placed.1.0 in
      let waits =
        ap (λ db. r.zscore (r.at db (key_of ks m.queue scheduled)) m.id) same ∙ placed.3 in
      let (not_before, not_after) = schedule_score-second process_at early in
      let shown : (inspect_task r ks m.queue m.id u).0
          ≡ ok (waiting_detail (schedule_score process_at)) =
        simp (
          get_task-calm d u calm_later there (r.decode-encode stored d encoded),
          timed_detail-calm (schedule_score process_at) (record u { turns = [] }) refl waits,
          alone,
        ) in
      (shown, not_before, not_after)
