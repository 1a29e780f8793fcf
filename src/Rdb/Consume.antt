-- ===== src/Rdb/Consume.antt =====
-- The methods of RDB that hand tasks out and take stuck ones back: rdb.go and recover.go.
use chronos_go.Common.{
  ℕ, ◌+◌, Text, leb, ltb, if◌then◌else◌, Option, none, some, List, [], ◌∷◌, ◌++◌, take, map,
}
use chronos_go.Keys.{Keys, key_of, stream, task}
use chronos_go.Task.{TaskState, TaskMessage}
use chronos_go.Redis.{Redis, Entry, xack, xdel, xclaim, xreadgroup}
use chronos_go.World.{
  M, Result, ok, err, Failure, redis_nil, no_task, pure, raise, time_now, call, attempt, ◌>>=◌,
  ◌>>◌,
}
use chronos_go.Rdb.Scripts.{set_state, msg_field, ◌▷◌}
use chronos_go.Rdb.Enqueue.{run}
use chronos_go.Rdb.Finish.{retry, archive, hget_field, decode_message}

-- Dequeued
pub record Dequeued : Type 0 where
  pub msg : TaskMessage
  pub stream_id : ℕ

-- What a sweep of Recover has done so far.
pub record Recovery : Type 0 where
  pub recovered : ℕ
  pub archived : List TaskMessage
  pub last_err : Option Failure

module _ (r : Redis) (ks : Keys) where
  -- XACK and XDEL of some entries, in one transaction.
  unfoldable pub drop_entries : Text → List ℕ → ℕ → r.Db → r.Db
  drop_entries q [] t db = db
  drop_entries q (i ∷ is) t db =
      drop_entries q is t
        (db ▷ r.write t (key_of ks q stream) (xack i) ▷ r.write t (key_of ks q stream) (xdel i))

  -- The bodies of the entries, read in one round trip.
  unfoldable pub read_bodies : Text → List Entry → r.Db → List (Option r.Datum)
  read_bodies q [] db = []
  read_bodies q (e ∷ es) db =
      r.hget (r.at db (key_of ks q (task e.task_id))) msg_field ∷ read_bodies q es db

  -- The loop of DequeueBatch over the bodies: the decoded tasks, and the entries without a body.
  unfoldable pub sort_out : List Entry → List (Option r.Datum) → List Dequeued × List ℕ
  sort_out [] bodies = ([], [])
  sort_out (e ∷ es) [] = ([], [])
  sort_out (e ∷ es) (none ∷ bodies) =
      let (tasks, orphans) = sort_out es bodies in (tasks, e.stream_id ∷ orphans)
  sort_out (e ∷ es) (some raw ∷ bodies) =
      let (tasks, orphans) = sort_out es bodies in
      elim (r.decode raw) [
        | none ↦ (tasks, orphans)
        | some m ↦ (
          record { msg = record m { state = TaskState.active }; stream_id = e.stream_id } ∷ tasks,
          orphans,
        )
      ]

  unfoldable pub mark_active : Text → List Dequeued → ℕ → r.Db → r.Db
  unfolding set_state
  mark_active q [] t db = db
  mark_active q (d ∷ ds) t db =
      mark_active q ds t (set_state r (key_of ks q (task d.msg.id)) TaskState.active t db)

  -- XREADGROUP, with the entries that it delivers.
  unfoldable pub read_group : Text → ℕ → ℕ → r.Db → List Entry × r.Db
  read_group q count t db = (
    take count (r.ready (r.at db (key_of ks q stream))),
    r.write t (key_of ks q stream) (xreadgroup count) db,
  )

  unfoldable pub drop_orphans : Text → List ℕ → M r Unit
  unfolding drop_entries
  drop_orphans q [] = pure tt
  drop_orphans q (i ∷ is) = attempt (run r (drop_entries q (i ∷ is))) (λ _. pure tt)

  -- The part of DequeueBatch behind the loop.
  unfoldable pub hand_out : Text → List Dequeued → M r (List Dequeued)
  unfolding mark_active
  hand_out q [] = raise no_task
  hand_out q (d ∷ ds) = run r (mark_active q (d ∷ ds)) >> pure (d ∷ ds)

  unfoldable pub load_tasks : Text → List Entry → M r (List Dequeued)
  unfolding read_bodies sort_out drop_orphans hand_out
  load_tasks q [] = raise no_task
  load_tasks q (e ∷ es) = do
    bodies ← call (λ t db. (read_bodies q (e ∷ es) db, db))
    let parts : List Dequeued × List ℕ = sort_out (e ∷ es) bodies
    drop_orphans q parts.1
    hand_out q parts.0

  -- DequeueBatch
  unfoldable pub dequeue_batch : Text → ℕ → M r (List Dequeued)
  unfolding read_group load_tasks
  dequeue_batch q count = do
    entries ← call (read_group q (if ltb count 1 then 1 else count))
    load_tasks q entries

  -- XAUTOCLAIM, with the entries that it claims.
  unfoldable pub auto_claim : Text → ℕ → ℕ → ℕ → r.Db → List Entry × r.Db
  auto_claim q min_idle max t db =
      let entries = take max (r.idle_entries t min_idle (r.at db (key_of ks q stream))) in
      (entries, r.write t (key_of ks q stream) (xclaim (map (λ e. e.stream_id) entries)) db)

  -- The part of Recover's loop that has the message: the reclaim counts as one failed attempt.
  unfoldable pub recover_message : Text → ℕ → TaskMessage → ℕ → Recovery → M r Recovery
  unfolding retry archive
  recover_message q stream_id m t acc =
      if leb m.max_retry m.retried
      then attempt (archive r ks q stream_id m t) (λ res. elim res [
        | ok _ ↦
            pure (record acc {
              archived = acc.archived ++ record m { state = TaskState.archived } ∷ [];
            })
        | err e ↦ pure (record acc { last_err = some e })
      ])
      else (let again : TaskMessage = record m { retried = m.retried + 1 } in
          attempt (retry r ks q stream_id again t) (λ res. elim res [
            | ok _ ↦ pure (record acc { recovered = acc.recovered + 1 })
            | err e ↦ pure (record acc { last_err = some e })
          ]))

  unfoldable pub recover_raw : Text → Entry → ℕ → Recovery → Result r.Datum → M r Recovery
  unfolding drop_entries decode_message recover_message
  recover_raw q e t acc (err redis_nil) =
      attempt (run r (drop_entries q (e.stream_id ∷ []))) (λ _. pure acc)
  recover_raw q e t acc (err failure) = pure (record acc { last_err = some failure })
  recover_raw q e t acc (ok raw) = attempt (decode_message r ks raw) (λ res. elim res [
    | ok m ↦ recover_message q e.stream_id m t acc
    | err failure ↦ pure (record acc { last_err = some failure })
  ])

  -- The body of Recover's loop.
  unfoldable pub recover_entry : Text → Entry → ℕ → Recovery → M r Recovery
  unfolding recover_raw
  recover_entry q e t acc = attempt (hget_field r ks q e.task_id msg_field) (recover_raw q e t acc)

  unfoldable pub recover_loop : Text → List Entry → ℕ → Recovery → M r Recovery
  unfolding recover_entry
  recover_loop q [] t acc = pure acc
  recover_loop q (e ∷ es) t acc = do acc' ← recover_entry q e t acc; recover_loop q es t acc'

  -- Recover
  unfoldable pub recover : Text → ℕ → ℕ → M r Recovery
  unfolding auto_claim recover_loop
  recover q min_idle max = do
    entries ← call (auto_claim q min_idle max)
    t ← time_now
    recover_loop q entries t (record { recovered = 0; archived = []; last_err = none })
