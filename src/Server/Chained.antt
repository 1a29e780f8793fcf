-- ===== src/Server/Chained.antt =====
-- internal/rdb/chain.go: EnqueueChainLink as enqueueNext calls it, and the entries of a delivered task.
use chronos_go.Common.{
  ℕ, ◌+◌, refl, Text, Bool, Bool-cases, Option, none, some, inl, inr, if◌then◌else◌, eq_text_refl,
  eq_text, ltb, ℤ,
}
use chronos_go.Keys.{Keys, key_of, stream, task, scheduled}
use chronos_go.Keys.Queues.{Lacks}
use chronos_go.Task.{TaskState, TaskMessage}
use chronos_go.Redis.{Redis, xadd, zadd}
use chronos_go.World.{World, M, Result, continue, time_now, pure, call, ok, err, ◌>>=◌}
use chronos_go.Rdb.Scripts.{store_task, set_state, chain_enqueue_cmd, chain_schedule_cmd}
use chronos_go.Rdb.Slots.{at-slot, at-queue, register_queue-at}
use chronos_go.Rdb.Calls.{encoded_as}
use chronos_go.Rdb.Enqueue.{encode_message, register_queue, is_one, enqueue_chain_link, unix_score}
use chronos_go.Server.Attempts.{WhenOk, IsUnacked, HasTask, call-brings, pure_after-brings}

module _ (r : Redis) (ks : Keys) (q : Text) (i : ℕ) (clean : Lacks 125 q) where
  module _ (m : TaskMessage) (clean_m : Lacks 125 m.queue) where
    store_task-IsUnacked :
        (d : r.Datum) (s : TaskState) (t : ℕ) (db : r.Db)
        → (IsUnacked r ks q i) db
        → (IsUnacked r ks q i) (store_task r (key_of ks m.queue (task m.id)) d s t db)
    unfolding store_task set_state
    store_task-IsUnacked d s t db h = elim (Bool-cases (eq_text m.queue q)) [
      | inl same ↦ simp (at-queue r ks m.queue q t _ _ _ _ clean_m clean, same) h
      | inr other ↦ simp (at-queue r ks m.queue q t _ _ _ _ clean_m clean, other) h
    ]

    xadd-IsUnacked :
        (id : Text) (t : ℕ) (db : r.Db)
        → (IsUnacked r ks q i) db
        → (IsUnacked r ks q i) (r.write t (key_of ks m.queue stream) (xadd id) db)
    xadd-IsUnacked id t db h = elim (Bool-cases (eq_text m.queue q)) [
      | inl same ↦ simp (at-queue r ks m.queue q t _ _ _ _ clean_m clean, same, r.unacked-xadd) h
      | inr other ↦ simp (at-queue r ks m.queue q t _ _ _ _ clean_m clean, other) h
    ]

    zadd-IsUnacked :
        (score : ℕ) (id : Text) (t : ℕ) (db : r.Db)
        → (IsUnacked r ks q i) db
        → (IsUnacked r ks q i) (r.write t (key_of ks m.queue scheduled) (zadd score id) db)
    zadd-IsUnacked score id t db h = elim (Bool-cases (eq_text m.queue q)) [
      | inl same ↦ simp (at-queue r ks m.queue q t _ _ _ _ clean_m clean, same) h
      | inr other ↦ simp (at-queue r ks m.queue q t _ _ _ _ clean_m clean, other) h
    ]

    chain_enqueue_cmd-brings :
        (d : r.Datum) (s : TaskState) (t : ℕ) (db : r.Db)
        → (IsUnacked r ks q i) db
        → let after =
            (chain_enqueue_cmd r
              (key_of ks m.queue (task m.id))
              (key_of ks m.queue stream)
              d
              s
              m.id
              t
              db).1 in
          (IsUnacked r ks q i) after × (HasTask r ks m) after
    unfolding chain_enqueue_cmd store_task set_state
    chain_enqueue_cmd-brings d s t db h =
        elim (Bool-cases (r.exists (r.at db (key_of ks m.queue (task m.id))))) [
          | inl there ↦ simp there (h, refl)
          | inr fresh ↦ simp fresh (
            xadd-IsUnacked m.id t (store_task r (key_of ks m.queue (task m.id)) d s t db)
                (store_task-IsUnacked d s t db h),
            stored,
          )
        ]
      where
        stored : (HasTask r ks m) (
            r.write t
              (key_of ks m.queue stream)
              (xadd m.id)
              (store_task r (key_of ks m.queue (task m.id)) d s t db))
        stored = simp (at-slot r ks m.queue t, r.exists-hset, eq_text_refl)

    chain_schedule_cmd-brings :
        (d : r.Datum) (s : TaskState) (score t : ℕ) (db : r.Db)
        → (IsUnacked r ks q i) db
        → let after =
            (chain_schedule_cmd r
              (key_of ks m.queue (task m.id))
              (key_of ks m.queue scheduled)
              d
              s
              score
              m.id
              t
              db).1 in
          (IsUnacked r ks q i) after × (HasTask r ks m) after
    unfolding chain_schedule_cmd store_task set_state
    chain_schedule_cmd-brings d s score t db h =
        elim (Bool-cases (r.exists (r.at db (key_of ks m.queue (task m.id))))) [
          | inl there ↦ simp there (h, refl)
          | inr fresh ↦ simp fresh (
            zadd-IsUnacked score m.id t (store_task r (key_of ks m.queue (task m.id)) d s t db)
                (store_task-IsUnacked d s t db h),
            stored,
          )
        ]
      where
        stored : (HasTask r ks m) (
            r.write t
              (key_of ks m.queue scheduled)
              (zadd score m.id)
              (store_task r (key_of ks m.queue (task m.id)) d s t db))
        stored = simp (at-slot r ks m.queue t, r.exists-hset, eq_text_refl)

    -- What enqueueing a link makes of a world.
    abbrev pub Brings : M r Bool → World r → Type 0
    Brings action w =
        (IsUnacked r ks q i) (action w).1.db
        × WhenOk (action w).0 ((HasTask r ks m) (action w).1.db)

    pub enqueue_chain_link-Brings :
        (delay : ℕ) (w : World r)
        → (IsUnacked r ks q i) w.db
        → Brings (enqueue_chain_link r ks m delay) w
    unfolding enqueue_chain_link encode_message is_one
    enqueue_chain_link-Brings delay w held =
        after_register (register_queue r ks m.queue w).0 (register_queue r ks m.queue w).1
          (rw (register_queue-at r ks m.queue q stream w) held)
      where
        by_encoding_now :
            (o : Option r.Datum) (v : World r)
            → (IsUnacked r ks q i) v.db
            → Brings
                (encoded_as r o >>= (λ encoded.
                  call (
                    chain_enqueue_cmd r
                      (key_of ks m.queue (task m.id))
                      (key_of ks m.queue stream)
                      encoded
                      TaskState.pending
                      m.id)
                  >>= (λ n. pure (is_one r n))))
                v
        by_encoding_now none v before = (before, tt)
        by_encoding_now (some d) v before =
            let script : ℕ → r.Db → ℤ × r.Db =
              chain_enqueue_cmd r (key_of ks m.queue (task m.id)) (key_of ks m.queue stream) d
                TaskState.pending m.id in
            let done = call script v in
            let after = chain_enqueue_cmd-brings d TaskState.pending v.clock v.db before in
            pure_after-brings (IsUnacked r ks q i) (HasTask r ks m) (is_one r) done.0 done.1
              (call-brings (IsUnacked r ks q i) (HasTask r ks m) script v before after.0 after.1)

        by_encoding_later :
            (o : Option r.Datum) (v : World r)
            → (IsUnacked r ks q i) v.db
            → Brings
                (encoded_as r o >>= (λ encoded. time_now >>= λ t.
                  call (
                    chain_schedule_cmd r
                      (key_of ks m.queue (task m.id))
                      (key_of ks m.queue scheduled)
                      encoded
                      TaskState.scheduled
                      (unix_score (t + delay))
                      m.id)
                  >>= (λ n. pure (is_one r n))))
                v
        by_encoding_later none v before = (before, tt)
        by_encoding_later (some d) v before =
            let script : ℕ → r.Db → ℤ × r.Db =
              chain_schedule_cmd r (key_of ks m.queue (task m.id)) (key_of ks m.queue scheduled) d
                TaskState.scheduled (unix_score (v.clock + delay)) m.id in
            let done = call script v in
            let after =
              chain_schedule_cmd-brings d TaskState.scheduled (unix_score (v.clock + delay)) v.clock
                v.db before in
            pure_after-brings (IsUnacked r ks q i) (HasTask r ks m) (is_one r) done.0 done.1
              (call-brings (IsUnacked r ks q i) (HasTask r ks m) script v before after.0 after.1)

        after_register :
            (res : Result (Unit {0})) (v : World r)
            → (IsUnacked r ks q i) v.db
            → Brings
                (λ _.
                  continue res
                    (λ _.
                      if ltb 0 delay
                      then (do
                        encoded ← encode_message r (record m { state = TaskState.scheduled })
                        t ← time_now
                        n ← call (
                            chain_schedule_cmd r
                              (key_of ks m.queue (task m.id))
                              (key_of ks m.queue scheduled)
                              encoded
                              TaskState.scheduled
                              (unix_score (t + delay))
                              m.id)
                        pure (is_one r n))
                      else (do
                        encoded ← encode_message r (record m { state = TaskState.pending })
                        n ← call (
                            chain_enqueue_cmd r
                              (key_of ks m.queue (task m.id))
                              (key_of ks m.queue stream)
                              encoded
                              TaskState.pending
                              m.id)
                        pure (is_one r n)))
                    v)
                w
        after_register (err e) v before = (before, tt)
        after_register (ok _) v before = elim (Bool-cases (ltb 0 delay)) [
          | inl wait ↦
              simp wait
                (by_encoding_later (r.encode (record m { state = TaskState.scheduled })) v before)
          | inr now ↦
              simp now
                (by_encoding_now (r.encode (record m { state = TaskState.pending })) v before)
        ]
