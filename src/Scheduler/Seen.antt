-- ===== src/Scheduler/Seen.antt =====
-- The dedup lock of a trigger: what EnqueuePeriodic leaves of it when it does not fail.
use chronos_go.Common.{
  ℕ, ◌+◌, ◌≡◌, ◌<◌, ◌⊎◌, inl, inr, refl, Text, codes, eq_text_refl, lt→ltb, Bool, true, false,
  if◌then◌else◌, some, Option-cases, ◌∷◌, arith, pos, negsuc, ℤ,
}
use chronos_go.Keys.{Keys, key_of, stream, task, completed, archived, pdedup, queues_key}
use chronos_go.Redis.{Redis, sadd, contains_text}
use chronos_go.Task.{TaskState, TaskMessage}
use chronos_go.World.{
  World, M, Result, ok, err, redis_failed, Fault, answered, refused, lost, first_turn, later_turns,
  settle, call, ◌>>=◌,
}
use chronos_go.Rdb.Scripts.{enqueue_periodic_cmd}
use chronos_go.Rdb.Enqueue.{run, register_queue, check_duplicate, unique_ttl_millis}
use chronos_go.Rdb.Slots.{at-slot}
use chronos_go.Rdb.Once.{set_nx_px-held, set_nx_px-free, enqueue_cmd-pdedup}
use chronos_go.Scheduler.{is_failure}

-- A call has failed, or it was done and its answer came.
call-answered :
    {r : Redis} {A : Type 0} (f : ℕ → r.Db → A × r.Db) (w : World r)
    → ((call f w).0 ≡ err redis_failed)
      ⊎ (((call f w).0 ≡ ok (f w.clock w.db).0) × ((call f w).1.db ≡ (f w.clock w.db).1))
unfolding call first_turn later_turns
call-answered {r = r} {A = A} f w =
    by_fault (first_turn w.turns).fault (f w.clock w.db).0 (f w.clock w.db).1
      (record w { clock = w.clock + (first_turn w.turns).elapsed; turns = later_turns w.turns })
  where
    by_fault :
        (fault : Fault) (a : A) (db : r.Db) (v : World r)
        → ((settle fault a db v).0 ≡ err redis_failed)
          ⊎ (((settle fault a db v).0 ≡ ok a) × ((settle fault a db v).1.db ≡ db))
    by_fault answered a db v = inr (refl, refl)
    by_fault refused a db v = inl refl
    by_fault lost a db v = inl refl

pub true_ne : (true ≡ false) → ⊥
true_ne e = cc

module _ (r : Redis) (ks : Keys) (q trigger : Text) where
  -- The lock of a trigger has been seen in the database, at some time.
  abbrev pub WasSeen : r.Db → Type 0
  WasSeen db =
      (t : ℕ) × (holder : Text) × (r.get t (r.at db (key_of ks q (pdedup trigger))) ≡ some holder)

  periodic_script-WasSeen :
      (m : TaskMessage) (ttl : ℕ) (d : r.Datum) (t : ℕ) (db : r.Db)
      → 0 < ttl
      → WasSeen
          (enqueue_periodic_cmd r
            (key_of ks q (pdedup trigger))
            (key_of ks q (task m.id))
            (key_of ks q stream)
            (key_of ks q completed)
            (key_of ks q archived)
            m.id
            ttl
            d
            TaskState.pending
            t
            db).1
  unfolding enqueue_periodic_cmd
  periodic_script-WasSeen m ttl d t db some_time =
      let key = key_of ks q (pdedup trigger) in
      elim (Option-cases (r.get t (r.at db key))) [
        | inl free ↦ (
          t,
          codes "1",
          simp (
            set_nx_px-free r key (codes "1") ttl t db free,
            enqueue_cmd-pdedup r ks q m.id trigger d t,
            at-slot r ks q t,
            eq_text_refl,
            r.get-set_px t t ttl (codes "1") (r.at db key) (omega arith),
            lt→ltb t (t + ttl) (omega arith),
          ),
        )
        | inr (holder, held) ↦
            (t, holder, simp (set_nx_px-held r key (codes "1") holder ttl t db held, held))
      ]

  -- What enqueue_periodic does once its message is encoded and its queue registered.
  abbrev pub periodic_call : TaskMessage → ℕ → r.Datum → ℕ → r.Db → ℤ × r.Db
  periodic_call m ttl d =
      enqueue_periodic_cmd r (key_of ks q (pdedup trigger)) (key_of ks q (task m.id))
        (key_of ks q stream) (key_of ks q completed) (key_of ks q archived) m.id
        (unique_ttl_millis ttl) d TaskState.pending

  unique_ttl_millis_pos : (ttl : ℕ) → 0 < unique_ttl_millis ttl
  unfolding unique_ttl_millis
  unique_ttl_millis_pos ttl = ground arith

  reply-WasSeen :
      (m : TaskMessage) (ttl : ℕ) (d : r.Datum) (w : World r)
      → is_failure ((call (periodic_call m ttl d) >>= check_duplicate r) w).0 ≡ false
      → WasSeen ((call (periodic_call m ttl d) >>= check_duplicate r) w).1.db
  unfolding check_duplicate is_failure
  reply-WasSeen m ttl d w good = by_answer (call-answered (periodic_call m ttl d) w)
    where
      after_reply : (n : ℤ) (v : World r) → WasSeen v.db → WasSeen (check_duplicate r n v).1.db
      after_reply (pos n) v seen = seen
      after_reply (negsuc n) v seen = seen

      by_answer :
          (((call (periodic_call m ttl d) w).0 ≡ err redis_failed)
            ⊎ (((call (periodic_call m ttl d) w).0 ≡ ok (periodic_call m ttl d w.clock w.db).0)
                × ((call (periodic_call m ttl d) w).1.db ≡ (periodic_call m ttl d w.clock w.db).1)))
          → WasSeen ((call (periodic_call m ttl d) >>= check_duplicate r) w).1.db
      by_answer (inl failed) = absurd (true_ne (rw failed at good))
      by_answer (inr (same, left)) = rw same (
          after_reply (periodic_call m ttl d w.clock w.db).0 (call (periodic_call m ttl d) w).1 (
            rw left (
              periodic_script-WasSeen m (unique_ttl_millis ttl) d w.clock w.db
                (unique_ttl_millis_pos ttl))))

  register_queue-fails :
      (w : World r)
      → ((register_queue r ks q w).0 ≡ ok tt) ⊎ ((register_queue r ks q w).0 ≡ err redis_failed)
  unfolding register_queue
  register_queue-fails w = by_known (contains_text q w.known)
    where
      note : Unit {0} → M r Unit
      note _ v = (ok tt, record v { known = q ∷ v.known })

      after : Result (Unit {0}) × World r
      after = (run r (λ t. r.write t (queues_key ks) (sadd q)) >>= note) w

      by_answer :
          (((run r (λ t. r.write t (queues_key ks) (sadd q)) w).0 ≡ err redis_failed)
            ⊎ (((run r (λ t. r.write t (queues_key ks) (sadd q)) w).0 ≡ ok tt)
                × ((run r (λ t. r.write t (queues_key ks) (sadd q)) w).1.db
                    ≡ r.write w.clock (queues_key ks) (sadd q) w.db)))
          → (after.0 ≡ ok tt) ⊎ (after.0 ≡ err redis_failed)
      by_answer (inl failed) = inr (rw failed refl)
      by_answer (inr (same, left)) = inl (rw same refl)

      by_known :
          (known : Bool)
          → ((if known then (ok tt, w) else after).0 ≡ ok tt)
            ⊎ ((if known then (ok tt, w) else after).0 ≡ err redis_failed)
      by_known true = inl refl
      by_known false =
          by_answer (call-answered (λ t db. (tt, r.write t (queues_key ks) (sadd q) db)) w)

  pub placed-WasSeen :
      (m : TaskMessage) (ttl : ℕ) (d : r.Datum) (w : World r)
      → is_failure
          ((register_queue r ks q >>= (λ _. call (periodic_call m ttl d) >>= check_duplicate r))
            w).0
        ≡ false
      → WasSeen
          ((register_queue r ks q >>= (λ _. call (periodic_call m ttl d) >>= check_duplicate r))
            w).1.db
  unfolding is_failure
  placed-WasSeen m ttl d w good = by_result (register_queue-fails w)
    where
      by_result :
          (((register_queue r ks q w).0 ≡ ok tt) ⊎ ((register_queue r ks q w).0 ≡ err redis_failed))
          → WasSeen
              ((register_queue r ks q >>= (λ _. call (periodic_call m ttl d) >>= check_duplicate r))
                w).1.db
      by_result (inl fine) =
          rw fine (reply-WasSeen m ttl d (register_queue r ks q w).1 (rw fine at good))
      by_result (inr failed) = absurd (true_ne (rw failed at good))
