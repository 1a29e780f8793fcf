-- ===== src/Scheduler/Fired.antt =====
-- What fireDue of scheduler.go leaves of a schedule whose trigger could not be enqueued.
use chronos_go.Common.{
  ℕ, ◌*◌, ◌≡◌, ◌<◌, ◌⊎◌, inl, inr, refl, sym, subst, ◌∙◌, Text, codes, eq_text, ne→eq_text, Bool,
  true, false, ◌||◌, Option, none, some, Option-cases, List, [], ◌∷◌, pos, negsuc, ℤ, ◌/◌, ◌==◌,
  decimal, Bool-cases,
}
use chronos_go.Keys.{Keys, QueueKey, key_of, stream, pdedup, schedule_last_fired_key}
use chronos_go.Keys.Queues.{last_fired_key-ne}
use chronos_go.Redis.{Redis, set}
use chronos_go.Task.{TaskMessage}
use chronos_go.World.{World, M, ok, call, ◌>>=◌}
use chronos_go.Schedule
use chronos_go.Rdb.Scripts.{enqueue_cmd, store_task, set_state, enqueue_periodic_cmd}
use chronos_go.Rdb.Enqueue.{
  second, encode_message, register_queue, check_duplicate, unique_ttl_millis, enqueue_periodic,
}
use chronos_go.Rdb.Calls.{call-either, bind-keeps, encoded_as}
use chronos_go.Rdb.Slots.{register_queue-other}
use chronos_go.Rdb.Once.{set_nx_px-held, set_nx_px-free}
use chronos_go.Rdb.LastFired.{
  set_last_fired, get_last_fired, read_last_fired, read_last_fired-world,
}
use chronos_go.Scheduler.{
  ScheduleEntry, trigger_id, trigger_message, is_failure, enqueue_trigger, fire_all, advance,
  fire_entry,
}
use chronos_go.Scheduler.Seen.{true_ne, WasSeen, periodic_call, placed-WasSeen}

module _ (r : Redis) (ks : Keys) (leader_ttl : ℕ) (e : ScheduleEntry) where
  abbrev pub IsSeen : ℕ → r.Db → Type 0
  IsSeen t = WasSeen r ks e.queue (trigger_id e t)

  -- A trigger that is not counted as a failure has been seen in the database.
  enqueue_trigger-IsSeen :
      (t : ℕ) (w : World r)
      → is_failure (enqueue_trigger r ks leader_ttl e t w).0 ≡ false
      → IsSeen t (enqueue_trigger r ks leader_ttl e t w).1.db
  unfolding enqueue_trigger enqueue_periodic encode_message is_failure
  enqueue_trigger-IsSeen t w good = by_encoding (r.encode (trigger_message e t)) good
    where
      rest : r.Datum → M r Unit
      rest d = register_queue r ks e.queue >>= (λ _.
          call
            (periodic_call r ks e.queue (trigger_id e t) (trigger_message e t) (10 * leader_ttl) d)
          >>= check_duplicate r)

      by_encoding :
          (o : Option r.Datum)
          → is_failure ((encoded_as r o >>= rest) w).0 ≡ false
          → IsSeen t ((encoded_as r o >>= rest) w).1.db
      by_encoding none wrong = absurd (true_ne wrong)
      by_encoding (some d) fine =
          placed-WasSeen r ks e.queue (trigger_id e t) (trigger_message e t) (10 * leader_ttl) d w
            fine

  abbrev last_key : Text
  last_key = schedule_last_fired_key ks e.id

  last_key-ne : (q : Text) (a : QueueKey) → eq_text (key_of ks q a) last_key ≡ false
  last_key-ne q a =
      ne→eq_text (key_of ks q a) last_key (λ same. (last_fired_key-ne ks e.id q a).0 (sym same))

  -- The time that a schedule last fired is as it was.
  abbrev pub SameLast : World r → r.Db → Type 0
  SameLast w db = r.at db last_key ≡ r.at w.db last_key

  periodic_script-SameLast :
      (w : World r) (q trigger : Text) (m : TaskMessage) (ttl : ℕ) (d : r.Datum) (t : ℕ) (db : r.Db)
      → SameLast w db
      → SameLast w (periodic_call r ks q trigger m ttl d t db).1
  unfolding enqueue_periodic_cmd enqueue_cmd store_task set_state
  periodic_script-SameLast w q trigger m ttl d t db same =
      let key = key_of ks q (pdedup trigger) in
      elim (Option-cases (r.get t (r.at db key))) [
        | inl free ↦
            simp
              (
                set_nx_px-free r key (codes "1") (unique_ttl_millis ttl) t db free,
                r.at-write,
                last_key-ne,
              )
              same
        | inr (holder, held) ↦
            simp (set_nx_px-held r key (codes "1") holder (unique_ttl_millis ttl) t db held) same
      ]

  enqueue_trigger-SameLast :
      (t : ℕ) (w : World r) → SameLast w (enqueue_trigger r ks leader_ttl e t w).1.db
  unfolding enqueue_trigger enqueue_periodic encode_message check_duplicate register_queue
  enqueue_trigger-SameLast t w = by_encoding (r.encode (trigger_message e t))
    where
      call_part : r.Datum → M r Unit
      call_part d =
          call
            (periodic_call r ks e.queue (trigger_id e t) (trigger_message e t) (10 * leader_ttl) d)
          >>= check_duplicate r

      answered_same :
          (n : ℤ) (v : World r) → SameLast w v.db → SameLast w (check_duplicate r n v).1.db
      answered_same (pos n) v same = same
      answered_same (negsuc n) v same = same

      called : (d : r.Datum) (v : World r) → SameLast w v.db → SameLast w (call_part d v).1.db
      called d v same =
          bind-keeps (λ u. SameLast w u.db)
            (call (
              periodic_call r ks e.queue (trigger_id e t) (trigger_message e t) (10 * leader_ttl)
                d))
            (check_duplicate r) v
            (call-either (SameLast w) _ v same (
              periodic_script-SameLast w e.queue (trigger_id e t) (trigger_message e t)
                (10 * leader_ttl) d v.clock v.db same))
            (λ n kept. answered_same n _ kept)

      by_encoding :
          (o : Option r.Datum)
          → SameLast w
              ((encoded_as r o >>= (λ d. register_queue r ks e.queue >>= (λ _. call_part d)))
                w).1.db
      by_encoding none = refl
      by_encoding (some d) =
          bind-keeps (λ u. SameLast w u.db) (register_queue r ks e.queue) (λ _. call_part d) w
            (register_queue-other r ks e.queue last_key w
              (λ same. (last_fired_key-ne ks e.id e.queue stream).1 (sym same)))
            (λ _ kept. called d _ kept)

  -- Setting the last-fired time leaves what has been seen.
  set_last_fired-IsSeen :
      (t when : ℕ) (w : World r) → IsSeen t w.db → IsSeen t (set_last_fired r ks e.id when w).1.db
  unfolding set_last_fired
  set_last_fired-IsSeen t when w (seen_at, holder, held) =
      call-either (IsSeen t)
        (λ now db. (tt, r.write now last_key (set (decimal (when / second))) db)) w
        (seen_at, holder, held)
        (
          seen_at,
          holder,
          simp
              (
                r.at-write,
                ne→eq_text last_key (key_of ks e.queue (pdedup (trigger_id e t)))
                    (last_fired_key-ne ks e.id e.queue (pdedup (trigger_id e t))).0,
              )
              held,
        )

  advance-IsSeen :
      (t last new_last : ℕ) (w : World r)
      → IsSeen t w.db
      → IsSeen t (advance r ks leader_ttl e.id last new_last false w).1.db
  unfolding advance
  advance-IsSeen t last new_last w seen = elim (Bool-cases (new_last == last)) [
    | inl same ↦ simp same seen
    | inr later ↦ simp later (set_last_fired-IsSeen t new_last w seen)
  ]

  get_last_fired-SameLast : (w : World r) → SameLast w (get_last_fired r ks e.id w).1.db
  unfolding get_last_fired
  get_last_fired-SameLast w =
      bind-keeps (λ v. SameLast w v.db) (call (λ t db. (r.get t (r.at db last_key), db)))
        (read_last_fired r ks) w (call-either (SameLast w) _ w refl refl)
        (λ o same.
          subst (λ (u : World r). SameLast w u.db)
            (sym
              (read_last_fired-world r ks o (call (λ t db. (r.get t (r.at db last_key), db)) w).1))
            same)

  abbrev pub AllSeen : List ℕ → r.Db → Type 0
  AllSeen [] db = Unit {0}
  AllSeen (t ∷ ts) db = IsSeen t db × AllSeen ts db

  -- What one due trigger comes to: nothing is recorded, or the trigger has been seen.
  one_fired :
      (t last new_last : ℕ) (w v : World r)
      → SameLast w v.db
      → SameLast v (enqueue_trigger r ks leader_ttl e t v).1.db
      → SameLast w
          ((fire_all r ks leader_ttl e (t ∷ []) >>= advance r ks leader_ttl e.id last new_last)
            v).1.db
        ⊎ AllSeen
            (t ∷ [])
            ((fire_all r ks leader_ttl e (t ∷ []) >>= advance r ks leader_ttl e.id last new_last)
              v).1.db
  unfolding fire_all
  one_fired t last new_last w v same kept =
      by_failure (is_failure (enqueue_trigger r ks leader_ttl e t v).0) (enqueue_trigger-IsSeen t v)
    where
      by_failure :
          (failed : Bool)
          → (failed ≡ false → IsSeen t (enqueue_trigger r ks leader_ttl e t v).1.db)
          → SameLast w
              (advance r ks leader_ttl e.id last new_last
                (failed || false)
                (enqueue_trigger r ks leader_ttl e t v).1).1.db
            ⊎ AllSeen
                (t ∷ [])
                (advance r ks leader_ttl e.id last new_last
                  (failed || false)
                  (enqueue_trigger r ks leader_ttl e t v).1).1.db
      by_failure true seen = inl (unfold advance in (kept ∙ same))
      by_failure false seen = inr (advance-IsSeen t last new_last _ (seen refl), tt)

  fired_once :
      (after : (t : ℕ) → t < e.next t) (now last : ℕ) (w v : World r)
      → SameLast w v.db
      → (fires : List ℕ) (new_last : ℕ)
      → Schedule.FiresOnce e.next after Schedule.max_scan last now e.misfire fires new_last
      → SameLast w
          ((fire_all r ks leader_ttl e fires >>= advance r ks leader_ttl e.id last new_last) v).1.db
        ⊎ AllSeen fires
            ((fire_all r ks leader_ttl e fires >>= advance r ks leader_ttl e.id last new_last)
              v).1.db
  fired_once after now last w v same [] new_last once = inr tt
  fired_once after now last w v same (t ∷ []) new_last once =
      one_fired t last new_last w v same (enqueue_trigger-SameLast t v)
  fired_once after now last w v same (t ∷ u ∷ ts) new_last once = absurd once

  -- The triggers that are due at a time.
  abbrev pub due : ℕ → ℕ → List ℕ × ℕ
  due now last = Schedule.compute_fires e.next last now e.misfire

  after_read :
      (after : (t : ℕ) → t < e.next t) (now last : ℕ) (w v : World r)
      → SameLast w v.db
      → SameLast w
          ((fire_all r ks leader_ttl e (due now last).0
              >>= advance r ks leader_ttl e.id last (due now last).1)
            v).1.db
        ⊎ AllSeen
            (due now last).0
            ((fire_all r ks leader_ttl e (due now last).0
                >>= advance r ks leader_ttl e.id last (due now last).1)
              v).1.db
  unfolding Schedule.compute_fires
  after_read after now last w v same =
      fired_once after now last w v same (due now last).0 (due now last).1
        (Schedule.compute_fires-FiresOnce e.next after Schedule.max_scan last now e.misfire)

  -- For a `Next` that returns a later time: when a schedule's last-fired time can be read, then
  -- whatever becomes of the other calls to Redis, after fireDue's round for the schedule either
  -- its last-fired time in Redis is as it was, or the dedup lock of every trigger that
  -- computeFires chose for the round, which is at most one and may be none, is in the database,
  -- as seen at some time.
  pub fire_entry-retries :
      (after : (t : ℕ) → t < e.next t) (now last : ℕ) (w : World r)
      → (get_last_fired r ks e.id w).0 ≡ ok (some last)
      → SameLast w (fire_entry r ks leader_ttl now e w).1.db
        ⊎ AllSeen (due now last).0 (fire_entry r ks leader_ttl now e w).1.db
  unfolding fire_entry
  fire_entry-retries after now last w read =
      rw read
        (after_read after now last w (get_last_fired r ks e.id w).1 (get_last_fired-SameLast w))
