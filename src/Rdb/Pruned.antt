-- ===== src/Rdb/Pruned.antt =====
-- PruneSchedules of registry.go: what it leaves and what it removes.
use mathlib.Core.Bool.{and-false}
use chronos_go.Common.{
  ℕ, ◌/◌, ◌≤◌, ◌<◌, ◌≡◌, ◌⊎◌, inl, inr, refl, sym, ap, ◌∙◌, subst, leb, Text, eq_text, eq_text→eq,
  ne→eq_text, eq_text_refl, Bool, Bool-cases, true, false, ◌||◌, ◌&&◌, not, if◌then◌else◌, Option,
  none, some, List, [], ◌∷◌, length, arith,
}
use chronos_go.Keys.{Keys, schedules_key, schedule_last_fired_key}
use chronos_go.Keys.Queues.{last_fired_key-ne-schedules}
use chronos_go.Redis.{Redis, hdel, del, contains_text}
use chronos_go.ScheduleMeta.{ScheduleMeta}
use chronos_go.World.{World, M, pure, continue, ◌>>◌}
use chronos_go.Rdb.Enqueue.{run, second}
use chronos_go.Rdb.Calls.{look-keeps, call-either, bind-keeps}
use chronos_go.Rdb.Calm.{call-calm}
use chronos_go.Rdb.Registry.{
  hdel_all, held_at, values_of, hgetall, is_fresh, spared, stale_fields, drop_last_fired,
  remove_fields, prune_schedules,
}

module _ (r : Redis) where
  hget-hdel_all :
      (key : Text) (fs : List Text) (id : Text) (t : ℕ) (db : r.Db)
      → r.hget (r.at (hdel_all r key fs t db) key) id
        ≡ (if contains_text id fs then none else r.hget (r.at db key) id)
  unfolding hdel_all contains_text
  hget-hdel_all key [] id t db = refl
  hget-hdel_all key (f ∷ fs) id t db =
      hget-hdel_all key fs id t (r.write t key (hdel f) db) ∙ (elim (Bool-cases (eq_text f id)) [
        | inl same ↦ elim (Bool-cases (contains_text id fs)) [
          | inl more ↦ simp (same, more)
          | inr last ↦ simp (same, last, r.at-write, eq_text_refl, r.hget-hdel)
        ]
        | inr other ↦ simp (other, r.at-write, eq_text_refl, r.hget-hdel)
      ])

  module _ (keep : List Text) (cutoff : ℕ) where
    -- Whether a field is removed, by its value.
    abbrev pub doomed : Text → Option r.Datum → Bool
    doomed id none = false
    doomed id (some d) = not (spared r keep cutoff id d)

    abbrev unless : Bool → Text → List Text → List Text
    unless b f rest = elim b [ true ↦ rest | false ↦ f ∷ rest ]

    member-unless :
        (id f : Text) (b : Bool) (rest : List Text)
        → contains_text id (unless b f rest) ≡ (eq_text f id && not b || contains_text id rest)
    unfolding contains_text
    member-unless id f true rest = elim (Bool-cases (eq_text f id)) [
      | inl e ↦ simp e
      | inr e ↦ simp e
    ]
    member-unless id f false rest = elim (Bool-cases (eq_text f id)) [
      | inl e ↦ simp e
      | inr e ↦ simp e
    ]

    member-held_at :
        (id f : Text) (o : Option r.Datum) (rest : List (Text × r.Datum))
        → contains_text id (stale_fields r keep cutoff (held_at r f o rest))
          ≡ (eq_text f id && doomed f o || contains_text id (stale_fields r keep cutoff rest))
    unfolding stale_fields held_at
    member-held_at id f none rest = elim (Bool-cases (eq_text f id)) [
      | inl e ↦ simp e
      | inr e ↦ simp e
    ]
    member-held_at id f (some d) rest =
        member-unless id f (spared r keep cutoff f d) (stale_fields r keep cutoff rest)

    member-stale_fields :
        (id : Text) (fs : List Text) (v : r.Value)
        → contains_text id (stale_fields r keep cutoff (values_of r fs v))
          ≡ (contains_text id fs && doomed id (r.hget v id))
    unfolding stale_fields values_of contains_text
    member-stale_fields id [] v = refl
    member-stale_fields id (f ∷ fs) v =
        member-held_at id f (r.hget v f) (values_of r fs v) ∙ (elim (Bool-cases (eq_text f id)) [
          | inl same ↦ elim (Bool-cases (doomed id (r.hget v id))) [
            | inl goes ↦ simp (eq_text→eq f id same, eq_text_refl id, goes)
            | inr stays ↦
                simp (eq_text→eq f id same, eq_text_refl id, stays, member-stale_fields id fs v)
                  (and-false (contains_text id fs))
          ]
          | inr other ↦ simp (other, member-stale_fields id fs v)
        ])

  module _ (ks : Keys) where
    abbrev pub entry : r.Db → Text → Option r.Datum
    entry db id = r.hget (r.at db (schedules_key ks)) id

    last_fired_del :
        (f : Text) (t : ℕ) (db : r.Db)
        → r.at (r.write t (schedule_last_fired_key ks f) del db) (schedules_key ks)
          ≡ r.at db (schedules_key ks)
    last_fired_del f t db = simp (
      r.at-write,
      ne→eq_text (schedule_last_fired_key ks f) (schedules_key ks)
          (last_fired_key-ne-schedules ks f),
    )

    -- What holds of the database, if every deletion of a last-fired key keeps it.
    drop_last_fired-keeps :
        (P : r.Db → Type 0)
        → ((f : Text) (t : ℕ) (db : r.Db)
            → P db
            → P (r.write t (schedule_last_fired_key ks f) del db))
        → (fs : List Text) (w : World r) → P w.db
        → P (drop_last_fired r ks fs w).1.db
    unfolding drop_last_fired
    drop_last_fired-keeps P kept [] w h = h
    drop_last_fired-keeps P kept (f ∷ fs) w h = drop_last_fired-keeps P kept fs _ (
        call-either P (λ t db. (tt, r.write t (schedule_last_fired_key ks f) del db)) w h
          (kept f w.clock w.db h))

    remove_fields-spares :
        (x : Option r.Datum) (id : Text) (fs : List Text) (w : World r)
        → contains_text id fs ≡ false
        → entry w.db id ≡ x
        → entry (remove_fields r ks fs w).1.db id ≡ x
    unfolding remove_fields
    remove_fields-spares x id [] w out h = h
    remove_fields-spares x id (f ∷ fs) w out h =
        let P : r.Db → Type 0 = λ db. entry db id ≡ x in
        bind-keeps (λ v. P v.db) (run r (hdel_all r (schedules_key ks) (f ∷ fs))) _ w
          (call-either P (λ t db. (tt, hdel_all r (schedules_key ks) (f ∷ fs) t db)) w h
            (simp (hget-hdel_all (schedules_key ks) (f ∷ fs) id w.clock w.db, out) h))
          (λ _ kept.
            bind-keeps (λ v. P v.db) (drop_last_fired r ks (f ∷ fs)) _ _
              (drop_last_fired-keeps P
                (λ g t db e. ap (λ v. r.hget v id) (last_fired_del g t db) ∙ e) (f ∷ fs) _ kept)
              (λ _ later. later))

    module _ (id : Text) where
      -- The schedule has no last-fired time, at any time.
      abbrev pub NeverFired : r.Db → Type 0
      NeverFired db = (later : ℕ) → r.get later (r.at db (schedule_last_fired_key ks id)) ≡ none

      NeverFired-del :
          (f : Text) (t : ℕ) (db : r.Db)
          → NeverFired db
          → NeverFired (r.write t (schedule_last_fired_key ks f) del db)
      NeverFired-del f t db never later =
          elim (Bool-cases
            (eq_text (schedule_last_fired_key ks f) (schedule_last_fired_key ks id))) [
              | inl same ↦ simp (r.at-write, same, r.get-del)
              | inr other ↦ simp (r.at-write, other) (never later)
            ]

      drop_last_fired-drops :
          (fs : List Text) (w : World r)
          → w.turns ≡ []
          → contains_text id fs ≡ true
          → NeverFired (drop_last_fired r ks fs w).1.db
      unfolding drop_last_fired contains_text
      drop_last_fired-drops [] w calm there = cc
      drop_last_fired-drops (f ∷ fs) w calm there =
          subst (λ o. NeverFired (drop_last_fired r ks fs o.1).1.db)
            (sym (call-calm (λ t db. (tt, r.write t (schedule_last_fired_key ks f) del db)) w calm))
            (elim (Bool-cases (eq_text f id)) [
              | inl same ↦
                  drop_last_fired-keeps NeverFired NeverFired-del fs _
                    (λ later. simp (eq_text→eq f id same, r.at-write, eq_text_refl, r.get-del))
              | inr other ↦ drop_last_fired-drops fs _ refl (simp other at there)
            ])

      remove_fields-removes :
          (fs : List Text) (w : World r)
          → w.turns ≡ []
          → contains_text id fs ≡ true
          → (entry (remove_fields r ks fs w).1.db id ≡ none)
            × NeverFired (remove_fields r ks fs w).1.db
      unfolding remove_fields contains_text
      remove_fields-removes [] w calm there = (cc, λ later. cc)
      remove_fields-removes (f ∷ fs) w calm there =
          let removed = hdel_all r (schedules_key ks) (f ∷ fs) in
          let u : World r = record w { db = removed w.clock w.db; turns = [] } in
          let k : M r ℕ = drop_last_fired r ks (f ∷ fs) >> pure (length (f ∷ fs)) in
          subst
            (λ o.
              (entry (continue o.0 (λ _. k) o.1).1.db id ≡ none)
              × NeverFired (continue o.0 (λ _. k) o.1).1.db)
            (sym (call-calm (λ t db. (tt, removed t db)) w calm))
            (bind-keeps (λ v. (entry v.db id ≡ none) × NeverFired v.db)
              (drop_last_fired r ks (f ∷ fs)) (λ _. pure (length (f ∷ fs))) u
              (
                drop_last_fired-keeps (λ db. entry db id ≡ none)
                    (λ g t db e. ap (λ v. r.hget v id) (last_fired_del g t db) ∙ e) (f ∷ fs) u
                    (simp (hget-hdel_all (schedules_key ks) (f ∷ fs) id w.clock w.db, there)),
                drop_last_fired-drops (f ∷ fs) u refl there,
              )
              (λ _ x. x))

    module _ (keep : List Text) (stale_before : ℕ) (id : Text) (m : ScheduleMeta) where
      spared-reason :
          (cutoff : ℕ)
          → (contains_text id keep ≡ true) ⊎ (cutoff ≤ m.last_seen)
          → spared r keep cutoff id (r.meta m) ≡ true
      unfolding spared is_fresh
      spared-reason cutoff (inl kept) = simp kept
      spared-reason cutoff (inr seen) = elim (Bool-cases (contains_text id keep)) [
        | inl kept ↦ simp kept
        | inr other ↦
            let since : leb cutoff m.last_seen ≡ true = ground arith in
            simp (other, r.as_meta-meta, since)
      ]

      spared-old :
          (cutoff : ℕ)
          → contains_text id keep ≡ false
          → m.last_seen < cutoff
          → spared r keep cutoff id (r.meta m) ≡ false
      unfolding spared is_fresh
      spared-old cutoff other old =
          let before : leb cutoff m.last_seen ≡ false = ground arith in
          simp (other, r.as_meta-meta, before)

      -- Whatever becomes of the calls of PruneSchedules, a registered schedule that the caller
      -- keeps, or that was seen in the second of the cutoff or later, is still registered as it
      -- was.
      pub prune_schedules-spares :
          (w : World r)
          → entry w.db id ≡ some (r.meta m)
          → (contains_text id keep ≡ true) ⊎ (stale_before / second ≤ m.last_seen)
          → entry (prune_schedules r ks keep stale_before w).1.db id ≡ some (r.meta m)
      unfolding prune_schedules
      prune_schedules-spares w there reason =
          let v = r.at w.db (schedules_key ks) in
          look-keeps (λ db. entry db id ≡ some (r.meta m))
            (λ t db. hgetall r (r.at db (schedules_key ks)))
            (λ all. remove_fields r ks (stale_fields r keep (stale_before / second) all)) w there
            (λ u same.
              remove_fields-spares (some (r.meta m)) id
                (stale_fields r keep (stale_before / second) (hgetall r v)) u
                (member-stale_fields keep (stale_before / second) id (r.hkeys v) v
                  ∙ simp (there, spared-reason (stale_before / second) reason)
                      (and-false (contains_text id (r.hkeys v))))
                (ap (λ db. entry db id) same ∙ there))

      -- When the calls of PruneSchedules are answered, a registered schedule that the caller does
      -- not keep, and that was last seen before the second of the cutoff, is no longer
      -- registered, and its last-fired time is gone.
      pub prune_schedules-removes :
          (w : World r)
          → w.turns ≡ []
          → entry w.db id ≡ some (r.meta m)
          → contains_text id keep ≡ false
          → m.last_seen < stale_before / second
          → (entry (prune_schedules r ks keep stale_before w).1.db id ≡ none)
            × NeverFired id (prune_schedules r ks keep stale_before w).1.db
      unfolding prune_schedules
      prune_schedules-removes w calm there other old =
          let v = r.at w.db (schedules_key ks) in
          let fs = stale_fields r keep (stale_before / second) (hgetall r v) in
          let goes : contains_text id fs ≡ true =
            member-stale_fields keep (stale_before / second) id (r.hkeys v) v
            ∙ simp (
              there,
              r.hkeys-hget id (r.meta m) v there,
              spared-old (stale_before / second) other old,
            ) in
          let k : List (Text × r.Datum) → M r ℕ =
            λ all. remove_fields r ks (stale_fields r keep (stale_before / second) all) in
          subst
            (λ o.
              (entry (continue o.0 k o.1).1.db id ≡ none) × NeverFired id (continue o.0 k o.1).1.db)
            (sym (call-calm (λ t db. (hgetall r (r.at db (schedules_key ks)), db)) w calm))
            (remove_fields-removes id fs (record w { turns = [] }) refl goes)
