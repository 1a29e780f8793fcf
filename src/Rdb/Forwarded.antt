-- ===== src/Rdb/Forwarded.antt =====
-- ForwardScheduled of forward.go: which tasks it moves, and where to.
use chronos_go.Common.{
  ℕ, ◌≡◌, ◌≤◌, refl, ap, sym, ◌∙◌, Text, eq_text, eq_text_refl, Bool, true, false, Bool-cases, ◌&&◌,
  inl, inr, if◌then◌else◌, Option, none, some, List, [], ◌∷◌, ◌++◌, map, length,
}
use mathlib.Core.List.{append_assoc, append-nil}
use chronos_go.Keys.{Keys, key_of, task_key, task_key_prefix, stream, scheduled, task}
use chronos_go.Redis.{Redis, Entry, hset, zrem, xadd, contains_text}
use chronos_go.Task.{TaskState, state_number}
use chronos_go.World.{World, ok}
use chronos_go.Rdb.Scripts.{
  ◌▷◌, state_field, set_state, is_due, keep_due, zrange_by_score, forward_each, forward_cmd,
}
use chronos_go.Rdb.Score.{schedule_score}
use chronos_go.Rdb.Sweep.{forward_scheduled}
use chronos_go.Rdb.Slots.{at-slot}
use chronos_go.Rdb.Calm.{call-calm}
use chronos_go.Rdb.Due.{take-member, take_all, member-keep_due}

module _ (r : Redis) (ks : Keys) (q : Text) (now : ℕ) where
  prefix-task : (id : Text) → task_key_prefix ks q ++ id ≡ key_of ks q (task id)
  unfolding key_of task_key task_key_prefix
  prefix-task id = refl

  abbrev forward : List Text → r.Db → r.Db
  forward ids db =
      forward_each r (key_of ks q scheduled) (key_of ks q stream) (task_key_prefix ks q)
        TaskState.pending now ids db

  -- The commands for one task.
  abbrev moved : Text → r.Db → r.Db
  moved id db =
      db
      ▷ r.write now (key_of ks q stream) (xadd id)
      ▷ r.write now (key_of ks q (task id))
          (hset state_field (r.number (state_number TaskState.pending)))
      ▷ r.write now (key_of ks q scheduled) (zrem id)

  forward-cons :
      (id : Text) (ids : List Text) (db : r.Db) → forward (id ∷ ids) db ≡ forward ids (moved id db)
  unfolding forward_each set_state
  forward-cons id ids db =
      ap
        (λ key. forward ids (
          db
          ▷ r.write now (key_of ks q stream) (xadd id)
          ▷ r.write now key (hset state_field (r.number (state_number TaskState.pending)))
          ▷ r.write now (key_of ks q scheduled) (zrem id)))
        (prefix-task id)

  abbrev pub waiting : r.Db → List Text
  waiting db = map (λ (e : Entry). e.task_id) (r.ready (r.at db (key_of ks q stream)))

  abbrev pub score_of : r.Db → Text → Option ℕ
  score_of db x = r.zscore (r.at db (key_of ks q scheduled)) x

  abbrev pub state_of : r.Db → Text → Option r.Datum
  state_of db x = r.hget (r.at db (key_of ks q (task x))) state_field

  map-append :
      (l k : List Entry)
      → map (λ (e : Entry). e.task_id) (l ++ k)
        ≡ map (λ (e : Entry). e.task_id) l ++ map (λ (e : Entry). e.task_id) k
  map-append [] k = refl
  map-append (e ∷ l) k = ap (λ rest. e.task_id ∷ rest) (map-append l k)

  moved-ready :
      (id : Text) (db : r.Db)
      → r.ready (r.at (moved id db) (key_of ks q stream))
        ≡ r.ready (r.at db (key_of ks q stream))
          ++ record { stream_id = r.next_id now (r.at db (key_of ks q stream)); task_id = id } ∷ []
  moved-ready id db = simp (at-slot r ks q now, r.ready-xadd)

  forward-waiting : (ids : List Text) (db : r.Db) → waiting (forward ids db) ≡ waiting db ++ ids
  unfolding forward_each
  forward-waiting [] db = sym (append-nil (waiting db))
  forward-waiting (id ∷ ids) db =
      ap waiting (forward-cons id ids db)
      ∙ forward-waiting ids (moved id db)
      ∙ ap (λ es. map (λ (e : Entry). e.task_id) es ++ ids) (moved-ready id db)
      ∙ ap (λ l. l ++ ids) (map-append (r.ready (r.at db (key_of ks q stream))) _)
      ∙ append_assoc (waiting db) (id ∷ []) ids

  moved-score :
      (id x : Text) (db : r.Db)
      → r.zscore (r.at (moved id db) (key_of ks q scheduled)) x
        ≡ (if eq_text id x then none else r.zscore (r.at db (key_of ks q scheduled)) x)
  moved-score id x db = simp (at-slot r ks q now, r.zscore-zrem)

  forward-score :
      (ids : List Text) (x : Text) (db : r.Db)
      → score_of (forward ids db) x ≡ (if contains_text x ids then none else score_of db x)
  unfolding forward_each contains_text
  forward-score [] x db = refl
  forward-score (id ∷ ids) x db =
      ap (λ db'. score_of db' x) (forward-cons id ids db)
      ∙ forward-score ids x (moved id db)
      ∙ (elim (Bool-cases (eq_text id x)) [
        | inl e ↦ elim (Bool-cases (contains_text x ids)) [
          | inl more ↦ simp (e, more)
          | inr last ↦ simp (e, last) (moved-score id x db ∙ simp e)
        ]
        | inr e ↦ elim (Bool-cases (contains_text x ids)) [
          | inl more ↦ simp (e, more)
          | inr last ↦ simp (e, last) (moved-score id x db ∙ simp e)
        ]
      ])

  abbrev pending_number : r.Datum
  pending_number = r.number (state_number TaskState.pending)

  moved-state :
      (id x : Text) (db : r.Db)
      → r.hget (r.at (moved id db) (key_of ks q (task x))) state_field ≡ (
          if eq_text id x
          then some pending_number
          else r.hget (r.at db (key_of ks q (task x))) state_field)
  unfolding eq_text
  moved-state id x db = elim (Bool-cases (eq_text id x)) [
    | inl e ↦ simp (at-slot r ks q now, e, r.hget-hset, eq_text_refl)
    | inr e ↦ simp (at-slot r ks q now, e)
  ]

  forward-keeps_state :
      (ids : List Text) (x : Text) (db : r.Db)
      → state_of db x ≡ some pending_number
      → state_of (forward ids db) x ≡ some pending_number
  unfolding forward_each
  forward-keeps_state [] x db held = held
  forward-keeps_state (id ∷ ids) x db held =
      ap (λ db'. state_of db' x) (forward-cons id ids db)
      ∙ forward-keeps_state ids x (moved id db) (
          moved-state id x db
          ∙ (elim (Bool-cases (eq_text id x)) [ inl e ↦ simp e | inr e ↦ simp e held ]))

  forward-state :
      (ids : List Text) (x : Text) (db : r.Db)
      → contains_text x ids ≡ true
      → state_of (forward ids db) x ≡ some pending_number
  unfolding forward_each contains_text
  forward-state [] x db there = cc
  forward-state (id ∷ ids) x db there =
      ap (λ db'. state_of db' x) (forward-cons id ids db) ∙ (elim (Bool-cases (eq_text id x)) [
        | inl e ↦ forward-keeps_state ids x (moved id db) (moved-state id x db ∙ simp e)
        | inr e ↦ forward-state ids x (moved id db) (simp e at there)
      ])

  -- The ids that a tick moves.
  abbrev pub due_ids : ℕ → ℕ → r.Db → List Text
  due_ids at max db = zrange_by_score r at max (r.at db (key_of ks q scheduled))

  -- The tasks of the set whose time has come.
  abbrev pub IsReady : ℕ → r.Db → Text → Type 0
  IsReady at db x =
      (contains_text x (r.zrange (r.at db (key_of ks q scheduled))) ≡ true)
      × (is_due r at (score_of db x) ≡ true)

  -- What the forwarder does to the set, the stream and the hashes.
  abbrev pub IsForwarded : List Text → r.Db → r.Db → Type 0
  IsForwarded ids db after =
      (waiting after ≡ waiting db ++ ids)
      × ((x : Text) → score_of after x ≡ (if contains_text x ids then none else score_of db x))
      × ((x : Text) → contains_text x ids ≡ true → state_of after x ≡ some pending_number)

  due_ids-IsReady :
      (at max : ℕ) (db : r.Db) (x : Text)
      → contains_text x (due_ids at max db) ≡ true
      → IsReady at db x
  unfolding zrange_by_score
  due_ids-IsReady at max db x there = by_both _ _ (
      sym (
        member-keep_due r at (r.at db (key_of ks q scheduled)) x
          (r.zrange (r.at db (key_of ks q scheduled))))
      ∙ take-member x max
          (keep_due r at (r.at db (key_of ks q scheduled))
            (r.zrange (r.at db (key_of ks q scheduled))))
          there)
    where
      by_both : (a b : Bool) → (a && b) ≡ true → (a ≡ true) × (b ≡ true)
      by_both true b h = (refl, h)
      by_both false b h = cc

  IsReady-due_ids :
      (at max : ℕ) (db : r.Db) (x : Text)
      → length (
          keep_due r at
            (r.at db (key_of ks q scheduled))
            (r.zrange (r.at db (key_of ks q scheduled))))
        ≤ max
      → IsReady at db x
      → contains_text x (due_ids at max db) ≡ true
  unfolding zrange_by_score
  IsReady-due_ids at max db x room (there, due) =
      ap (contains_text x) (
        take_all max
          (keep_due r at (r.at db (key_of ks q scheduled))
            (r.zrange (r.at db (key_of ks q scheduled))))
          room)
      ∙ member-keep_due r at (r.at db (key_of ks q scheduled)) x
          (r.zrange (r.at db (key_of ks q scheduled)))
      ∙ simp (there, due)

module _ (r : Redis) (ks : Keys) (q : Text) where
  -- How many tasks of the set have come due.
  abbrev pub due_count : ℕ → r.Db → ℕ
  due_count at db = let v = r.at db (key_of ks q scheduled) in length (keep_due r at v (r.zrange v))

  -- When the call is answered, ForwardScheduled replies how many tasks it moves; these join the
  -- end of the stream in the order of their set, leave the scheduled set, in which every other
  -- task keeps its score, and are pending; only tasks of the set whose score is at most that of
  -- the given time are moved, and all of them if they are at most as many as the limit.
  pub forward_scheduled-moves :
      (at max : ℕ) (w : World r)
      → w.turns ≡ []
      → let ids = due_ids r ks q w.clock (schedule_score at) max w.db in
        let (res, after) = forward_scheduled r ks q at max w in
        (res ≡ ok (length ids))
        × IsForwarded r ks q w.clock ids w.db after.db
        × ((x : Text)
            → contains_text x ids ≡ true
            → IsReady r ks q w.clock (schedule_score at) w.db x)
        × (due_count (schedule_score at) w.db ≤ max
            → (x : Text) → IsReady r ks q w.clock (schedule_score at) w.db x
            → contains_text x ids ≡ true)
  unfolding forward_scheduled forward_cmd
  forward_scheduled-moves at max w calm =
      let ids = due_ids r ks q w.clock (schedule_score at) max w.db in
      simp
        (call-calm
          (forward_cmd r (key_of ks q scheduled) (key_of ks q stream) (schedule_score at) max
            (task_key_prefix ks q) TaskState.pending)
          w calm)
        (
          refl,
          (
            forward-waiting r ks q w.clock ids w.db,
            λ x. forward-score r ks q w.clock ids x w.db,
            λ x. forward-state r ks q w.clock ids x w.db,
          ),
          due_ids-IsReady r ks q w.clock (schedule_score at) max w.db,
          λ room x. IsReady-due_ids r ks q w.clock (schedule_score at) max w.db x room,
        )
