-- ===== src/Rdb/Locks.antt =====
-- The lock of unique enqueueing, unique.go, and its release, rdb.go: who may enqueue, and until when.
use chronos_go.Common.{
  ℕ, ◌+◌, ◌≡◌, ◌≢◌, ◌≤◌, ◌<◌, ltb, refl, Text, ℤ, pos, negsuc, eq_text, eq_text_refl, ne→eq_text,
  Option, none, some, Option-cases, inl, inr, List, [], ◌∷◌, ap, ◌∙◌, sym, if◌then◌else◌, lt→ltb,
}
use chronos_go.Keys.{Keys, key_of, stream, task, completed, archived, unique}
use chronos_go.Redis.{Redis, set_px, del}
use chronos_go.Task.{TaskState, TaskMessage}
use chronos_go.Rdb.Scripts.{
  enqueue_cmd, store_task, set_state, enqueue_unique_cmd, release_unique_cmd,
}
use chronos_go.Rdb.Slots.{at-slot}
use chronos_go.Rdb.Once.{set_nx_px-held, set_nx_px-free}

-- What is done about a lock: an enqueue under it, with the lock's time and the encoded message, or a
-- release by the task of an id.
pub data LockOp (D : Type 0) : Type 0 where
  enqueue_under : TaskMessage → ℕ → D → LockOp D
  release_by : Text → LockOp D

pos_ne : (pos 1 ≡ negsuc 0) → ⊥
pos_ne e = cc

module _ (r : Redis) (ks : Keys) (q s : Text) where
  abbrev lock : Text
  lock = key_of ks q (unique s)

  -- EnqueueUnique's script for a message.
  unfoldable pub unique_script : TaskMessage → ℕ → r.Datum → ℕ → r.Db → ℤ × r.Db
  unique_script m ttl d =
      enqueue_unique_cmd r (key_of ks q (unique s)) (key_of ks q (task m.id)) (key_of ks q stream)
        (key_of ks q completed) (key_of ks q archived) m.id ttl d TaskState.pending

  -- The database after an operation on the lock.
  unfoldable pub lock_step : LockOp r.Datum → ℕ → r.Db → r.Db
  unfolding unique_script
  lock_step (enqueue_under m ttl d) now db = (unique_script m ttl d now db).1
  lock_step (release_by id) now db = release_unique_cmd r (key_of ks q (unique s)) id now db

  unfoldable pub lock_run : List (ℕ × LockOp r.Datum) → r.Db → r.Db
  unfolding lock_step
  lock_run [] db = db
  lock_run ((now, op) ∷ ops) db = lock_run ops (lock_step op now db)

  -- Enqueues, and releases by others than the holder, each from the one time on and before the other.
  unfoldable pub AreForeign : Text → ℕ → ℕ → List (ℕ × LockOp r.Datum) → Type 0
  AreForeign holder from until [] = Unit {0}
  AreForeign holder from until ((now, enqueue_under m ttl d) ∷ ops) =
      (from ≤ now) × (now < until) × AreForeign holder from until ops
  AreForeign holder from until ((now, release_by id) ∷ ops) =
      (from ≤ now) × (now < until) × (holder ≢ id) × AreForeign holder from until ops

  enqueue_cmd-lock :
      (id : Text) (d : r.Datum) (now : ℕ) (db : r.Db)
      → r.at
          (enqueue_cmd r
            (key_of ks q (task id))
            (key_of ks q stream)
            (key_of ks q completed)
            (key_of ks q archived)
            d
            TaskState.pending
            id
            now
            db)
          lock
        ≡ r.at db lock
  unfolding enqueue_cmd store_task set_state
  enqueue_cmd-lock id d now db = simp (at-slot r ks q now)

  -- Under a lock that is held, enqueueing is answered as a duplicate and changes nothing.
  pub unique_script-held :
      (m : TaskMessage) (holder : Text) (ttl now : ℕ) (d : r.Datum) (db : r.Db)
      → r.get now (r.at db (key_of ks q (unique s))) ≡ some holder
      → unique_script m ttl d now db ≡ (negsuc 0, db)
  unfolding unique_script enqueue_unique_cmd
  unique_script-held m holder ttl now d db held =
      simp (set_nx_px-held r lock m.id holder ttl now db held)

  unique_script-free :
      (m : TaskMessage) (ttl now : ℕ) (d : r.Datum) (db : r.Db)
      → r.get now (r.at db lock) ≡ none
      → unique_script m ttl d now db ≡ (
        pos 1,
        enqueue_cmd r
            (key_of ks q (task m.id))
            (key_of ks q stream)
            (key_of ks q completed)
            (key_of ks q archived)
            d
            TaskState.pending
            m.id
            now
            (r.write now lock (set_px m.id ttl) db),
      )
  unfolding unique_script enqueue_unique_cmd
  unique_script-free m ttl now d db free = simp (set_nx_px-free r lock m.id ttl now db free)

  -- The lock behind an enqueue that was accepted.
  accepted_lock :
      (m : TaskMessage) (ttl now later : ℕ) (d : r.Datum) (db : r.Db)
      → (unique_script m ttl d now db).0 ≡ pos 1
      → now ≤ later
      → r.get later (r.at (unique_script m ttl d now db).1 lock)
        ≡ (if ltb later (now + ttl) then some m.id else none)
  accepted_lock m ttl now later d db accepted after =
      elim (Option-cases (r.get now (r.at db lock))) [
        | inl free ↦ rw (unique_script-free m ttl now d db free) (
            simp (
              enqueue_cmd-lock m.id d now,
              at-slot r ks q now,
              eq_text_refl,
              r.get-set_px now later ttl m.id (r.at db lock) after,
            ))
        | inr (holder, held) ↦
            absurd (pos_ne (sym (rw (unique_script-held m holder ttl now d db held) at accepted)))
      ]

  foreign_release :
      (holder id : Text) (now : ℕ) (db : r.Db)
      → holder ≢ id
      → r.get now (r.at db lock) ≡ some holder
      → release_unique_cmd r lock id now db ≡ db
  unfolding release_unique_cmd
  foreign_release holder id now db apart held =
      ap
        (λ (o : Option Text). elim o as (λ _. r.Db) [
          | some x ↦ if eq_text x id then r.write now lock del db else db
          | none ↦ db
        ])
        held
      ∙ simp (ne→eq_text holder id apart)

  unchanged :
      (holder : Text) (from until : ℕ) (ops : List (ℕ × LockOp r.Datum)) (db : r.Db)
      → AreForeign holder from until ops
      → ((later : ℕ) → from ≤ later → later < until → r.get later (r.at db lock) ≡ some holder)
      → lock_run ops db ≡ db
  unfolding lock_run lock_step AreForeign
  unchanged holder from until [] db foreign held = refl
  unchanged holder from until ((now, enqueue_under m ttl d) ∷ ops) db (late, early, foreign) held =
      ap (λ o. lock_run ops o.1) (unique_script-held m holder ttl now d db (held now late early))
      ∙ unchanged holder from until ops db foreign held
  unchanged holder from until ((now, release_by id) ∷ ops) db (late, early, apart, foreign) held =
      ap (lock_run ops) (foreign_release holder id now db apart (held now late early))
      ∙ unchanged holder from until ops db foreign held

  -- After a unique enqueue that was accepted, until the lock's time is up, any sequence of
  -- further unique enqueues under the same lock and of releases by tasks of other ids leaves the
  -- database as it is.
  pub lock-exclusive :
      (m : TaskMessage) (ttl now : ℕ) (d : r.Datum) (ops : List (ℕ × LockOp r.Datum)) (db : r.Db)
      → (unique_script m ttl d now db).0 ≡ pos 1
      → AreForeign m.id now (now + ttl) ops
      → lock_run ops (unique_script m ttl d now db).1 ≡ (unique_script m ttl d now db).1
  lock-exclusive m ttl now d ops db accepted foreign =
      unchanged m.id now (now + ttl) ops (unique_script m ttl d now db).1 foreign
        (λ later late early.
          accepted_lock m ttl now later d db accepted late ∙ simp (lt→ltb later (now + ttl) early))

  -- If the task that a lock was taken for releases it within the lock's time, the next unique
  -- enqueue under it, of any message, is accepted.
  pub lock-released :
      (m m' : TaskMessage) (ttl ttl' now later again : ℕ) (d d' : r.Datum) (db : r.Db)
      → (unique_script m ttl d now db).0 ≡ pos 1
      → now ≤ later
      → later < now + ttl
      → (unique_script m' ttl' d' again
          (lock_step (release_by m.id) later (unique_script m ttl d now db).1)).0
        ≡ pos 1
  unfolding lock_step release_unique_cmd
  lock-released m m' ttl ttl' now later again d d' db accepted late early =
      let after = (unique_script m ttl d now db).1 in
      let held : r.get later (r.at after lock) ≡ some m.id =
        accepted_lock m ttl now later d db accepted late ∙ simp (lt→ltb later (now + ttl) early) in
      let released : release_unique_cmd r lock m.id later after ≡ r.write later lock del after =
        ap
          (λ (o : Option Text). elim o as (λ _. r.Db) [
            | some x ↦ if eq_text x m.id then r.write later lock del after else after
            | none ↦ after
          ])
          held
        ∙ simp (eq_text_refl m.id) in
      let free : r.get again (r.at (r.write later lock del after) lock) ≡ none =
        simp (at-slot r ks q later, eq_text_refl, r.get-del) in
      ap (λ x. (unique_script m' ttl' d' again x).0) released
      ∙ ap (λ o. o.0) (unique_script-free m' ttl' again d' (r.write later lock del after) free)
