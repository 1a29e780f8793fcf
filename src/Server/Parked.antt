-- ===== src/Server/Parked.antt =====
-- internal/rdb/retry.go: a delivered task under Retry and Archive. It is parked when its message is
-- stored and its id is in the retry set or the archive.
use chronos_go.Common.{
  ℕ, ◌≡◌, refl, Text, true, false, some, ◌⊎◌, inl, inr, eq_text_refl, eq_text, ◌∙◌, subst,
}
use chronos_go.Keys.{Keys, QueueKey, key_of, stream, task, retry, archived}
use chronos_go.Task.{TaskState, TaskMessage}
use chronos_go.Redis.{Redis, has_entry}
use chronos_go.World.{World}
use chronos_go.Rdb.Scripts.{move_to_zset_cmd, store_task, set_state, msg_field}
use chronos_go.Rdb.Slots.{at-slot}
use chronos_go.Rdb.Calls.{bind-keeps, move_to_zset-keeps}
use chronos_go.Rdb.Released.{IsLockKey, is_lock, release_unique-at}
use chronos_go.Rdb.Enqueue.{unix_score}
use chronos_go.Rdb.Finish.{move_to_zset, release_unique, archive, retry as retry_task}

-- The message in the task's hash, which is in the retry set or in the archive.
unfoldable pub IsParked : (r : Redis) → Keys → Text → TaskMessage → r.Db → Type 0
IsParked r ks q msg db =
    (stored : TaskMessage) × (d : r.Datum) × (r.hget (r.at db (key_of ks q (task msg.id))) msg_field
      ≡ some d)
    × (r.decode d ≡ some stored)
    × (stored.id ≡ msg.id)
    × (stored.kind ≡ msg.kind)
    × (stored.payload ≡ msg.payload)
    × (score : ℕ) × ((r.zscore (r.at db (key_of ks q retry)) msg.id ≡ some score)
        ⊎ (r.zscore (r.at db (key_of ks q archived)) msg.id ≡ some score))

-- The task is still with the group, or parked.
unfoldable pub IsSafe : (r : Redis) → Keys → Text → ℕ → TaskMessage → r.Db → Type 0
IsSafe r ks q i msg db =
    (has_entry i (r.unacked (r.at db (key_of ks q stream))) ≡ true) ⊎ IsParked r ks q msg db

module _ (r : Redis) (ks : Keys) (q : Text) (i : ℕ) where
  retry_cmd-IsParked :
      (m : TaskMessage) (d : r.Datum) (score t : ℕ) (db : r.Db)
      → r.encode (record m { state = TaskState.retry }) ≡ some d
      → IsParked r ks q m (
          move_to_zset_cmd r
            (key_of ks q stream)
            (key_of ks q (task m.id))
            (key_of ks q retry)
            i
            d
            TaskState.retry
            score
            m.id
            t
            db)
  unfolding IsParked move_to_zset_cmd store_task set_state eq_text
  retry_cmd-IsParked m d score t db encoded = (
    record m { state = TaskState.retry },
    d,
    simp (at-slot r ks q t, r.hget-hset, eq_text_refl),
    r.decode-encode (record m { state = TaskState.retry }) d encoded,
    refl,
    refl,
    refl,
    score,
    inl (simp (at-slot r ks q t, r.zscore-zadd, eq_text_refl)),
  )

  archive_cmd-IsParked :
      (m : TaskMessage) (d : r.Datum) (score t : ℕ) (db : r.Db)
      → r.encode (record m { state = TaskState.archived }) ≡ some d
      → IsParked r ks q m (
          move_to_zset_cmd r
            (key_of ks q stream)
            (key_of ks q (task m.id))
            (key_of ks q archived)
            i
            d
            TaskState.archived
            score
            m.id
            t
            db)
  unfolding IsParked move_to_zset_cmd store_task set_state eq_text
  archive_cmd-IsParked m d score t db encoded = (
    record m { state = TaskState.archived },
    d,
    simp (at-slot r ks q t, r.hget-hset, eq_text_refl),
    r.decode-encode (record m { state = TaskState.archived }) d encoded,
    refl,
    refl,
    refl,
    score,
    inr (simp (at-slot r ks q t, r.zscore-zadd, eq_text_refl)),
  )

  -- What IsParked says of the message holds of a later version of it.
  IsParked-same :
      (msg m : TaskMessage) (db : r.Db)
      → m.id ≡ msg.id
      → m.kind ≡ msg.kind
      → m.payload ≡ msg.payload
      → IsParked r ks q m db
      → IsParked r ks q msg db
  unfolding IsParked
  IsParked-same msg m db same_id same_kind same_payload
        (stored, d, body, decoded, a, b, c, score, place) =
      let body' : r.hget (r.at db (key_of ks q (task msg.id))) msg_field ≡ some d =
        subst (λ id. r.hget (r.at db (key_of ks q (task id))) msg_field ≡ some d) same_id body in
      (
        stored,
        d,
        body',
        decoded,
        a ∙ same_id,
        b ∙ same_kind,
        c ∙ same_payload,
        score,
        subst
            (λ id.
              (r.zscore (r.at db (key_of ks q retry)) id ≡ some score)
              ⊎ (r.zscore (r.at db (key_of ks q archived)) id ≡ some score))
            same_id place,
      )

  pub IsSafe-at_once :
      (msg : TaskMessage) (w : World r)
      → has_entry i (r.unacked (r.at w.db (key_of ks q stream))) ≡ true
      → IsSafe r ks q i msg w.db
  unfolding IsSafe
  IsSafe-at_once msg w held = inl held

  -- Two databases that hold the same but for locks.
  IsSafe-cong :
      (msg : TaskMessage) (db db' : r.Db)
      → ((a : QueueKey) → is_lock a ≡ false → r.at db' (key_of ks q a) ≡ r.at db (key_of ks q a))
      → IsSafe r ks q i msg db
      → IsSafe r ks q i msg db'
  unfolding IsSafe IsParked
  IsSafe-cong msg db db' same (inl held) = inl (rw (same stream refl) held)
  IsSafe-cong msg db db' same (inr (stored, d, body, decoded, a, b, c, score, place)) = inr (
    stored,
    d,
    (rw (same (task msg.id) refl) body),
    decoded,
    a,
    b,
    c,
    score,
    (rw (same retry refl, same archived refl) place),
  )

  pub retry-IsSafe :
      (msg m : TaskMessage) (at : ℕ) (w : World r)
      → m.id ≡ msg.id
      → m.kind ≡ msg.kind
      → m.payload ≡ msg.payload
      → IsSafe r ks q i msg w.db
      → IsSafe r ks q i msg (retry_task r ks q i m at w).1.db
  unfolding retry_task IsSafe
  retry-IsSafe msg m at w x y z before =
      move_to_zset-keeps r ks q i (IsSafe r ks q i msg) m (key_of ks q retry) TaskState.retry
        (unix_score at) w before
        (λ d encoded. inr (
          IsParked-same msg m
            (move_to_zset_cmd r (key_of ks q stream) (key_of ks q (task m.id)) (key_of ks q retry) i
              d TaskState.retry (unix_score at) m.id w.clock w.db)
            x y z (retry_cmd-IsParked m d (unix_score at) w.clock w.db encoded)))

  pub archive-IsSafe :
      (msg m : TaskMessage) (at : ℕ) (w : World r)
      → m.id ≡ msg.id
      → m.kind ≡ msg.kind
      → m.payload ≡ msg.payload
      → IsLockKey ks q m.unique_key
      → IsSafe r ks q i msg w.db
      → IsSafe r ks q i msg (archive r ks q i m at w).1.db
  unfolding archive IsSafe
  archive-IsSafe msg m at w x y z lock before =
      bind-keeps (λ v. IsSafe r ks q i msg v.db)
        (move_to_zset r ks q i m (key_of ks q archived) TaskState.archived (unix_score at))
        (λ _. release_unique r ks m) w
        (move_to_zset-keeps r ks q i (IsSafe r ks q i msg) m (key_of ks q archived)
          TaskState.archived (unix_score at) w before
          (λ d encoded. inr (
            IsParked-same msg m
              (move_to_zset_cmd r (key_of ks q stream) (key_of ks q (task m.id))
                (key_of ks q archived) i d TaskState.archived (unix_score at) m.id w.clock w.db)
              x y z (archive_cmd-IsParked m d (unix_score at) w.clock w.db encoded))))
        (λ _ between.
          IsSafe-cong msg
            (move_to_zset r ks q i m (key_of ks q archived) TaskState.archived (unix_score at)
              w).1.db
            (release_unique r ks m
              (move_to_zset r ks q i m (key_of ks q archived) TaskState.archived (unix_score at)
                w).1).1.db
            (λ a other.
              release_unique-at r ks q m a
                (move_to_zset r ks q i m (key_of ks q archived) TaskState.archived (unix_score at)
                  w).1
                lock other)
            between)
