-- ===== src/Server/Kept.antt =====
-- server.go and internal/rdb/recover.go: a delivered task on its way through the failure branch of
-- process, or through Recover, under calls to Redis that may fail.
use chronos_go.Common.{
  [], ◌∷◌, ◌++◌, ℕ, ◌+◌, ◌≡◌, refl, Text, true, false, Bool-cases, some, inl, inr, leb, ◌||◌,
}
use chronos_go.Keys.{Keys, key_of, stream}
use chronos_go.Task.{TaskState, TaskMessage}
use chronos_go.Retry.{GoError, error_text, as_skip_retry}
use chronos_go.Redis.{Redis, has_entry}
use chronos_go.World.{Failure, M, Result, pure, ok, err, World}
use chronos_go.Rdb.Released.{IsLockKey}
use chronos_go.Rdb.Consume.{Recovery, recover_message}
use chronos_go.Rdb.Finish.{archive, retry as retry_task}
use chronos_go.Server.Process.{dead_letter, process_failure}
use chronos_go.Server.Parked.{IsSafe, IsSafe-at_once, retry-IsSafe, archive-IsSafe}

module _ (r : Redis) (ks : Keys) (q : Text) (i : ℕ) where
  -- A task that is delivered, may be archived and whose lock, if any, is a unique key of its
  -- queue, is not lost when its handler fails: whatever becomes of the calls to Redis (answered,
  -- refused, or the reply lost), afterwards its entry is still unacknowledged, or its message is
  -- in its hash and decodes to one of the same id, kind and payload, and its id is in the retry
  -- set or in the archive.
  pub process_failure-IsSafe :
      (retry_delay : ℕ → GoError → ℕ) (msg : TaskMessage) (e : GoError) (w : World r)
      → msg.no_archive ≡ false
      → IsLockKey ks q msg.unique_key
      → has_entry i (r.unacked (r.at w.db (key_of ks q stream))) ≡ true
      → IsSafe r ks q i msg (process_failure r ks retry_delay q i msg e w).1.db
  unfolding process_failure dead_letter
  process_failure-IsSafe retry_delay msg e w archives lock held =
      elim (Bool-cases (as_skip_retry e || leb msg.max_retry msg.retried)) [
        | inl dead ↦
            simp (dead, archives)
              (archive-IsSafe r ks q i msg
                (record msg { no_archive = false; last_err = error_text e; completed_at = 0 })
                w.clock w refl refl refl lock (IsSafe-at_once r ks q i msg w held))
        | inr again ↦ simp again (
            retry-IsSafe r ks q i msg
              (record msg { retried = msg.retried + 1; last_err = error_text e; completed_at = 0 })
              (w.clock + retry_delay (msg.retried + 1) e) w refl refl refl
              (IsSafe-at_once r ks q i msg w held))
      ]

  -- What Recover notes about a call changes nothing.
  noted :
      (m : TaskMessage) (f : Unit {0} → Recovery) (g : Failure → Recovery) (res : Result (Unit {0}))
      (w : World r)
      → IsSafe r ks q i m w.db
      → IsSafe r ks q i m
          ((elim res as (λ _. M r Recovery) [ ok u ↦ pure (f u) | err e ↦ pure (g e) ]) w).1.db
  noted m f g (ok u) w before = before
  noted m f g (err e) w before = before

  -- A delivered task that Recover takes over, whose lock, if any, is a unique key of its queue,
  -- is not lost: whatever becomes of the calls to Redis, afterwards its entry is still
  -- unacknowledged, or its message is in its hash and decodes to one of the same id, kind and
  -- payload, and its id is in the retry set or in the archive.
  pub recover_message-IsSafe :
      (m : TaskMessage) (now : ℕ) (acc : Recovery) (w : World r)
      → IsLockKey ks q m.unique_key
      → has_entry i (r.unacked (r.at w.db (key_of ks q stream))) ≡ true
      → IsSafe r ks q i m (recover_message r ks q i m now acc w).1.db
  unfolding recover_message
  recover_message-IsSafe m now acc w lock held = elim (Bool-cases (leb m.max_retry m.retried)) [
    | inl spent ↦ simp spent (
        noted m
          (λ _. record acc {
            archived = acc.archived ++ record m { state = TaskState.archived } ∷ [];
          })
          (λ e. record acc { last_err = some e }) (archive r ks q i m now w).0
          (archive r ks q i m now w).1
          (archive-IsSafe r ks q i m m now w refl refl refl lock
            (IsSafe-at_once r ks q i m w held)))
    | inr left ↦ simp left (
        let again : TaskMessage = record m { retried = m.retried + 1 } in
        noted m (λ _. record acc { recovered = acc.recovered + 1 })
          (λ e. record acc { last_err = some e }) (retry_task r ks q i again now w).0
          (retry_task r ks q i again now w).1
          (retry-IsSafe r ks q i m again now w refl refl refl (IsSafe-at_once r ks q i m w held)))
  ]
