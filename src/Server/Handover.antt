-- ===== src/Server/Handover.antt =====
-- server.go: process on the success of a step of a chain, under calls to Redis that may fail.
use chronos_go.Common.{ℕ, ◌*◌, ◌≡◌, ◌≢◌, ◌⊎◌, inl, inr, refl, Text, List, [], ◌∷◌}
use chronos_go.Keys.{Keys}
use chronos_go.Keys.Queues.{Lacks}
use chronos_go.Task.{TaskMessage, ChainLink}
use chronos_go.Redis.{Redis}
use chronos_go.World.{World, Result, ok, err}
use chronos_go.Rdb.Released.{IsLockKey}
use chronos_go.Rdb.Enqueue.{enqueue_chain_link, second}
use chronos_go.Server.Process.{
  TaskOutcome, outcome_success, unreported, three_times, enqueue_link, enqueue_next, hand_over,
  successor, acknowledge, unless_failed, process_success,
}
use chronos_go.Server.Attempts.{WhenOk, IsUnacked, HasTask, pure_after-brings, with_retry-keeps}
use chronos_go.Server.Chained.{enqueue_chain_link-Brings}
use chronos_go.Server.Acked.{done-HasTask}

module _ (r : Redis) (ks : Keys) (q : Text) (i : ℕ) (clean : Lacks 125 q) (msg : TaskMessage)
    (link : ChainLink) (tail : List ChainLink) (clean_link : Lacks 125 link.queue) where
  -- What process comes to: the successor is there and the task is done with, or the task is left for
  -- redelivery.
  abbrev pub IsHandedOver : Result TaskOutcome × World r → Type 0
  IsHandedOver after =
      ((after.0 ≡ ok outcome_success) × HasTask r ks (successor msg link tail) after.1.db)
      ⊎ ((after.0 ≡ ok unreported) × IsUnacked r ks q i after.1.db)

  enqueue_next-brings :
      (w : World r)
      → link.group ≡ []
      → IsUnacked r ks q i w.db
      → IsUnacked r ks q i (enqueue_next r ks msg link tail w).1.db
        × WhenOk
            (enqueue_next r ks msg link tail w).0
            (HasTask r ks (successor msg link tail) (enqueue_next r ks msg link tail w).1.db)
  unfolding enqueue_next enqueue_link successor
  enqueue_next-brings w plain held =
      let next = successor msg link tail in
      let done = enqueue_chain_link r ks next (link.delay * second) w in
      simp plain (
        pure_after-brings (IsUnacked r ks q i) (HasTask r ks next) (λ _. tt) done.0 done.1
          (enqueue_chain_link-Brings r ks q i clean next clean_link (link.delay * second) w held))

  hand_over-IsHandedOver :
      (w : World r)
      → link.group ≡ []
      → IsLockKey ks q msg.unique_key
      → msg.id ≢ (successor msg link tail).id
      → IsUnacked r ks q i w.db
      → IsHandedOver (hand_over r ks q i msg (link ∷ tail) w)
  unfolding hand_over three_times acknowledge successor
  hand_over-IsHandedOver w plain lock apart held =
      let next = successor msg link tail in
      let (kept, done) =
        with_retry-keeps r ks (IsUnacked r ks q i) (HasTask r ks next)
          (enqueue_next r ks msg link tail) (λ v h. enqueue_next-brings v plain h) 2 w held in
      by_result (three_times r ks (enqueue_next r ks msg link tail) w).0
        (three_times r ks (enqueue_next r ks msg link tail) w).1 kept done
    where
      by_result :
          (res : Result (Unit {0})) (v : World r)
          → IsUnacked r ks q i v.db
          → WhenOk res (HasTask r ks (successor msg link tail) v.db)
          → IsHandedOver
              (unless_failed r ks (acknowledge r ks q i (record msg { chain = [] })) res v)
      by_result (ok _) v kept there = inl (
        refl,
        done-HasTask r ks q i clean (successor msg link tail) clean_link (record msg { chain = [] })
            lock apart v there,
      )
      by_result (err e) v kept done = inr (refl, kept)

  -- When a delivered task succeeds and has a plain link next in its chain, then whatever becomes
  -- of the calls to Redis, either it is reported as a success and the successor's hash exists
  -- after the acknowledgement, or nothing is reported and its entry is still unacknowledged; for
  -- queue names without a closing brace, a successor's id other than the task's, and a lock, if
  -- any, under a unique key of the queue.
  pub process_success-handover :
      (w : World r)
      → msg.chain ≡ link ∷ tail
      → link.group ≡ []
      → IsLockKey ks q msg.unique_key
      → msg.id ≢ (successor msg link tail).id
      → IsUnacked r ks q i w.db
      → IsHandedOver (process_success r ks q i msg w)
  unfolding process_success
  process_success-handover w chained plain lock apart held =
      rw chained (hand_over-IsHandedOver w plain lock apart held)
