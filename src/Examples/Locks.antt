-- ===== src/Examples/Locks.antt =====
-- A unique lock, and the moves of a delivered task, at a concrete store.
use chronos_go.Common.{
  ℕ, ◌*◌, ◌/◌, ◌≡◌, ◌≢◌, refl, inl, codes, ℤ, pos, false, some, List, [], ◌∷◌, arith,
}
use chronos_go.Keys.{QueueKey, key_of, task}
use chronos_go.Task.{TaskState}
use chronos_go.World.{World, ok}
use chronos_go.Rdb.Score.{score_second}
use chronos_go.Rdb.Scripts.{enqueue_unique_cmd, set_nx_px}
use chronos_go.Rdb.Enqueue.{second}
use chronos_go.Rdb.Finish.{retry, done}
use chronos_go.Rdb.Released.{IsLockKey}
use chronos_go.Rdb.Locks.{
  LockOp, enqueue_under, release_by, unique_script, lock_step, lock_run, AreForeign, lock-exclusive,
  lock-released,
}
use chronos_go.Rdb.Moved.{IsDropped, IsMoved, retry-Moved, done-Dropped}
use chronos_go.Examples.Store.{store, still}
use chronos_go.Examples.Data.{keys, mail, body, sample, calm_world, delivered}

abbrev first_enqueue : ℤ × store.Db
first_enqueue = unique_script store keys mail (codes "s") sample 60 (body sample) 100 calm_world.db

accepted : first_enqueue.0 ≡ pos 1
unfolding unique_script enqueue_unique_cmd set_nx_px store still
accepted = refl

abbrev attempts : List (ℕ × LockOp store.Datum)
attempts = (110, enqueue_under sample 60 (body sample)) ∷ (120, release_by (codes "b")) ∷ []

different : sample.id ≢ codes "b"
different e = ground arith

foreign : AreForeign store keys mail (codes "s") sample.id 100 160 attempts
unfolding AreForeign
foreign = (omega arith, omega arith, (omega arith, omega arith, different, tt))

lock-exclusive_example :
    lock_run store keys mail (codes "s") attempts first_enqueue.1 ≡ first_enqueue.1
lock-exclusive_example =
    lock-exclusive store keys mail (codes "s") sample 60 100 (body sample) attempts calm_world.db
      accepted foreign

lock-released_example :
    (unique_script store keys mail
      (codes "s")
      sample
      60
      (body sample)
      130
      (lock_step store keys mail (codes "s") (release_by sample.id) 120 first_enqueue.1)).0
    ≡ pos 1
lock-released_example =
    lock-released store keys mail (codes "s") sample sample 60 60 100 120 130 (body sample)
      (body sample) calm_world.db accepted (omega arith) (omega arith)

-- All calls are answered, and an entry is delivered.
abbrev delivered_world : World store
unfolding store
delivered_world = record { db = delivered; clock = 1000000000; known = []; turns = [] }

calm : delivered_world.turns ≡ []
unfolding store
calm = refl

encodes :
    store.encode (record sample { state = TaskState.retry })
    ≡ some (body (record sample { state = TaskState.retry }))
unfolding store body
encodes = refl

unlocked : IsLockKey keys mail sample.unique_key
unfolding IsLockKey
unlocked = inl refl

retry-Moved_example :
    let (res, after) = retry store keys mail 1 sample 7500000000 delivered_world in
    (res ≡ ok tt)
    × IsDropped store keys mail 1 sample delivered_world.db after.db
    × IsMoved store keys mail 1 sample QueueKey.retry TaskState.retry
        (body (record sample { state = TaskState.retry }))
        (7500000000 / second * score_second)
        after.db
retry-Moved_example =
    retry-Moved store keys mail 1 sample (body (record sample { state = TaskState.retry }))
      7500000000 delivered_world calm encodes

done-Dropped_example :
    let after = (done store keys mail 1 sample delivered_world).1 in
    IsDropped store keys mail 1 sample delivered_world.db after.db
    × (store.exists (store.at after.db (key_of keys mail (task sample.id))) ≡ false)
done-Dropped_example = done-Dropped store keys mail 1 sample delivered_world calm refl unlocked
