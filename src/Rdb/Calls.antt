-- ===== src/Rdb/Calls.antt =====
-- What holds after calls that may fail, whatever becomes of them.
use chronos_go.Common.{ℕ, ◌+◌, ◌≡◌, Text, Option, none, some, refl, sym, subst}
use chronos_go.Keys.{Keys, task, stream, key_of}
use chronos_go.Redis.{Redis}
use chronos_go.Task.{TaskState, TaskMessage}
use chronos_go.Rdb.Finish.{move_to_zset}
use chronos_go.Rdb.Enqueue.{run, encode_message}
use chronos_go.World.{
  World, M, Result, raise, pure, not_encodable, ok, err, continue, ◌>>=◌, Fault, answered, refused,
  lost, first_turn, later_turns, settle, call,
}
use chronos_go.Rdb.Scripts.{move_to_zset_cmd}

settle-either :
    {r : Redis} {A : Type 0} (P : r.Db → Type 0) (fault : Fault) (a : A) (db : r.Db) (w : World r)
    → P w.db
    → P db
    → P (settle fault a db w).1.db
settle-either P answered a db w before after = after
settle-either P refused a db w before after = before
settle-either P lost a db w before after = after

-- What a call leaves behind is what was there or what its function makes of it, whatever becomes of
-- the call.
pub call-either :
    {r : Redis} {A : Type 0} (P : r.Db → Type 0) (f : ℕ → r.Db → A × r.Db) (w : World r)
    → P w.db
    → P ((f w.clock w.db).1)
    → P (call f w).1.db
unfolding call first_turn later_turns
call-either P f w before after =
    let done = f w.clock w.db in
    settle-either P (first_turn w.turns).fault done.0 done.1
      (record w { clock = w.clock + (first_turn w.turns).elapsed; turns = later_turns w.turns })
      before after

-- What a predicate on worlds keeps along a bind.
pub bind-keeps :
    {r : Redis} {A B : Type 0} (P : World r → Type 0) (m : M r A) (f : A → M r B) (w : World r)
    → P (m w).1
    → ((a : A) → P (m w).1 → P (f a (m w).1).1)
    → P ((m >>= f) w).1
bind-keeps {r = r} {A = A} {B = B} P m f w between after = by_result (m w).0
  where
    by_result : (res : Result A) → P (continue res f (m w).1).1
    by_result (ok a) = after a between
    by_result (err e) = between

-- A call that reads goes on with what was there, on a database that is the same, or fails.
pub look-keeps :
    {r : Redis} {A B : Type 0} (P : r.Db → Type 0) (f : ℕ → r.Db → A) (k : A → M r B) (w : World r)
    → P w.db
    → ((v : World r) → v.db ≡ w.db → P (k (f w.clock w.db) v).1.db)
    → P ((call (λ t db. (f t db, db)) >>= k) w).1.db
unfolding call first_turn later_turns
look-keeps {r = r} P f k w before after =
    by_fault (first_turn w.turns).fault
      (record w { clock = w.clock + (first_turn w.turns).elapsed; turns = later_turns w.turns })
      refl
  where
    by_fault :
        (fault : Fault) (v : World r)
        → v.db ≡ w.db
        → P
            (continue
              (settle fault (f w.clock w.db) w.db v).0
              k
              (settle fault (f w.clock w.db) w.db v).1).1.db
    by_fault answered v same = after (record v { db = w.db }) refl
    by_fault refused v same = subst P (sym same) before
    by_fault lost v same = before

abbrev pub encoded_as : (r : Redis) → Option r.Datum → M r r.Datum
encoded_as r o = elim o [ none ↦ raise not_encodable | some d ↦ pure d ]

module _ (r : Redis) (ks : Keys) (q : Text) (i : ℕ) where
  -- A move keeps what held before it and what its script brings about.
  pub move_to_zset-keeps :
      (P : r.Db → Type 0) (m : TaskMessage) (zset : Text) (state : TaskState) (score : ℕ)
      (w : World r)
      → P w.db
      → ((d : r.Datum)
          → r.encode (record m { state = state }) ≡ some d
          → P (
              move_to_zset_cmd r
                (key_of ks q stream)
                (key_of ks q (task m.id))
                zset
                i
                d
                state
                score
                m.id
                w.clock
                w.db))
      → P (move_to_zset r ks q i m zset state score w).1.db
  unfolding move_to_zset encode_message
  move_to_zset-keeps P m zset state score w before after =
      by_encoding (r.encode (record m { state = state })) refl
    where
      by_encoding :
          (o : Option r.Datum)
          → r.encode (record m { state = state }) ≡ o
          → P
              (continue
                (encoded_as r o w).0
                (λ d. run r (
                  move_to_zset_cmd r
                    (key_of ks q stream)
                    (key_of ks q (task m.id))
                    zset
                    i
                    d
                    state
                    score
                    m.id))
                (encoded_as r o w).1).1.db
      by_encoding none failed = before
      by_encoding (some d) encoded =
          call-either P
            (λ t db. (
              tt,
              move_to_zset_cmd r (key_of ks q stream) (key_of ks q (task m.id)) zset i d state score
                  m.id t db,
            ))
            w before (after d encoded)
