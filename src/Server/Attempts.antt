-- ===== src/Server/Attempts.antt =====
-- Calls that may fail, one after another, as the retries of server.go make them.
use chronos_go.Common.{ℕ, zero, suc, ◌+◌, ◌≡◌, Text, true}
use chronos_go.Keys.{Keys, key_of, stream, task}
use chronos_go.Task.{TaskMessage}
use chronos_go.Redis.{Redis, has_entry}
use chronos_go.Common.{Text, true}
use chronos_go.Keys.{key_of, stream, task}
use chronos_go.Task.{TaskMessage}
use chronos_go.Redis.{has_entry}
use chronos_go.World.{
  World, M, Result, continue, first_turn, later_turns, Fault, answered, refused, lost, settle, pure,
  call, ok, err,
}
use chronos_go.Rdb.Finish.{done}
use chronos_go.Server.Process.{with_retry}

-- P, if the call returned without an error.
abbrev pub WhenOk : {A : Type 0} → Result A → Type 0 → Type 0
WhenOk (ok a) P = P
WhenOk (err e) P = Unit {0}

-- Attempts that each keep H, and bring E about when they succeed, do so together.
pub with_retry-keeps :
    (r : Redis) (ks : Keys) (H E : r.Db → Type 0) (action : M r Unit)
    → ((w : World r) → H w.db → H (action w).1.db × WhenOk (action w).0 (E (action w).1.db))
    → (n : ℕ) (w : World r) → H w.db
    → H (with_retry r ks n action w).1.db
      × WhenOk (with_retry r ks n action w).0 (E (with_retry r ks n action w).1.db)
unfolding with_retry
with_retry-keeps r ks H E action step zero w before = step w before
with_retry-keeps r ks H E action step (suc n) w before =
    let (kept, done) = step w before in
    by_result (with_retry-keeps r ks H E action step n (action w).1) (action w).0 kept done
  where
    Keeps : Result (Unit {0}) × World r → Type 0
    Keeps after = H after.1.db × WhenOk after.0 (E after.1.db)

    by_result :
        (H (action w).1.db → Keeps (with_retry r ks n action (action w).1))
        → (res : Result (Unit {0})) → H (action w).1.db
        → WhenOk res (E (action w).1.db)
        → Keeps (
            (elim res as (λ _. M r Unit) [ ok _ ↦ pure tt | err e ↦ with_retry r ks n action ])
              (action w).1)
    by_result again (ok a) kept done = (kept, done)
    by_result again (err e) kept done = again kept

-- A call of a script that keeps H and brings E about.
pub call-brings :
    {r : Redis} {A : Type 0} (H E : r.Db → Type 0) (f : ℕ → r.Db → A × r.Db) (w : World r)
    → H w.db
    → H (f w.clock w.db).1
    → E (f w.clock w.db).1
    → H (call f w).1.db × WhenOk (call f w).0 (E (call f w).1.db)
unfolding call first_turn later_turns
call-brings {r = r} {A = A} H E f w before kept done = by_fault (first_turn w.turns).fault
  where
    later : World r
    later = record w { clock = w.clock + (first_turn w.turns).elapsed; turns = later_turns w.turns }

    by_fault :
        (fault : Fault)
        → H (settle fault (f w.clock w.db).0 (f w.clock w.db).1 later).1.db
          × WhenOk
              (settle fault (f w.clock w.db).0 (f w.clock w.db).1 later).0
              (E (settle fault (f w.clock w.db).0 (f w.clock w.db).1 later).1.db)
    by_fault answered = (kept, done)
    by_fault refused = (before, tt)
    by_fault lost = (kept, tt)

pub pure_after-brings :
    {r : Redis} {A B : Type 0} (H E : r.Db → Type 0) (g : A → B) (res : Result A) (v : World r)
    → H v.db × WhenOk res (E v.db)
    → let after : Result B × World r = continue res (λ a. pure (g a)) v in
      H after.1.db × WhenOk after.0 (E after.1.db)
pure_after-brings H E g (ok a) v h = h
pure_after-brings H E g (err e) v h = h

-- Delivered to a consumer of the group and not acknowledged.
abbrev pub IsUnacked : (r : Redis) → Keys → Text → ℕ → r.Db → Type 0
IsUnacked r ks q i db = has_entry i (r.unacked (r.at db (key_of ks q stream))) ≡ true

-- There is a hash for the task.
abbrev pub HasTask : (r : Redis) → Keys → TaskMessage → r.Db → Type 0
HasTask r ks m db = r.exists (r.at db (key_of ks m.queue (task m.id))) ≡ true
