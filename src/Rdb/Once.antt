-- ===== src/Rdb/Once.antt =====
-- The lock of periodic enqueueing, periodic.go, until its time is up.
use chronos_go.Common.{
  ℕ, ◌+◌, ◌≡◌, ◌≤◌, ◌<◌, Text, codes, ℤ, pos, negsuc, eq_text_refl, Bool, true, false, Option, none,
  some, Option-cases, inl, inr, ap, sym, lt→ltb,
}
use chronos_go.Keys.{Keys, key_of, stream, task, completed, archived, pdedup}
use chronos_go.Redis.{Redis, set_px}
use chronos_go.Task.{TaskState, TaskMessage}
use chronos_go.Rdb.Scripts.{enqueue_cmd, store_task, set_state, set_nx_px, enqueue_periodic_cmd}
use chronos_go.Rdb.Slots.{at-slot}

pub set_nx_px-held :
    (r : Redis) (key value holder : Text) (ttl now : ℕ) (db : r.Db)
    → r.get now (r.at db key) ≡ some holder
    → set_nx_px r key value ttl now db ≡ (false, db)
unfolding set_nx_px
set_nx_px-held r key value holder ttl now db held =
    ap
      (λ (o : Option Text). elim o as (λ _. Bool × r.Db) [
        | some x ↦ (false, db)
        | none ↦ (true, r.write now key (set_px value ttl) db)
      ])
      held

pub set_nx_px-free :
    (r : Redis) (key value : Text) (ttl now : ℕ) (db : r.Db)
    → r.get now (r.at db key) ≡ none
    → set_nx_px r key value ttl now db ≡ (true, r.write now key (set_px value ttl) db)
unfolding set_nx_px
set_nx_px-free r key value ttl now db free =
    ap
      (λ (o : Option Text). elim o as (λ _. Bool × r.Db) [
        | some x ↦ (false, db)
        | none ↦ (true, r.write now key (set_px value ttl) db)
      ])
      free

pos_ne : (pos 1 ≡ negsuc 0) → ⊥
pos_ne e = cc

module _ (r : Redis) (ks : Keys) (q : Text) where
  -- EnqueuePeriodic's script for one message and trigger.
  abbrev pub periodic_script : TaskMessage → Text → ℕ → r.Datum → ℕ → r.Db → ℤ × r.Db
  periodic_script m trigger ttl d =
      enqueue_periodic_cmd r (key_of ks q (pdedup trigger)) (key_of ks q (task m.id))
        (key_of ks q stream) (key_of ks q completed) (key_of ks q archived) m.id ttl d
        TaskState.pending

  pub enqueue_cmd-pdedup :
      (id trigger : Text) (d : r.Datum) (now : ℕ) (db : r.Db)
      → r.at
          (enqueue_cmd r
            (key_of ks q (task id))
            (key_of ks q stream)
            (key_of ks q completed)
            (key_of ks q archived)
            d
            TaskState.pending
            id
            now
            db)
          (key_of ks q (pdedup trigger))
        ≡ r.at db (key_of ks q (pdedup trigger))
  unfolding enqueue_cmd store_task set_state
  enqueue_cmd-pdedup id trigger d now db = simp (at-slot r ks q now)

  -- After the script of EnqueuePeriodic has enqueued a trigger, the same trigger fired again
  -- before the dedup time is up, by any scheduler and for any message, is answered as a duplicate
  -- and leaves the database as it is.
  pub periodic_script-once :
      (m m' : TaskMessage) (trigger : Text) (ttl ttl' : ℕ) (d d' : r.Datum) (first second : ℕ)
      (db : r.Db)
      → (periodic_script m trigger ttl d first db).0 ≡ pos 1
      → first ≤ second
      → second < first + ttl
      → periodic_script m' trigger ttl' d' second (periodic_script m trigger ttl d first db).1
        ≡ (negsuc 0, (periodic_script m trigger ttl d first db).1)
  unfolding enqueue_periodic_cmd
  periodic_script-once m m' trigger ttl ttl' d d' first second db fired later within =
      elim (Option-cases (r.get first (r.at db (key_of ks q (pdedup trigger))))) [
        | inl free ↦
            let taken =
              set_nx_px-free r (key_of ks q (pdedup trigger)) (codes "1") ttl first db free in
            let after =
              enqueue_cmd r (key_of ks q (task m.id)) (key_of ks q stream) (key_of ks q completed)
                (key_of ks q archived) d TaskState.pending m.id first
                (r.write first (key_of ks q (pdedup trigger)) (set_px (codes "1") ttl) db) in
            let held : r.get second (r.at after (key_of ks q (pdedup trigger))) ≡ some (codes "1") =
              simp (
                enqueue_cmd-pdedup m.id trigger d first,
                at-slot r ks q first,
                eq_text_refl,
                r.get-set_px first second ttl (codes "1") (r.at db (key_of ks q (pdedup trigger)))
                    later,
                lt→ltb second (first + ttl) within,
              ) in
            simp (
              taken,
              set_nx_px-held r (key_of ks q (pdedup trigger)) (codes "1") (codes "1") ttl' second
                  after held,
            )
        | inr (holder, held) ↦ absurd (
            pos_ne (
              sym (
                simp
                  (set_nx_px-held r (key_of ks q (pdedup trigger)) (codes "1") holder ttl first db
                    held)
                  at fired)))
      ]
