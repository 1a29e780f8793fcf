-- ===== src/Rdb/Slots.antt =====
-- What the keys of one queue hold after a command: the laws of Redis and the apartness of the keys.
use chronos_go.Common.{
  ℕ, arith, sym, ◌&&◌, ◌∷◌, ne→eq_text, eq_text→eq, ◌≡◌, ◌≢◌, ap, ◌∙◌, Text, eq_text, if◌then◌else◌,
  eq_text_refl, inl, inr, refl, Bool-cases,
}
use chronos_go.Keys.{Keys, QueueKey, key_of}
use chronos_go.Keys.Apart.{eq_key, eq_text-key_of}
use chronos_go.Keys.{queues_key}
use chronos_go.Keys.Queues.{Lacks, key_of-queue, key_of-ne-global}
use chronos_go.Redis.{Redis, contains_text, sadd, Write}
use chronos_go.Rdb.Enqueue.{run, register_queue}
use chronos_go.World.{World, Result}
use chronos_go.Rdb.Calls.{call-either, bind-keeps}

pub at-slot :
    (r : Redis) (ks : Keys) (q : Text) (now : ℕ) (a b : QueueKey) (w : Write r.Datum) (db : r.Db)
    → r.at (r.write now (key_of ks q a) w db) (key_of ks q b)
      ≡ (if eq_key a b then r.effect now w (r.at db (key_of ks q b)) else r.at db (key_of ks q b))
at-slot r ks q now a b w db =
    r.at-write now (key_of ks q a) (key_of ks q b) w db
    ∙ ap
        (λ same. if same then r.effect now w (r.at db (key_of ks q b)) else r.at db (key_of ks q b))
        (eq_text-key_of ks q a b)

-- Across queues: keys are the same only within a queue.
pub at-queue :
    (r : Redis) (ks : Keys) (p q : Text) (now : ℕ) (a b : QueueKey) (w : Write r.Datum) (db : r.Db)
    → Lacks 125 p
    → Lacks 125 q
    → r.at (r.write now (key_of ks p a) w db) (key_of ks q b) ≡ (
        if eq_text p q && eq_key a b
        then r.effect now w (r.at db (key_of ks q b))
        else r.at db (key_of ks q b))
at-queue r ks p q now a b w db clean_p clean_q = elim (Bool-cases (eq_text p q)) [
  | inl same ↦ rw (same, eq_text→eq p q same) (at-slot r ks q now a b w db)
  | inr other ↦
      r.at-write now (key_of ks p a) (key_of ks q b) w db
      ∙ simp (
        other,
        ne→eq_text (key_of ks p a) (key_of ks q b)
            (λ e. ground (arith, (key_of-queue ks p q a b clean_p clean_q e).0, eq_text_refl p)),
      )
]

-- Registering a queue leaves every key but the index of the queues.
pub register_queue-other :
    (r : Redis) (ks : Keys) (p j : Text) (w : World r)
    → queues_key ks ≢ j
    → r.at (register_queue r ks p w).1.db j ≡ r.at w.db j
unfolding register_queue
register_queue-other r ks p j w other = elim (Bool-cases (contains_text p w.known)) [
  | inl there ↦ simp there
  | inr fresh ↦ simp fresh (
      bind-keeps (λ v. r.at v.db j ≡ r.at w.db j) (run r (λ t. r.write t (queues_key ks) (sadd p)))
        (λ _ v. (Result.ok tt, record v { known = p ∷ v.known })) w
        (call-either (λ db. r.at db j ≡ r.at w.db j)
          (λ t db. (tt, r.write t (queues_key ks) (sadd p) db)) w refl
          (r.at-write w.clock (queues_key ks) j (sadd p) w.db
            ∙ simp (ne→eq_text (queues_key ks) j other)))
        (λ _ same. same))
]

-- Registering a queue leaves every key of a queue.
pub register_queue-at :
    (r : Redis) (ks : Keys) (p q : Text) (a : QueueKey) (w : World r)
    → r.at (register_queue r ks p w).1.db (key_of ks q a) ≡ r.at w.db (key_of ks q a)
register_queue-at r ks p q a w =
    register_queue-other r ks p (key_of ks q a) w (λ e. (key_of-ne-global ks q a).0 (sym e))
