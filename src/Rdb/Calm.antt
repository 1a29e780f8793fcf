-- ===== src/Rdb/Calm.antt =====
-- Calls that are all answered: what they return, and the world that they leave.
use chronos_go.Common.{
  ℕ, ◌+◌, ◌≡◌, refl, Text, Bool-cases, Option, some, inl, inr, [], ◌∷◌, ap, ◌∙◌, sym, arith,
}
use chronos_go.Keys.{Keys, QueueKey, key_of, queues_key}
use chronos_go.Redis.{Redis, contains_text, sadd}
use chronos_go.Task.{TaskMessage}
use chronos_go.World.{World, ok, first_turn, later_turns, call, settle}
use chronos_go.Rdb.Enqueue.{encode_message, register_queue}
use chronos_go.Rdb.Slots.{register_queue-at}
use chronos_go.Rdb.Calls.{encoded_as}

pub call-calm :
    {r : Redis} {A : Type 0} (f : ℕ → r.Db → A × r.Db) (w : World r)
    → w.turns ≡ []
    → call f w ≡ (ok (f w.clock w.db).0, record w { db = (f w.clock w.db).1; turns = [] })
unfolding call first_turn later_turns
call-calm f w calm =
    ap
      (λ ts.
        settle (first_turn ts).fault (f w.clock w.db).0 (f w.clock w.db).1
          (record w { clock = w.clock + (first_turn ts).elapsed; turns = later_turns ts }))
      calm
    ∙ ap (λ t. (ok (f w.clock w.db).0, record w { db = (f w.clock w.db).1; clock = t; turns = [] }))
        (omega arith)

-- Registering a queue succeeds at once and leaves the keys of the queues.
pub register_queue-calm :
    (r : Redis) (ks : Keys) (p : Text) (w : World r)
    → w.turns ≡ []
    → (v : World r) × (register_queue r ks p w ≡ (ok tt, v))
      × (v.turns ≡ [])
      × (v.clock ≡ w.clock)
      × ((q : Text) (a : QueueKey) → r.at v.db (key_of ks q a) ≡ r.at w.db (key_of ks q a))
unfolding register_queue
register_queue-calm r ks p w calm = elim (Bool-cases (contains_text p w.known)) [
  | inl there ↦ (w, simp there, calm, refl, λ q a. refl)
  | inr fresh ↦
      let after : World r = record w {
        db = r.write w.clock (queues_key ks) (sadd p) w.db;
        known = p ∷ w.known;
        turns = [];
      } in
      let same : register_queue r ks p w ≡ (ok tt, after) =
        simp (fresh, call-calm (λ t db. (tt, r.write t (queues_key ks) (sadd p) db)) w calm) in
      (
        after,
        same,
        refl,
        refl,
        λ q a. ap (λ o. r.at o.1.db (key_of ks q a)) (sym same) ∙ register_queue-at r ks p q a w,
      )
]

-- What is encodable is encoded without a call.
pub encode_message-calm :
    (r : Redis) (m : TaskMessage) (d : r.Datum) (w : World r)
    → r.encode m ≡ some d
    → encode_message r m w ≡ (ok d, w)
unfolding encode_message
encode_message-calm r m d w encoded = ap (λ (o : Option r.Datum). encoded_as r o w) encoded
