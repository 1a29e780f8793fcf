-- ===== src/Rdb/Registry.antt =====
-- registry.go of internal/rdb: the registry of schedules.

use chronos_go.Common.{
  ℕ, ◌/◌, leb, Text, Bool, true, false, ◌||◌, Option, none, some, List, [], ◌∷◌, length, map,
}
use chronos_go.Keys.{Keys, schedules_key, schedule_last_fired_key}
use chronos_go.Redis.{Redis, hset, hdel, del, contains_text}
use chronos_go.ScheduleMeta.{ScheduleMeta}
use chronos_go.World.{M, pure, time_now, call, attempt, ◌>>=◌, ◌>>◌}
use chronos_go.Rdb.Enqueue.{run, second}

module _ (r : Redis) where
  -- HSET of several fields
  unfoldable pub hset_all : Text → List (Text × r.Datum) → ℕ → r.Db → r.Db
  hset_all key [] t db = db
  hset_all key ((f, d) ∷ pairs) t db = hset_all key pairs t (r.write t key (hset f d) db)

  -- HDEL of several fields
  unfoldable pub hdel_all : Text → List Text → ℕ → r.Db → r.Db
  hdel_all key [] t db = db
  hdel_all key (f ∷ fs) t db = hdel_all key fs t (r.write t key (hdel f) db)

  -- HGETALL: each field with its value.
  unfoldable pub held_at : Text → Option r.Datum → List (Text × r.Datum) → List (Text × r.Datum)
  held_at f none rest = rest
  held_at f (some d) rest = (f, d) ∷ rest

  unfoldable pub values_of : List Text → r.Value → List (Text × r.Datum)
  unfolding held_at
  values_of [] v = []
  values_of (f ∷ fs) v = held_at f (r.hget v f) (values_of fs v)

  abbrev pub hgetall : r.Value → List (Text × r.Datum)
  hgetall v = values_of (r.hkeys v) v

  -- The pairs of RegisterSchedules, both times set.
  unfoldable pub registered : ℕ → List ScheduleMeta → List (Text × r.Datum)
  registered now [] = []
  registered now (m ∷ ms) =
      (m.id, r.meta (record m { registered_at = now; last_seen = now })) ∷ registered now ms

  -- The value of HMGET for an id, as JSON.
  unfoldable pub raw_meta : Option r.Datum → Option ScheduleMeta
  raw_meta none = none
  raw_meta (some d) = r.as_meta d

  -- The pairs of TouchSchedules.
  unfoldable pub touch_one :
      ℕ → Text → Option ScheduleMeta → List (Text × r.Datum) → List (Text × r.Datum)
  touch_one now id none rest = rest
  touch_one now id (some m) rest = (id, r.meta (record m { last_seen = now })) ∷ rest

  unfoldable pub touched : ℕ → List (Text × Option r.Datum) → List (Text × r.Datum)
  unfolding raw_meta touch_one
  touched now [] = []
  touched now ((id, raw) ∷ vals) = touch_one now id (raw_meta raw) (touched now vals)

  -- What PruneSchedules leaves: no JSON of an entry, or seen since.
  unfoldable pub is_fresh : ℕ → Option ScheduleMeta → Bool
  is_fresh cutoff none = true
  is_fresh cutoff (some m) = leb cutoff m.last_seen

  unfoldable pub spared : List Text → ℕ → Text → r.Datum → Bool
  unfolding is_fresh contains_text
  spared keep cutoff id d = contains_text id keep || is_fresh cutoff (r.as_meta d)

  -- The fields that PruneSchedules removes.
  unfoldable pub stale_fields : List Text → ℕ → List (Text × r.Datum) → List Text
  unfolding spared
  stale_fields keep cutoff [] = []
  stale_fields keep cutoff ((id, d) ∷ all) =
      let rest = stale_fields keep cutoff all in
      elim (spared keep cutoff id d) [ true ↦ rest | false ↦ id ∷ rest ]

  unfoldable pub listed_meta : Text → Option ScheduleMeta → List ScheduleMeta → List ScheduleMeta
  listed_meta id none rest = rest
  listed_meta id (some m) rest = record m { id = id } ∷ rest

  unfoldable pub metas_of : List (Text × r.Datum) → List ScheduleMeta
  unfolding listed_meta
  metas_of [] = []
  metas_of ((id, d) ∷ all) = listed_meta id (r.as_meta d) (metas_of all)

  module _ (ks : Keys) where
    abbrev look : {A : Type 0} → (r.Value → A) → M r A
    look f = call (λ t db. (f (r.at db (schedules_key ks)), db))

    -- HSET, unless there is nothing to set
    unfoldable pub put_pairs : List (Text × r.Datum) → M r Unit
    unfolding hset_all
    put_pairs [] = pure tt
    put_pairs (p ∷ pairs) = run r (hset_all (schedules_key ks) (p ∷ pairs))

    -- RegisterSchedules
    unfoldable pub register_schedules : List ScheduleMeta → M r Unit
    unfolding registered put_pairs
    register_schedules metas = do now ← time_now; put_pairs (registered (now / second) metas)

    -- TouchSchedules
    unfoldable pub touch_schedules : List Text → M r Unit
    unfolding touched put_pairs
    touch_schedules [] = pure tt
    touch_schedules (id ∷ ids) = do
      vals ← look (λ v. map (λ i. (i, r.hget v i)) (id ∷ ids))
      now ← time_now
      put_pairs (touched (now / second) vals)

    -- The last-fired keys, one call for each.
    unfoldable pub drop_last_fired : List Text → M r Unit
    drop_last_fired [] = pure tt
    drop_last_fired (f ∷ fs) =
        attempt (run r (λ t. r.write t (schedule_last_fired_key ks f) del))
          (λ _. drop_last_fired fs)

    unfoldable pub remove_fields : List Text → M r ℕ
    unfolding hdel_all drop_last_fired
    remove_fields [] = pure 0
    remove_fields (f ∷ fs) = do
      run r (hdel_all (schedules_key ks) (f ∷ fs))
      drop_last_fired (f ∷ fs)
      pure (length (f ∷ fs))

    -- PruneSchedules
    unfoldable pub prune_schedules : List Text → ℕ → M r ℕ
    unfolding stale_fields remove_fields values_of
    prune_schedules keep stale_before = do
      all ← look hgetall
      remove_fields (stale_fields keep (stale_before / second) all)

    -- ListSchedules
    unfoldable pub list_schedules : M r (List ScheduleMeta)
    unfolding metas_of values_of
    list_schedules = do all ← look hgetall; pure (metas_of all)
