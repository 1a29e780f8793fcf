-- ===== src/Rdb/Live.antt =====
-- group.go: the keys of a group as they are at a time, with what is up deleted.
use chronos_go.Common.{ℕ, ◌≡◌, refl, ap, ◌∙◌, Text, false, Bool-cases, inl, inr}
use chronos_go.Keys.{Keys, QueueKey, key_of, group, group_result}
use chronos_go.Keys.Apart.{eq_key}
use chronos_go.Redis.{Redis}
use chronos_go.Rdb.Group.{drop_lapsed, live}
use chronos_go.Rdb.Slots.{at-slot}

module _ (r : Redis) (ks : Keys) (q g : Text) (now : ℕ) where
  -- The database at a time, as a script of the group finds it.
  abbrev pub live_group : r.Db → r.Db
  live_group = live r (key_of ks q (group g)) (key_of ks q (group_result g)) now

  pub drop_lapsed-at :
      (b a : QueueKey) (db : r.Db)
      → eq_key b a ≡ false
      → r.at (drop_lapsed r (key_of ks q b) now db) (key_of ks q a) ≡ r.at db (key_of ks q a)
  unfolding drop_lapsed
  drop_lapsed-at b a db apart = elim (Bool-cases (r.lapsed now (r.at db (key_of ks q b)))) [
    | inl over ↦ simp over (simp (at-slot r ks q now, apart))
    | inr held ↦ simp held
  ]

  pub drop_lapsed-held :
      (key : Text) (db : r.Db) → r.lapsed now (r.at db key) ≡ false → drop_lapsed r key now db ≡ db
  unfolding drop_lapsed
  drop_lapsed-held key db held = simp held

  -- The other keys of the queue are as they were.
  pub live_group-at :
      (a : QueueKey) (db : r.Db)
      → eq_key (group g) a ≡ false
      → eq_key (group_result g) a ≡ false
      → r.at (live_group db) (key_of ks q a) ≡ r.at db (key_of ks q a)
  live_group-at a db x y = drop_lapsed-at (group_result g) a _ y ∙ drop_lapsed-at (group g) a db x

  -- A set whose time is not up is as it was.
  pub live_group-set :
      (db : r.Db)
      → r.lapsed now (r.at db (key_of ks q (group g))) ≡ false
      → r.at (live_group db) (key_of ks q (group g)) ≡ r.at db (key_of ks q (group g))
  live_group-set db held =
      drop_lapsed-at (group_result g) (group g) _ refl
      ∙ ap (λ d. r.at d (key_of ks q (group g))) (drop_lapsed-held (key_of ks q (group g)) db held)

  -- Where neither is there, nothing is deleted.
  pub live_group-gone :
      (db : r.Db)
      → r.exists (r.at db (key_of ks q (group g))) ≡ false
      → r.exists (r.at db (key_of ks q (group_result g))) ≡ false
      → live_group db ≡ db
  live_group-gone db no_set no_results =
      ap (drop_lapsed r (key_of ks q (group_result g)) now)
        (drop_lapsed-held (key_of ks q (group g)) db (r.lapsed-absent now _ no_set))
      ∙ drop_lapsed-held (key_of ks q (group_result g)) db (r.lapsed-absent now _ no_results)
