-- ===== src/Rdb/Touched.antt =====
-- TouchSchedules and PruneSchedules of registry.go: a heartbeat, and the prune of another instance.
use chronos_go.Common.{
  ℕ, ◌/◌, ◌≤◌, ◌≡◌, inl, inr, refl, sym, ap, ◌∙◌, subst, Text, eq_text, eq_text→eq, eq_text_refl,
  map, Bool-cases, true, if◌then◌else◌, Option, none, some, List, [], ◌∷◌, arith,
}
use chronos_go.Keys.{Keys, schedules_key}
use chronos_go.Redis.{Redis, hset, contains_text}
use chronos_go.ScheduleMeta.{ScheduleMeta}
use chronos_go.World.{World, M, continue, ◌>>=◌, time_now}
use chronos_go.Rdb.Enqueue.{second}
use chronos_go.Rdb.Calm.{call-calm}
use chronos_go.Rdb.Registry.{
  hset_all, touched, touch_one, raw_meta, put_pairs, touch_schedules, prune_schedules,
}
use chronos_go.Rdb.Pruned.{entry, prune_schedules-spares}

module _ (r : Redis) (key id : Text) (x : r.Datum) where
  -- Of the pairs, those of the field have the one value.
  abbrev pub AllSay : List (Text × r.Datum) → Type 0
  AllSay [] = Unit {0}
  AllSay ((f, d) ∷ pairs) = (f ≡ id → d ≡ x) × AllSay pairs

  abbrev field : r.Db → Option r.Datum
  field db = r.hget (r.at db key) id

  field-hset :
      (f : Text) (d : r.Datum) (t : ℕ) (db : r.Db)
      → r.hget (r.at (r.write t key (hset f d) db) key) id
        ≡ (if eq_text f id then some d else r.hget (r.at db key) id)
  field-hset f d t db = simp (r.at-write, eq_text_refl, r.hget-hset)

  field-hset_self :
      (f : Text) (d : r.Datum) (t : ℕ) (db : r.Db)
      → eq_text f id ≡ true
      → (f ≡ id → d ≡ x)
      → field (r.write t key (hset f d) db) ≡ some x
  field-hset_self f d t db same says =
      field-hset f d t db ∙ (simp same (ap some (says (eq_text→eq f id same))))

  after_hset :
      (f : Text) (d : r.Datum) (t : ℕ) (db : r.Db)
      → (f ≡ id → d ≡ x)
      → (field db ≡ some x)
      → field (r.write t key (hset f d) db) ≡ some x
  after_hset f d t db says there = elim (Bool-cases (eq_text f id)) [
    | inl same ↦ field-hset_self f d t db same says
    | inr other ↦ field-hset f d t db ∙ (simp other there)
  ]

  pub hset_all-keeps :
      (pairs : List (Text × r.Datum)) (t : ℕ) (db : r.Db)
      → AllSay pairs
      → field db ≡ some x
      → field (hset_all r key pairs t db) ≡ some x
  unfolding hset_all
  hset_all-keeps [] t db say there = there
  hset_all-keeps ((f, d) ∷ pairs) t db say there =
      hset_all-keeps pairs t _ say.1 (after_hset f d t db say.0 there)

  pub hset_all-sets :
      (pairs : List (Text × r.Datum)) (t : ℕ) (db : r.Db)
      → AllSay pairs
      → contains_text id (map (λ p. p.0) pairs) ≡ true
      → field (hset_all r key pairs t db) ≡ some x
  unfolding hset_all contains_text
  hset_all-sets [] t db say there = cc
  hset_all-sets ((f, d) ∷ pairs) t db say there = elim (Bool-cases (eq_text f id)) [
    | inl same ↦ hset_all-keeps pairs t _ say.1 (field-hset_self f d t db same say.0)
    | inr other ↦ hset_all-sets pairs t _ say.1 (simp other at there)
  ]

module _ (r : Redis) (id : Text) (m : ScheduleMeta) (now : ℕ) (v : r.Value)
    (there : r.hget v id ≡ some (r.meta m)) where
  -- The entry after the heartbeat.
  abbrev pub seen_now : ScheduleMeta
  seen_now = record m { id = []; last_seen = now }

  abbrev pairs_of : List Text → List (Text × r.Datum)
  pairs_of ids = touched r now (map (λ i. (i, r.hget v i)) ids)

  raw_meta-there : raw_meta r (r.hget v id) ≡ some (record m { id = [] })
  unfolding raw_meta
  raw_meta-there = ap (raw_meta r) there ∙ r.as_meta-meta m

  touch_one-AllSay :
      (i : Text) (o : Option ScheduleMeta) (rest : List (Text × r.Datum))
      → (i ≡ id → o ≡ some (record m { id = [] }))
      → AllSay r [] id (r.meta seen_now) rest
      → AllSay r [] id (r.meta seen_now) (touch_one r now i o rest)
  unfolding touch_one
  touch_one-AllSay i none rest same say = say
  touch_one-AllSay i (some n) rest same say = (
    λ e.
        ap
          (λ o. elim o as (λ _. r.Datum) [
            | none ↦ r.meta seen_now
            | some k ↦ r.meta (record k { last_seen = now })
          ])
          (same e),
    say,
  )

  touched-AllSay : (ids : List Text) → AllSay r [] id (r.meta seen_now) (pairs_of ids)
  unfolding touched
  touched-AllSay [] = tt
  touched-AllSay (i ∷ ids) =
      touch_one-AllSay i (raw_meta r (r.hget v i)) (pairs_of ids)
        (λ e.
          subst (λ j. raw_meta r (r.hget v j) ≡ some (record m { id = [] })) (sym e) raw_meta-there)
        (touched-AllSay ids)

  member-touch_one :
      (i : Text) (o : Option ScheduleMeta) (rest : List (Text × r.Datum))
      → contains_text id (map (λ p. p.0) rest) ≡ true
      → contains_text id (map (λ p. p.0) (touch_one r now i o rest)) ≡ true
  unfolding touch_one contains_text
  member-touch_one i none rest h = h
  member-touch_one i (some n) rest h = elim (Bool-cases (eq_text i id)) [
    | inl e ↦ simp e
    | inr e ↦ simp (e, h)
  ]

  member-touched :
      (ids : List Text)
      → contains_text id ids ≡ true
      → contains_text id (map (λ p. p.0) (pairs_of ids)) ≡ true
  unfolding touched contains_text touch_one
  member-touched [] h = h
  member-touched (i ∷ ids) h = elim (Bool-cases (eq_text i id)) [
    | inl same ↦ simp (eq_text→eq i id same, raw_meta-there, eq_text_refl)
    | inr other ↦
        member-touch_one i (raw_meta r (r.hget v i)) (pairs_of ids)
          (member-touched ids (simp other at h))
  ]

module _ (r : Redis) (ks : Keys) (id : Text) (m : ScheduleMeta) (ids : List Text) where
  put_pairs-sets :
      (x : r.Datum) (pairs : List (Text × r.Datum)) (w : World r)
      → w.turns ≡ []
      → AllSay r [] id x pairs
      → contains_text id (map (λ p. p.0) pairs) ≡ true
      → entry r ks (put_pairs r ks pairs w).1.db id ≡ some x
  unfolding put_pairs contains_text
  put_pairs-sets x [] w calm say there = cc
  put_pairs-sets x (p ∷ pairs) w calm say there =
      ap (λ o. entry r ks o.1.db id)
        (call-calm (λ t db. (tt, hset_all r (schedules_key ks) (p ∷ pairs) t db)) w calm)
      ∙ hset_all-sets r (schedules_key ks) id x (p ∷ pairs) w.clock w.db say there

  abbrev pub at_touch : World r → ScheduleMeta
  at_touch w = record m { id = []; last_seen = w.clock / second }

  touch_schedules-sees :
      (w : World r)
      → w.turns ≡ []
      → entry r ks w.db id ≡ some (r.meta m)
      → contains_text id ids ≡ true
      → entry r ks (touch_schedules r ks ids w).1.db id ≡ some (r.meta (at_touch w))
  unfolding touch_schedules contains_text
  touch_schedules-sees w calm there mine = by_ids ids mine
    where
      v : r.Value
      v = r.at w.db (schedules_key ks)

      by_ids :
          (is : List Text)
          → contains_text id is ≡ true
          → entry r ks (touch_schedules r ks is w).1.db id ≡ some (r.meta (at_touch w))
      by_ids [] listed = cc
      by_ids (i ∷ is) listed =
          let k : List (Text × Option r.Datum) → M r Unit =
            λ vals. do now ← time_now; put_pairs r ks (touched r (now / second) vals)
          in ap (λ o. entry r ks (continue o.0 k o.1).1.db id)
              (call-calm
                (λ t db. (map (λ j. (j, r.hget (r.at db (schedules_key ks)) j)) (i ∷ is), db)) w
                calm)
            ∙ put_pairs-sets (r.meta (at_touch w))
                (pairs_of r id m (w.clock / second) v there (i ∷ is)) (record w { turns = [] }) refl
                (touched-AllSay r id m (w.clock / second) v there (i ∷ is))
                (member-touched r id m (w.clock / second) v there (i ∷ is) listed)

  -- When TouchSchedules is answered for a list of ids that has the schedule's, the schedule is
  -- registered, and the database is as it was left when another instance prunes, keeping whatever
  -- it keeps, with a cutoff that is not after the touch, then whatever becomes of the calls of
  -- the prune, the schedule is still registered, as last seen at the touch.
  pub touch_schedules-survives :
      (keep : List Text) (stale_before : ℕ) (w u : World r)
      → w.turns ≡ []
      → entry r ks w.db id ≡ some (r.meta m)
      → contains_text id ids ≡ true
      → u.db ≡ (touch_schedules r ks ids w).1.db
      → stale_before ≤ w.clock
      → entry r ks (prune_schedules r ks keep stale_before u).1.db id ≡ some (r.meta (at_touch w))
  touch_schedules-survives keep stale_before w u calm there mine same early =
      prune_schedules-spares r ks keep stale_before id (at_touch w) u
        (ap (λ db. entry r ks db id) same ∙ touch_schedules-sees w calm there mine)
        (inr (omega arith))
