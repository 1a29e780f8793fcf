-- ===== src/Rdb/Reports.antt =====
-- group.go: a group from its creation on, through any reports of its members.
use chronos_go.Common.{
  ℕ, ◌+◌, ◌≤◌, ◌<◌, ◌≡◌, ◌≢◌, refl, sym, ap, ◌∙◌, subst, ltb, not, false, arith, Text, ℤ, pos,
  eq_text, eq_text_refl, Bool, true, Bool-cases, inl, inr, List, [], ◌∷◌,
}
use chronos_go.Keys.{Keys, key_of, task, group, group_result}
use chronos_go.Redis.{Redis, sadd, expire, contains_text}
use chronos_go.Task.{TaskState, TaskMessage}
use chronos_go.World.{World}
use chronos_go.Rdb.Scripts.{◌▷◌}
use chronos_go.Rdb.Group.{
  add_members, create_group, complete_member, drop_lapsed, group_complete_cmd, group_ttl,
}
use chronos_go.Rdb.Live.{live_group, live_group-at, live_group-set, live_group-gone, drop_lapsed-at}
use chronos_go.Rdb.Calm.{call-calm}
use chronos_go.Rdb.Slots.{at-slot}
use chronos_go.Rdb.Callback.{
  LastsFrom, callback_of, complete_member-Fired, complete_member-waits, exists-of_member,
  report-gone,
}

-- A member's report.
pub record Report : Type 0 where
  pub member : Text
  pub result : Text
  pub index : ℕ
  pub count : ℕ
  -- The time of the script, and the score that it would give a delayed callback.
  pub at : ℕ
  pub score : ℕ

module _ (r : Redis) where
  -- What is in the set stays in it as members are added.
  add_members-keeps :
      (key x : Text) (ids : List Text) (now : ℕ) (db : r.Db)
      → contains_text x (r.members (r.at db key)) ≡ true
      → contains_text x (r.members (r.at (add_members r key ids now db) key)) ≡ true
  unfolding add_members
  add_members-keeps key x [] now db there = there
  add_members-keeps key x (id ∷ ids) now db there =
      add_members-keeps key x ids now (r.write now key (sadd id) db)
        (elim (Bool-cases (eq_text id x)) [
          | inl e ↦ simp (r.at-write, eq_text_refl, r.member-sadd, e)
          | inr e ↦ simp (r.at-write, eq_text_refl, r.member-sadd, e) there
        ])

  add_members-adds :
      (key x : Text) (ids : List Text) (now : ℕ) (db : r.Db)
      → contains_text x ids ≡ true
      → contains_text x (r.members (r.at (add_members r key ids now db) key)) ≡ true
  unfolding add_members contains_text
  add_members-adds key x [] now db there = cc
  add_members-adds key x (id ∷ ids) now db there = elim (Bool-cases (eq_text id x)) [
    | inl e ↦
        add_members-keeps key x ids now (r.write now key (sadd id) db)
          (simp (r.at-write, eq_text_refl, r.member-sadd, e))
    | inr e ↦ add_members-adds key x ids now (r.write now key (sadd id) db) (simp e at there)
  ]

-- Every reply is that the group waits.
abbrev pub AllWait : List ℤ → Type 0
AllWait [] = Unit {0}
AllWait (reply ∷ replies) = (reply ≡ pos 0) × AllWait replies

module _ (r : Redis) where
  -- A report, with what it says of the callback.
  pub record CallbackReport : Type 0 where
    pub message : TaskMessage
    pub state : TaskState
    pub encoded : r.Datum
    pub immediate : Bool
    pub report : Report

module _ (r : Redis) (ks : Keys) (q g : Text) where
  -- One report, with its callback.
  abbrev pub complete : CallbackReport r → r.Db → ℤ × r.Db
  complete c db =
      group_complete_cmd r
        (callback_of r ks q g c.message c.state c.encoded c.report.score c.immediate)
        c.report.member c.report.result c.report.index c.report.count c.report.at db

  -- The replies to reports with any callbacks, one after another, and the database after them.
  unfoldable pub complete_all : List (CallbackReport r) → r.Db → List ℤ × r.Db
  unfolding group_complete_cmd
  complete_all [] db = ([], db)
  complete_all (c ∷ cs) db =
      let (reply, db') = complete c db in
      let (replies, after) = complete_all cs db' in (reply ∷ replies, after)

  complete-gone :
      (c : CallbackReport r) (db : r.Db)
      → r.exists (r.at db (key_of ks q (group g))) ≡ false
      → r.exists (r.at db (key_of ks q (group_result g))) ≡ false
      → complete c db ≡ (pos 0, db)
  unfolding group_complete_cmd
  complete-gone c db no_set no_results =
      ap
        (complete_member r
          (callback_of r ks q g c.message c.state c.encoded c.report.score c.immediate)
          c.report.member c.report.result c.report.index c.report.count c.report.at)
        (live_group-gone r ks q g c.report.at db no_set no_results)
      ∙ report-gone r ks q g c.message c.state c.encoded c.report.score c.immediate c.report.member
          c.report.result c.report.index c.report.count c.report.at db no_set

  complete_all-gone :
      (cs : List (CallbackReport r)) (db : r.Db)
      → r.exists (r.at db (key_of ks q (group g))) ≡ false
      → r.exists (r.at db (key_of ks q (group_result g))) ≡ false
      → AllWait (complete_all cs db).0 × ((complete_all cs db).1 ≡ db)
  unfolding complete_all
  complete_all-gone [] db no_set no_results = (tt, refl)
  complete_all-gone (c ∷ cs) db no_set no_results =
      let rest = complete_all-gone cs db no_set no_results in
      rw (complete-gone c db no_set no_results) ((refl, rest.0), rest.1)

  -- Once a report of a group's member has created the callback, any sequence of later reports of
  -- the group, each at whatever time, of whatever member, with whatever result and with whatever
  -- callback message, state, destination and score, is answered one by one that it created none
  -- and leaves the database as it is.
  pub group_complete_cmd-once :
      (first : CallbackReport r) (later : List (CallbackReport r)) (db : r.Db)
      → (complete first db).0 ≡ pos 1
      → let after = complete_all later (complete first db).1 in
        AllWait after.0 × (after.1 ≡ (complete first db).1)
  unfolding group_complete_cmd
  group_complete_cmd-once first later db fired =
      let (no_set, no_results) =
        complete_member-Fired r ks q g first.message first.state first.encoded first.report.score
          first.immediate first.report.member first.report.result first.report.index
          first.report.count first.report.at (live_group r ks q g first.report.at db) fired in
      complete_all-gone later _ no_set no_results

module _ (r : Redis) (ks : Keys) (q g : Text) (m : TaskMessage) (state : TaskState) (d : r.Datum)
    (immediate : Bool) where
  -- The replies to reports, one after another, and the database after them.
  unfoldable pub reports_run : List Report → r.Db → List ℤ × r.Db
  unfolding group_complete_cmd
  reports_run [] db = ([], db)
  reports_run (s ∷ reports) db =
      let (reply, db') =
        group_complete_cmd r (callback_of r ks q g m state d s.score immediate) s.member s.result
          s.index s.count s.at db in
      let (replies, after) = reports_run reports db' in (reply ∷ replies, after)

  -- Every report is of another member.
  abbrev pub AreOthers : Text → List Report → Type 0
  AreOthers other [] = Unit {0}
  AreOthers other (s ∷ reports) = (s.member ≢ other) × AreOthers other reports

  -- Every report comes within GroupTTL of the one before it, the first of a given time.
  abbrev pub AreTimely : ℕ → List Report → Type 0
  AreTimely last [] = Unit {0}
  AreTimely last (s ∷ reports) = (last ≤ s.at) × (s.at < last + group_ttl) × AreTimely s.at reports

  -- The time of the last report, or a given time where there is none.
  abbrev pub last_at : ℕ → List Report → ℕ
  last_at last [] = last
  last_at last (s ∷ reports) = last_at s.at reports

  -- No callback has been created, and the member is pending until GroupTTL after a time.
  abbrev pub Waits : Text → ℕ → r.Db → List ℤ × r.Db → Type 0
  Waits other last db after =
      AllWait after.0
      × (r.at after.1 (key_of ks q (task m.id)) ≡ r.at db (key_of ks q (task m.id)))
      × (contains_text other (r.members (r.at after.1 (key_of ks q (group g)))) ≡ true)
      × LastsFrom r last (r.at after.1 (key_of ks q (group g)))

  reports_run-Waits :
      (other : Text) (last : ℕ) (reports : List Report) (db : r.Db)
      → AreOthers other reports
      → AreTimely last reports
      → contains_text other (r.members (r.at db (key_of ks q (group g)))) ≡ true
      → LastsFrom r last (r.at db (key_of ks q (group g)))
      → Waits other (last_at last reports) db (reports_run reports db)
  unfolding reports_run group_complete_cmd
  reports_run-Waits other last [] db others timely pending lasts = (tt, refl, pending, lasts)
  reports_run-Waits other last (s ∷ reports) db others timely pending lasts =
      let held : r.lapsed s.at (r.at db (key_of ks q (group g))) ≡ false =
        lasts s.at timely.0 ∙ within (last + group_ttl) timely.1 in
      let first =
        complete_member-waits r ks q g m state d s.score immediate s.member other s.result s.index
          s.count s.at (live_group r ks q g s.at db)
          (ap (λ v. contains_text other (r.members v)) (live_group-set r ks q g s.at db held)
            ∙ pending)
          others.0 in
      let rest = reports_run-Waits other s.at reports _ others.1 timely.2 first.2 first.3 in
      (
        (first.0, rest.0),
        rest.1 ∙ first.1 ∙ live_group-at r ks q g s.at (task m.id) db refl refl,
        rest.2,
        rest.3,
      )
    where
      within : (until : ℕ) → s.at < until → not (ltb s.at until) ≡ false
      within until h = ground arith

  add_members-task :
      (ids : List Text) (now : ℕ) (db : r.Db)
      → r.at (add_members r (key_of ks q (group g)) ids now db) (key_of ks q (task m.id))
        ≡ r.at db (key_of ks q (task m.id))
  unfolding add_members
  add_members-task [] now db = refl
  add_members-task (id ∷ ids) now db =
      add_members-task ids now (r.write now (key_of ks q (group g)) (sadd id) db)
      ∙ simp (at-slot r ks q now)

  -- Once a group is created, the call being answered, then through any reports by members other
  -- than a given one of its members, in any order, with repetitions and with a score of their
  -- own, each less than GroupTTL after the one before it and the first less than GroupTTL after
  -- the creation, every reply is that no callback was created, the callback's key is as it was
  -- before the group, and the given member stays pending in a set whose time is up exactly
  -- GroupTTL after the last report, or after the creation if there is none.
  pub create_group-Waits :
      (ids : List Text) (other : Text) (reports : List Report) (w : World r)
      → w.turns ≡ []
      → contains_text other ids ≡ true
      → AreOthers other reports
      → AreTimely w.clock reports
      → Waits other
          (last_at w.clock reports)
          w.db
          (reports_run reports (create_group r ks q g ids w).1.db)
  unfolding create_group contains_text
  create_group-Waits [] other reports w calm listed others timely = absurd (cc listed)
  create_group-Waits (id ∷ ids) other reports w calm listed others timely =
      subst (λ o. Waits other (last_at w.clock reports) w.db (reports_run reports o.1.db))
        (sym (call-calm (λ t db. (tt, created t db)) w calm))
        (let waits =
            reports_run-Waits other w.clock reports (created w.clock w.db) others timely pending
              lasts in
          (
            waits.0,
            waits.1
                ∙ simp (at-slot r ks q w.clock)
                    (add_members-task (id ∷ ids) w.clock (purged w.clock w.db))
                ∙ drop_lapsed-at r ks q g w.clock (group g) (task m.id) w.db refl,
            waits.2,
            waits.3,
          ))
    where
      purged : ℕ → r.Db → r.Db
      purged t db = drop_lapsed r (key_of ks q (group g)) t db

      created : ℕ → r.Db → r.Db
      created t db =
          db
          ▷ purged t
          ▷ add_members r (key_of ks q (group g)) (id ∷ ids) t
          ▷ r.write t (key_of ks q (group g)) (expire group_ttl)

      added :
          contains_text other (
            r.members (
              r.at
                (add_members r (key_of ks q (group g)) (id ∷ ids) w.clock (purged w.clock w.db))
                (key_of ks q (group g))))
          ≡ true
      added =
          add_members-adds r (key_of ks q (group g)) other (id ∷ ids) w.clock (purged w.clock w.db)
            listed

      pending :
          contains_text other (r.members (r.at (created w.clock w.db) (key_of ks q (group g))))
          ≡ true
      pending = simp (r.at-write, eq_text_refl, r.members-expire) added

      lasts : LastsFrom r w.clock (r.at (created w.clock w.db) (key_of ks q (group g)))
      lasts later after =
          simp (r.at-write, eq_text_refl)
            (r.lapsed-expire w.clock later group_ttl _ after (exists-of_member r other _ added))
