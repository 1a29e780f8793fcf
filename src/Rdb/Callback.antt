-- ===== src/Rdb/Callback.antt =====
-- group.go: the script by which a group's member reports, and the callback that it may create.
use chronos_go.Common.{
  ℕ, ◌≡◌, ◌≢◌, refl, Text, pos, eq_text, eq_text_refl, ne→eq_text, Bool, true, false, Bool-cases,
  ltb, not, ◌+◌, ◌≤◌, ◌&&◌, ◌||◌, inl, inr, List, [], ◌∷◌, length, ap, ◌∙◌, arith, if◌then◌else◌,
}
use chronos_go.Keys.{Keys, QueueKey, key_of, stream, task, scheduled, group, group_result}
use chronos_go.Keys.Apart.{eq_key}
use chronos_go.Keys.Prefix.{is_nil}
use chronos_go.Redis.{Redis, del, expire, srem, contains_text}
use chronos_go.Task.{TaskState, TaskMessage}
use chronos_go.Rdb.Scripts.{store_task, set_state, ◌▷◌}
use chronos_go.Rdb.Group.{
  Callback, record_result, refresh_group, fire_callback, complete_member, group_complete_cmd,
  group_ttl,
}
use chronos_go.Rdb.Slots.{at-slot}
use chronos_go.Rdb.Live.{live_group, live_group-at}

pos_ne : (pos 0 ≡ pos 1) → ⊥
pos_ne e = cc

-- A list that holds something is not empty, and one that holds nothing is.
contains_text-nonempty :
    (x : Text) (l : List Text) → contains_text x l ≡ true → ltb 0 (length l) ≡ true
unfolding contains_text
contains_text-nonempty x [] h = cc
contains_text-nonempty x (y ∷ l) h = ground arith

nothing-empty :
    (l : List Text) → ((x : Text) → contains_text x l ≡ false) → ltb 0 (length l) ≡ false
unfolding contains_text
nothing-empty [] h = ground arith
nothing-empty (y ∷ l) h = absurd (clash (contains_text y l) (rw (eq_text_refl y) at (h y)))
  where
    clash : (b : Bool) → (true || b) ≡ false → ⊥
    clash b e = cc

pub exists-of_member :
    (r : Redis) (x : Text) (v : r.Value) → contains_text x (r.members v) ≡ true → r.exists v ≡ true
unfolding contains_text
exists-of_member r x v there = elim (Bool-cases (r.exists v)) [
  | inl held ↦ held
  | inr absent ↦ absurd (cc (rw (r.members-absent v absent) at there))
]

-- The time that a set has been given at a moment is up a GroupTTL later, and not before.
abbrev pub LastsFrom : (r : Redis) → ℕ → r.Value → Type 0
LastsFrom r at v = (later : ℕ) → at ≤ later → r.lapsed later v ≡ not (ltb later (at + group_ttl))

module _ (r : Redis) (ks : Keys) (q g : Text) (m : TaskMessage) (state : TaskState) (d : r.Datum)
    (score : ℕ) (immediate : Bool) where
  -- What CompleteGroupMember tells the script, for a callback m on the queue q.
  abbrev pub callback_of : Callback r
  callback_of = record {
    set = key_of ks q (group g);
    callback = key_of ks q (task m.id);
    dest = if immediate then key_of ks q stream else key_of ks q scheduled;
    results = key_of ks q (group_result g);
    encoded = d;
    state = state;
    id = m.id;
    immediate = immediate;
    score = score;
  }

  abbrev set_at : r.Db → r.Value
  set_at db = r.at db (key_of ks q (group g))

  record_result-at :
      (result : Text) (index now : ℕ) (db : r.Db) (a : QueueKey)
      → eq_key (group_result g) a ≡ false
      → r.at (record_result r callback_of result index now db) (key_of ks q a)
        ≡ r.at db (key_of ks q a)
  unfolding record_result
  record_result-at result index now db a other = elim (Bool-cases (is_nil result)) [
    | inl nil ↦ simp nil
    | inr there ↦ simp (there, at-slot r ks q now, other)
  ]

  -- What the callback's branch leaves of the pending set and of the results.
  fire_callback-set :
      (count now : ℕ) (db : r.Db)
      → r.exists (set_at (fire_callback r callback_of count now db).1) ≡ false
  unfolding fire_callback store_task set_state
  fire_callback-set count now db =
      elim (Bool-cases (
        r.exists (
          r.at
            (db
              ▷ r.write now (key_of ks q (group g)) del
              ▷ r.write now (key_of ks q (group_result g)) del)
            (key_of ks q (task m.id))))) [
              | inl there ↦ simp there (simp (at-slot r ks q now, eq_text_refl, r.exists-del))
              | inr fresh ↦ elim (Bool-cases immediate) [
                | inl at_once ↦
                    simp (fresh, at_once) (simp (at-slot r ks q now, eq_text_refl, r.exists-del))
                | inr later ↦
                    simp (fresh, later) (simp (at-slot r ks q now, eq_text_refl, r.exists-del))
              ]
            ]

  fire_callback-results :
      (count now : ℕ) (db : r.Db)
      → r.exists (r.at (fire_callback r callback_of count now db).1 (key_of ks q (group_result g)))
        ≡ false
  unfolding fire_callback store_task set_state
  fire_callback-results count now db =
      elim (Bool-cases (
        r.exists (
          r.at
            (db
              ▷ r.write now (key_of ks q (group g)) del
              ▷ r.write now (key_of ks q (group_result g)) del)
            (key_of ks q (task m.id))))) [
              | inl there ↦ simp there (simp (at-slot r ks q now, eq_text_refl, r.exists-del))
              | inr fresh ↦ elim (Bool-cases immediate) [
                | inl at_once ↦
                    simp (fresh, at_once) (simp (at-slot r ks q now, eq_text_refl, r.exists-del))
                | inr later ↦
                    simp (fresh, later) (simp (at-slot r ks q now, eq_text_refl, r.exists-del))
              ]
            ]

  -- The state behind the report's own commands.
  abbrev reported : Text → Text → ℕ → ℕ → r.Db → r.Db
  reported member result index now db =
      db
      ▷ r.write now (key_of ks q (group g)) (srem member)
      ▷ record_result r callback_of result index now

  -- A report that leaves no member fires the callback; one that leaves members only refreshes the group.
  pub report-last :
      (member result : Text) (index count now : ℕ) (db : r.Db)
      → r.exists (set_at db) ≡ true
      → ltb 0 (length (r.members (set_at (reported member result index now db)))) ≡ false
      → complete_member r callback_of member result index count now db
        ≡ fire_callback r callback_of count now (reported member result index now db)
  unfolding complete_member
  report-last member result index count now db there empty = simp (there, empty)

  report-waits :
      (member result : Text) (index count now : ℕ) (db : r.Db)
      → r.exists (set_at db) ≡ true
      → ltb 0 (length (r.members (set_at (reported member result index now db)))) ≡ true
      → complete_member r callback_of member result index count now db
        ≡ (pos 0, refresh_group r callback_of now (reported member result index now db))
  unfolding complete_member
  report-waits member result index count now db there some_left = simp (there, some_left)

  pub report-gone :
      (member result : Text) (index count now : ℕ) (db : r.Db)
      → r.exists (set_at db) ≡ false
      → complete_member r callback_of member result index count now db ≡ (pos 0, db)
  unfolding complete_member
  report-gone member result index count now db gone = simp gone

  -- A report that creates the callback leaves neither the set nor the results.
  pub complete_member-Fired :
      (member result : Text) (index count now : ℕ) (db : r.Db)
      → (complete_member r callback_of member result index count now db).0 ≡ pos 1
      → let after = (complete_member r callback_of member result index count now db).1 in
        (r.exists (set_at after) ≡ false)
        × (r.exists (r.at after (key_of ks q (group_result g))) ≡ false)
  complete_member-Fired member result index count now db fired =
      elim (Bool-cases (r.exists (set_at db))) [
        | inl there ↦
            elim (Bool-cases
              (ltb 0 (length (r.members (set_at (reported member result index now db)))))) [
                | inl some_left ↦ absurd (
                    pos_ne
                      (rw (report-waits member result index count now db there some_left) at fired))
                | inr empty ↦ rw (report-last member result index count now db there empty) (
                  fire_callback-set count now (reported member result index now db),
                  fire_callback-results count now (reported member result index now db),
                )
              ]
        | inr gone ↦
            absurd (pos_ne (rw (report-gone member result index count now db gone) at fired))
      ]

  reported-members :
      (member result : Text) (index now : ℕ) (db : r.Db) (x : Text)
      → contains_text x (r.members (set_at (reported member result index now db)))
        ≡ (not (eq_text member x) && contains_text x (r.members (set_at db)))
  reported-members member result index now db x =
      ap (λ v. contains_text x (r.members v))
        (record_result-at result index now (r.write now (key_of ks q (group g)) (srem member) db)
          (group g) refl)
      ∙ simp (at-slot r ks q now, eq_text_refl, r.member-srem)

  refresh_group-at :
      (now : ℕ) (db : r.Db) (a : QueueKey)
      → eq_key (group g) a ≡ false
      → eq_key (group_result g) a ≡ false
      → r.at (refresh_group r callback_of now db) (key_of ks q a) ≡ r.at db (key_of ks q a)
  unfolding refresh_group
  refresh_group-at now db a x y =
      elim (Bool-cases (
        r.exists (
          r.at (r.write now (key_of ks q (group g)) (expire group_ttl) db)
            (key_of ks q (group_result g))))) [
              | inl there ↦ simp there (simp (at-slot r ks q now, x, y))
              | inr gone ↦ simp gone (simp (at-slot r ks q now, x, y))
            ]

  refresh_group-set :
      (now : ℕ) (db : r.Db)
      → set_at (refresh_group r callback_of now db) ≡ r.effect now (expire group_ttl) (set_at db)
  unfolding refresh_group
  refresh_group-set now db =
      elim (Bool-cases (
        r.exists (
          r.at (r.write now (key_of ks q (group g)) (expire group_ttl) db)
            (key_of ks q (group_result g))))) [
              | inl there ↦ simp there (simp (at-slot r ks q now, eq_text_refl))
              | inr gone ↦ simp gone (simp (at-slot r ks q now, eq_text_refl))
            ]

  fire_callback-creates :
      (count now : ℕ) (db : r.Db)
      → r.exists (r.at db (key_of ks q (task m.id))) ≡ false
      → ((fire_callback r callback_of count now db).0 ≡ pos 1)
        × (r.exists (r.at (fire_callback r callback_of count now db).1 (key_of ks q (task m.id)))
            ≡ true)
  unfolding fire_callback store_task set_state
  fire_callback-creates count now db absent =
      let fresh : r.exists (
            r.at
              (db
                ▷ r.write now (key_of ks q (group g)) del
                ▷ r.write now (key_of ks q (group_result g)) del)
              (key_of ks q (task m.id)))
          ≡ false =
        simp (at-slot r ks q now, absent) in
      elim (Bool-cases immediate) [
        | inl at_once ↦ (
          simp fresh,
          simp (fresh, at_once) (simp (at-slot r ks q now, eq_text_refl, r.exists-hset)),
        )
        | inr later ↦ (
          simp fresh,
          simp (fresh, later) (simp (at-slot r ks q now, eq_text_refl, r.exists-hset)),
        )
      ]

  no_other :
      {member : Text} (x : Text) (b : Bool)
      → (b ≡ true → x ≡ member)
      → (not (eq_text member x) && b) ≡ false
  no_other {member = member} x true h = simp (h refl, eq_text_refl member)
  no_other {member = member} x false h = elim (Bool-cases (eq_text member x)) [
    | inl e ↦ simp e
    | inr e ↦ simp e
  ]

  complete_member-fires :
      (member result : Text) (index count now : ℕ) (db : r.Db)
      → r.exists (set_at db) ≡ true
      → ((x : Text) → contains_text x (r.members (set_at db)) ≡ true → x ≡ member)
      → r.exists (r.at db (key_of ks q (task m.id))) ≡ false
      → let after = complete_member r callback_of member result index count now db in
        (after.0 ≡ pos 1) × (r.exists (r.at after.1 (key_of ks q (task m.id))) ≡ true)
  complete_member-fires member result index count now db there only absent =
      let left = reported member result index now db in
      let none_left : ltb 0 (length (r.members (set_at left))) ≡ false =
        nothing-empty (r.members (set_at left)) (λ x.
          reported-members member result index now db x
          ∙ no_other x (contains_text x (r.members (set_at db))) (only x)) in
      let still_absent : r.exists (r.at left (key_of ks q (task m.id))) ≡ false =
        ap r.exists (
          record_result-at result index now (r.write now (key_of ks q (group g)) (srem member) db)
            (task m.id) refl)
        ∙ simp (at-slot r ks q now, absent) in
      rw (report-last member result index count now db there none_left)
        (fire_callback-creates count now left still_absent)

  -- If at the time of the report the pending set exists, its time to live not being up, and holds
  -- nobody but the reporting member, and there is no callback yet, the report replies that it
  -- created the callback, and the callback's hash exists.
  pub group_complete_cmd-fires :
      (member result : Text) (index count now : ℕ) (db : r.Db)
      → r.exists (set_at (live_group r ks q g now db)) ≡ true
      → ((x : Text)
          → contains_text x (r.members (set_at (live_group r ks q g now db))) ≡ true
          → x ≡ member)
      → r.exists (r.at db (key_of ks q (task m.id))) ≡ false
      → let after = group_complete_cmd r callback_of member result index count now db in
        (after.0 ≡ pos 1) × (r.exists (r.at after.1 (key_of ks q (task m.id))) ≡ true)
  unfolding group_complete_cmd
  group_complete_cmd-fires member result index count now db there only absent =
      complete_member-fires member result index count now (live_group r ks q g now db) there only
        (ap r.exists (live_group-at r ks q g now (task m.id) db refl refl) ∙ absent)

  -- A report leaves another member that is pending, and then the group waits on, for its time to live.
  pub complete_member-waits :
      (member other result : Text) (index count now : ℕ) (db : r.Db)
      → contains_text other (r.members (set_at db)) ≡ true
      → member ≢ other
      → let after = complete_member r callback_of member result index count now db in
        (after.0 ≡ pos 0)
        × (r.at after.1 (key_of ks q (task m.id)) ≡ r.at db (key_of ks q (task m.id)))
        × (contains_text other (r.members (set_at after.1)) ≡ true)
        × LastsFrom r now (set_at after.1)
  complete_member-waits member other result index count now db pending apart =
      let left = reported member result index now db in
      let still_pending : contains_text other (r.members (set_at left)) ≡ true =
        reported-members member result index now db other
        ∙ simp (pending, ne→eq_text member other apart) in
      let same : r.at left (key_of ks q (task m.id)) ≡ r.at db (key_of ks q (task m.id)) =
        record_result-at result index now (r.write now (key_of ks q (group g)) (srem member) db)
          (task m.id) refl
        ∙ simp (at-slot r ks q now) in
      rw
        (report-waits member result index count now db
          (exists-of_member r other (set_at db) pending)
          (contains_text-nonempty other (r.members (set_at left)) still_pending))
        (
          refl,
          refresh_group-at now left (task m.id) refl refl ∙ same,
          ap (λ v. contains_text other (r.members v)) (refresh_group-set now left)
              ∙ ap (contains_text other) (r.members-expire now group_ttl (set_at left))
              ∙ still_pending,
          λ later after.
              ap (r.lapsed later) (refresh_group-set now left)
              ∙ r.lapsed-expire now later group_ttl (set_at left) after
                  (exists-of_member r other (set_at left) still_pending),
        )
