-- ===== src/Examples/Groups.antt =====
-- Reports of a group's members at a concrete store.
use chronos_go.Common.{
  ap, ◌≡◌, ◌≢◌, refl, sym, ◌∙◌, Text, codes, eq_text, eq_text_refl, eq_text→eq, ℤ, pos, true, false,
  inl, inr, Bool-cases, List, [], ◌∷◌, arith,
}
use chronos_go.Keys.{queue_key_prefix, key_of, task, group}
use chronos_go.Redis.{sadd, contains_text}
use chronos_go.Task.{TaskState}
use chronos_go.Rdb.Group.{create_group, group_complete_cmd}
use chronos_go.Rdb.Slots.{at-slot}
use chronos_go.Rdb.Live.{live_group, live_group-set}
use chronos_go.Rdb.Reports.{
  AllWait, CallbackReport, complete, complete_all, Report, Waits, AreTimely, reports_run,
  create_group-Waits, group_complete_cmd-once,
}
use chronos_go.Rdb.Callback.{callback_of, group_complete_cmd-fires}
use chronos_go.Examples.Store.{store, is_there, has_any, is_lapsed, is_over}
use chronos_go.Examples.Data.{keys, mail, body, sample, calm_world}

abbrev one : Text
one = codes "g:m0"

abbrev two : Text
two = codes "g:m1"

-- One member is pending.
abbrev alone : store.Db
alone = store.write 0 (key_of keys mail (group (codes "g"))) (sadd one) calm_world.db

nothing_there : (k : Text) → store.exists (store.at calm_world.db k) ≡ false
unfolding store is_there has_any
nothing_there k = refl

-- Without a time to live nothing lapses.
alone_lasts : store.lapsed 5 (store.at alone (key_of keys mail (group (codes "g")))) ≡ false
unfolding store is_lapsed is_over eq_text key_of queue_key_prefix
alone_lasts = refl

-- The group at the time of the report.
abbrev alone_at_five : store.Db
alone_at_five = live_group store keys mail (codes "g") 5 alone

pending_at_five :
    store.at alone_at_five (key_of keys mail (group (codes "g")))
    ≡ store.at alone (key_of keys mail (group (codes "g")))
pending_at_five = live_group-set store keys mail (codes "g") 5 alone alone_lasts

alone_exists : store.exists (store.at alone_at_five (key_of keys mail (group (codes "g")))) ≡ true
alone_exists =
    ap store.exists pending_at_five
    ∙ simp (at-slot store keys mail 0, eq_text_refl, store.exists-sadd)

no_members : (x k : Text) → contains_text x (store.members (store.at calm_world.db k)) ≡ false
unfolding store contains_text
no_members x k = refl

only_one :
    (x : Text)
    → contains_text x
        (store.members (store.at alone_at_five (key_of keys mail (group (codes "g")))))
      ≡ true
    → x ≡ one
only_one x h = elim (Bool-cases (eq_text one x)) [
  | inl e ↦ sym (eq_text→eq one x e)
  | inr e ↦ absurd (
      false_true (
        sym (
          ap (λ v. contains_text x (store.members v)) pending_at_five
          ∙ simp (at-slot store keys mail 0, eq_text_refl, store.member-sadd, e, no_members))
        ∙ h))
]
  where
    false_true : false ≡ true → ⊥
    false_true e = cc

no_callback : store.exists (store.at alone (key_of keys mail (task sample.id))) ≡ false
no_callback = simp (at-slot store keys mail 0, nothing_there)

different : one ≢ two
different e = ground arith

abbrev last_report : ℤ × store.Db
last_report =
    group_complete_cmd store
      (callback_of store keys mail (codes "g") sample TaskState.pending (body sample) 0 true) one []
      0 2 5 alone

group_complete_cmd-fires_example :
    (last_report.0 ≡ pos 1)
    × (store.exists (store.at last_report.1 (key_of keys mail (task sample.id))) ≡ true)
group_complete_cmd-fires_example =
    group_complete_cmd-fires store keys mail (codes "g") sample TaskState.pending (body sample) 0
      true one [] 0 2 5 alone alone_exists only_one no_callback

fired : last_report.0 ≡ pos 1
fired =
    (group_complete_cmd-fires store keys mail (codes "g") sample TaskState.pending (body sample) 0
      true one [] 0 2 5 alone alone_exists only_one no_callback).0

abbrev last_one : CallbackReport store
last_one = record {
  message = sample;
  state = TaskState.pending;
  encoded = body sample;
  immediate = true;
  report = record { member = one; result = []; index = 0; count = 2; at = 5; score = 0 };
}

-- Reports that come again, with callbacks that are scheduled for other times.
abbrev late_ones : List (CallbackReport store)
late_ones =
    record {
      message = sample;
      state = TaskState.scheduled;
      encoded = body sample;
      immediate = false;
      report = record { member = one; result = []; index = 0; count = 2; at = 8; score = 20 };
    }
    ∷ record {
      message = sample;
      state = TaskState.scheduled;
      encoded = body sample;
      immediate = false;
      report = record { member = two; result = []; index = 1; count = 2; at = 9; score = 21 };
    }
    ∷ []

group_complete_cmd-once_example :
    let after =
      complete_all store keys mail
        (codes "g")
        late_ones
        (complete store keys mail (codes "g") last_one alone).1 in
    AllWait after.0 × (after.1 ≡ (complete store keys mail (codes "g") last_one alone).1)
group_complete_cmd-once_example =
    group_complete_cmd-once store keys mail (codes "g") last_one late_ones alone fired

-- The first member reports, and reports again.
abbrev reports : List Report
reports =
    record { member = one; result = codes "1"; index = 0; count = 2; at = 1000000005; score = 20 }
    ∷ record { member = one; result = codes "1"; index = 0; count = 2; at = 1000000006; score = 21 }
    ∷ []

nothing_lost : calm_world.turns ≡ []
unfolding store
nothing_lost = refl

starts_at_one : calm_world.clock ≡ 1000000000
unfolding store
starts_at_one = refl

two_listed : contains_text two (one ∷ two ∷ []) ≡ true
unfolding contains_text eq_text
two_listed = refl

timely :
    AreTimely store keys mail
      (codes "g")
      sample
      TaskState.scheduled
      (body sample)
      false
      calm_world.clock
      reports
timely =
    (omega (arith, starts_at_one), omega (arith, starts_at_one), (omega arith, omega arith, tt))

create_group-Waits_example :
    Waits store keys mail
      (codes "g")
      sample
      TaskState.scheduled
      (body sample)
      false
      two
      1000000006
      calm_world.db
      (reports_run store keys mail
        (codes "g")
        sample
        TaskState.scheduled
        (body sample)
        false
        reports
        (create_group store keys mail (codes "g") (one ∷ two ∷ []) calm_world).1.db)
create_group-Waits_example =
    create_group-Waits store keys mail (codes "g") sample TaskState.scheduled (body sample) false
      (one ∷ two ∷ []) two reports calm_world nothing_lost two_listed (different, (different, tt))
      timely
