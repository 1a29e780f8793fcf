-- ===== src/Inspector/Status.antt =====
-- SchedulerStatus of inspector.go: the registry of schedules merged with what has fired. Times are Unix
-- seconds; a zero time is `none`.
use chronos_go.Common.{
  ℕ, suc, ◌+◌, ◌-◌, ◌*◌, ◌≡◌, refl, ap, ◌∙◌, ltb, ◌&&◌, not, Text, eq_text, eq_text→eq,
  eq_text_refl, Bool, Bool-cases, inl, inr, true, false, if◌then◌else◌, Option, none, some, List,
  [], ◌∷◌, ◌++◌, map, arith,
}
use chronos_go.Keys.{Keys}
use chronos_go.Redis.{Redis, contains_text}
use chronos_go.ScheduleMeta.{ScheduleMeta}
use chronos_go.World.{M, pure, time_now, ◌>>=◌}
use chronos_go.Rdb.Operator.{leader_id}
use chronos_go.Rdb.Registry.{list_schedules}
use chronos_go.Rdb.Enqueue.{second}

-- ScheduleFireInfo of inspect.go
pub record ScheduleFireInfo : Type 0 where
  pub id : Text
  pub last_fired : ℕ

pub record ScheduleInfo : Type 0 where
  pub id : Text
  pub kind : Text
  pub queue : Text
  pub spec : Text
  pub last_fired : Option ℕ
  pub last_seen : Option ℕ
  pub stale : Bool

pub record SchedulerStatus : Type 0 where
  pub leader_id : Text
  pub schedules : List ScheduleInfo

-- staleAfter
abbrev pub stale_after : ℕ
stale_after = 60 * second

-- firedAt: of two entries with one id the later one stands.
unfoldable pub fired_at : List ScheduleFireInfo → Text → Option ℕ
fired_at [] id = none
fired_at (f ∷ fired) id = elim (fired_at fired id) [
  | none ↦ if eq_text f.id id then some f.last_fired else none
  | some ts ↦ some ts
]

-- An entry of the registry, at a time in nanoseconds.
unfoldable pub registry_info : ℕ → List ScheduleFireInfo → ScheduleMeta → ScheduleInfo
unfolding fired_at
registry_info now fired m = record {
  id = m.id;
  kind = m.kind;
  queue = m.queue;
  spec = m.spec;
  last_fired = fired_at fired m.id;
  last_seen = some m.last_seen;
  stale = ltb stale_after (now - m.last_seen * second);
}

abbrev pub ids_of : List ScheduleMeta → List Text
ids_of registry = map (λ (m : ScheduleMeta). m.id) registry

-- What has fired and is not registered.
abbrev pub fired_info : ScheduleFireInfo → ScheduleInfo
fired_info f = record {
  id = f.id;
  kind = [];
  queue = [];
  spec = [];
  last_fired = some f.last_fired;
  last_seen = none;
  stale = false;
}

unfoldable pub leftovers : List Text → List ScheduleFireInfo → List ScheduleInfo
unfolding contains_text
leftovers seen [] = []
leftovers seen (f ∷ fired) =
    let rest = leftovers seen fired in
    elim (contains_text f.id seen) [ true ↦ rest | false ↦ fired_info f ∷ rest ]

unfoldable pub merge_schedules : ℕ → List ScheduleMeta → List ScheduleFireInfo → List ScheduleInfo
unfolding registry_info leftovers
merge_schedules now registry fired =
    map (registry_info now fired) registry ++ leftovers (ids_of registry) fired

-- SchedulerStatus, for what ScanSchedules returns.
unfoldable pub scheduler_status :
    (r : Redis) → Keys → M r (List ScheduleFireInfo) → M r SchedulerStatus
unfolding leader_id list_schedules merge_schedules
scheduler_status r ks scan_schedules = do
  leader ← leader_id r ks
  registry ← list_schedules r ks
  fired ← scan_schedules
  now ← time_now
  pure (record { leader_id = leader; schedules = merge_schedules now registry fired })

-- How often an id stands in a list.
unfoldable pub times_in : Text → List Text → ℕ
times_in id [] = 0
times_in id (x ∷ xs) = let rest = times_in id xs in if eq_text x id then suc rest else rest

abbrev pub info_ids : List ScheduleInfo → List Text
info_ids infos = map (λ (i : ScheduleInfo). i.id) infos

abbrev pub fired_ids : List ScheduleFireInfo → List Text
fired_ids fired = map (λ (f : ScheduleFireInfo). f.id) fired

times_in-registered :
    (id : Text) (now : ℕ) (fired : List ScheduleFireInfo) (registry : List ScheduleMeta)
    (rest : List ScheduleInfo)
    → times_in id (info_ids (map (registry_info now fired) registry ++ rest))
      ≡ times_in id (ids_of registry) + times_in id (info_ids rest)
unfolding times_in registry_info
times_in-registered id now fired [] rest = omega arith
times_in-registered id now fired (m ∷ registry) rest =
    ground (arith, times_in-registered id now fired registry rest)

times_in-absent : (id : Text) (xs : List Text) → contains_text id xs ≡ false → times_in id xs ≡ 0
unfolding times_in contains_text
times_in-absent id [] away = refl
times_in-absent id (x ∷ xs) away = elim (Bool-cases (eq_text x id)) [
  | inl same ↦ absurd (cc (simp same at away))
  | inr other ↦ simp other (times_in-absent id xs (simp other at away))
]

times_in-unless :
    (id : Text) (f : ScheduleFireInfo) (there : Bool) (rest : List ScheduleInfo)
    → times_in id (info_ids (elim there [ true ↦ rest | false ↦ fired_info f ∷ rest ])) ≡ (
        if eq_text f.id id && not there
        then suc (times_in id (info_ids rest))
        else times_in id (info_ids rest))
unfolding times_in
times_in-unless id f true rest = elim (Bool-cases (eq_text f.id id)) [
  | inl e ↦ simp e
  | inr e ↦ simp e
]
times_in-unless id f false rest = elim (Bool-cases (eq_text f.id id)) [
  | inl e ↦ simp e
  | inr e ↦ simp e
]

times_in-leftovers :
    (id : Text) (seen : List Text) (fired : List ScheduleFireInfo)
    → times_in id (info_ids (leftovers seen fired))
      ≡ (if contains_text id seen then 0 else times_in id (fired_ids fired))
unfolding leftovers times_in
times_in-leftovers id seen [] = elim (Bool-cases (contains_text id seen)) [
  | inl e ↦ simp e
  | inr e ↦ simp e
]
times_in-leftovers id seen (f ∷ fired) =
    times_in-unless id f (contains_text f.id seen) (leftovers seen fired)
    ∙ (elim (Bool-cases (contains_text id seen)) [
      | inl there ↦ elim (Bool-cases (eq_text f.id id)) [
        | inl same ↦
            simp (eq_text→eq f.id id same, eq_text_refl id, there, times_in-leftovers id seen fired)
        | inr other ↦ simp (other, there, times_in-leftovers id seen fired)
      ]
      | inr away ↦ elim (Bool-cases (eq_text f.id id)) [
        | inl same ↦
            simp (eq_text→eq f.id id same, eq_text_refl id, away, times_in-leftovers id seen fired)
        | inr other ↦ simp (other, away, times_in-leftovers id seen fired)
      ]
    ])

-- SchedulerStatus lists an id as often as the registry does if it is registered, also one that
-- never fired, and otherwise as often as the fire history does.
pub times_in-merge_schedules :
    (id : Text) (now : ℕ) (registry : List ScheduleMeta) (fired : List ScheduleFireInfo)
    → times_in id (info_ids (merge_schedules now registry fired)) ≡ (
        if contains_text id (ids_of registry)
        then times_in id (ids_of registry)
        else times_in id (fired_ids fired))
unfolding merge_schedules
times_in-merge_schedules id now registry fired =
    times_in-registered id now fired registry (leftovers (ids_of registry) fired)
    ∙ ap (λ n. times_in id (ids_of registry) + n) (times_in-leftovers id (ids_of registry) fired)
    ∙ (elim (Bool-cases (contains_text id (ids_of registry))) [
      | inl there ↦ simp there (omega arith)
      | inr away ↦ simp away (omega (arith, times_in-absent id (ids_of registry) away))
    ])
