-- ===== src/Examples/Registry.antt =====
-- The registry of schedules at concrete inputs.
use chronos_go.Common.{◌*◌, ◌≡◌, inr, refl, codes, true, false, none, some, eq_text, [], ◌∷◌, arith}
use chronos_go.Keys.{schedules_key}
use chronos_go.Redis.{hset, contains_text}
use chronos_go.ScheduleMeta.{ScheduleMeta}
use chronos_go.World.{World}
use chronos_go.Rdb.Enqueue.{second}
use chronos_go.Rdb.Registry.{prune_schedules, touch_schedules}
use chronos_go.Rdb.Pruned.{entry, NeverFired, prune_schedules-spares, prune_schedules-removes}
use chronos_go.Rdb.Touched.{at_touch, touch_schedules-survives}
use chronos_go.Examples.Store.{store}
use chronos_go.Examples.Data.{keys, mail, calm_world}

-- Last seen at forty seconds.
abbrev report_meta : ScheduleMeta
report_meta = record {
  id = codes "report";
  kind = codes "report";
  queue = mail;
  spec = codes "@every 10s";
  registered_at = 10;
  last_seen = 40;
}

abbrev with_report : World store
unfolding store
with_report = record calm_world {
  db =
      store.write 0 (schedules_key keys) (hset (codes "report") (store.meta report_meta))
        calm_world.db;
}

is_registered : entry store keys with_report.db (codes "report") ≡ some (store.meta report_meta)
unfolding store schedules_key eq_text
is_registered = refl

no_faults : with_report.turns ≡ []
unfolding store
no_faults = refl

prune_schedules-spares_example :
    entry store keys (prune_schedules store keys [] (30 * second) with_report).1.db (codes "report")
    ≡ some (store.meta report_meta)
prune_schedules-spares_example =
    prune_schedules-spares store keys [] (30 * second) (codes "report") report_meta with_report
      is_registered (inr (omega arith))

is_foreign : contains_text (codes "report") (codes "other" ∷ []) ≡ false
unfolding contains_text eq_text
is_foreign = refl

prune_schedules-removes_example :
    (entry store keys
        (prune_schedules store keys (codes "other" ∷ []) (60 * second) with_report).1.db
        (codes "report")
      ≡ none)
    × NeverFired store keys
        (codes "report")
        (prune_schedules store keys (codes "other" ∷ []) (60 * second) with_report).1.db
prune_schedules-removes_example =
    prune_schedules-removes store keys (codes "other" ∷ []) (60 * second) (codes "report")
      report_meta with_report no_faults is_registered is_foreign (omega arith)

is_own : contains_text (codes "report") (codes "report" ∷ []) ≡ true
unfolding contains_text eq_text
is_own = refl

touch_schedules-survives_example :
    entry store keys
      (prune_schedules store keys [] 0
        (touch_schedules store keys (codes "report" ∷ []) with_report).1).1.db
      (codes "report")
    ≡ some (
        store.meta
          (at_touch store keys (codes "report") report_meta (codes "report" ∷ []) with_report))
touch_schedules-survives_example =
    touch_schedules-survives store keys (codes "report") report_meta (codes "report" ∷ []) [] 0
      with_report (touch_schedules store keys (codes "report" ∷ []) with_report).1 no_faults
      is_registered is_own refl (omega arith)
