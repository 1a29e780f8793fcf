-- ===== src/Examples/Rounds.antt =====
-- A schedule's last-fired time, a round of fireDue, the order of queues, and the renewal of locks, at
-- concrete inputs.
use chronos_go.Common.{
  ℕ, ◌+◌, ◌*◌, ◌/◌, ◌≡◌, ◌<◌, ◌⊎◌, refl, codes, eq_text, parse_int, pos, false, some, [], ◌∷◌,
  arith,
}
use chronos_go.Redis.{set, set_px}
use chronos_go.World.{World, ok, call}
use chronos_go.Schedule
use chronos_go.Rdb.Enqueue.{second}
use chronos_go.Keys.{schedule_last_fired_key}
use chronos_go.Rdb.Heartbeat.{renew_each, renew_each-keeps}
use chronos_go.Rdb.LastFired.{get_last_fired}
use chronos_go.Scheduler.{ScheduleEntry, fire_entry}
use chronos_go.Scheduler.Fired.{SameLast, AllSeen, due, fire_entry-retries}
use chronos_go.Server.Fetch.{queue_names, queues_by_weight}
use chronos_go.Server.Order.{swap, queues_by_weight-SameMap}
use chronos_go.Wrr.{QueueMap}
use chronos_go.Wrr.Cycle.{Distinct}
use chronos_go.Examples.Store.{store}
use chronos_go.Examples.Data.{keys, mail, calm_world, two_queues}

answered_all : calm_world.turns ≡ []
unfolding store
answered_all = refl

-- Every ten seconds.
abbrev every_ten_seconds : ℕ → ℕ
every_ten_seconds t = (t / (10 * second) + 1) * (10 * second)

every_ten_seconds_after : (t : ℕ) → t < every_ten_seconds t
every_ten_seconds_after t = omega arith

abbrev report_job : ScheduleEntry
report_job = record {
  id = codes "report";
  kind = codes "report";
  spec = codes "@every 10s";
  payload = codes "{}";
  queue = mail;
  max_retry = 3;
  no_arch = false;
  misfire = Schedule.fire_once;
  retention = 0;
  next = every_ten_seconds;
}

-- The schedule last fired at ten seconds.
abbrev fired_before : World store
unfolding store
fired_before = record calm_world {
  db =
      store.write 0 (schedule_last_fired_key keys (codes "report")) (set (codes "10"))
        calm_world.db;
}

fired_at_ten : (get_last_fired store keys report_job.id fired_before).0 ≡ ok (some (10 * second))
unfolding store get_last_fired schedule_last_fired_key call eq_text parse_int
fired_at_ten = refl

fire_entry-retries_example :
    SameLast store keys
      (5 * second)
      report_job
      fired_before
      (fire_entry store keys (5 * second) (25 * second) report_job fired_before).1.db
    ⊎ AllSeen store keys
        (5 * second)
        report_job
        (due store keys (5 * second) report_job (25 * second) (10 * second)).0
        (fire_entry store keys (5 * second) (25 * second) report_job fired_before).1.db
fire_entry-retries_example =
    fire_entry-retries store keys (5 * second) report_job every_ten_seconds_after (25 * second)
      (10 * second) fired_before fired_at_ten

abbrev reordered : QueueMap
reordered = (codes "high", pos 3) ∷ (codes "low", pos 1) ∷ []

apart : Distinct (queue_names two_queues)
unfolding queue_names eq_text
apart = ((refl, tt), (tt, tt))

queues_by_weight-SameMap_example : queues_by_weight two_queues ≡ queues_by_weight reordered
queues_by_weight-SameMap_example =
    queues_by_weight-SameMap two_queues reordered
      (swap (codes "low", pos 1) (codes "high", pos 3) []) apart

held_until_nine :
    store.get 8
      (store.at (store.write 0 (codes "lock") (set_px (codes "a") 9) calm_world.db) (codes "lock"))
    ≡ some (codes "a")
unfolding store eq_text
held_until_nine = refl

renew_each-keeps_example :
    store.get 8 (
      store.at
        (renew_each store
          (codes "lock" ∷ codes "other" ∷ [])
          4
          2
          (store.write 0 (codes "lock") (set_px (codes "a") 9) calm_world.db))
        (codes "lock"))
    ≡ some (codes "a")
renew_each-keeps_example =
    renew_each-keeps store (codes "lock" ∷ codes "other" ∷ []) (codes "lock") 4 2 8 (codes "a")
      (store.write 0 (codes "lock") (set_px (codes "a") 9) calm_world.db) (omega arith)
      held_until_nine
