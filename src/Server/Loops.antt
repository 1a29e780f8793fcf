-- ===== src/Server/Loops.antt =====
-- server.go: what the maintenance loops do at each tick, for one queue after another, and the heartbeat
-- of the tasks that are being worked on. The order of a Go map is the order of the list given.
use chronos_go.Common.{
  ℕ, ◌*◌, ◌-◌, Text, eq_text, if◌then◌else◌, Option, none, some, List, [], ◌∷◌, ◌++◌,
}
use chronos_go.Keys.{Keys}
use chronos_go.Keys.Prefix.{is_nil}
use chronos_go.Redis.{Redis}
use chronos_go.Task.{TaskMessage}
use chronos_go.World.{M, Result, ok, err, Failure, pure, attempt, time_now, ◌>>=◌, ◌>>◌}
use chronos_go.Server.Config.{Settings}
use chronos_go.Rdb.Consume.{Recovery, recover}
use chronos_go.Rdb.Sweep.{forward_retry, forward_scheduled, trim_archived, trim_completed}
use chronos_go.Rdb.Heartbeat.{extend_lease, renew_unique}

-- inflightEntry
pub record InflightEntry : Type 0 where
  pub stream_id : ℕ
  pub queue : Text
  pub unique_key : Text

-- The map of the tasks in flight, by id.
abbrev pub Inflight : Type 0
Inflight = List (Text × InflightEntry)

-- untrackInflight
unfoldable pub untrack_inflight : Text → Inflight → Inflight
untrack_inflight id [] = []
untrack_inflight id ((k, e) ∷ m) =
    let rest = untrack_inflight id m in if eq_text k id then rest else (k, e) ∷ rest

-- trackInflight
unfoldable pub track_inflight : Text → InflightEntry → Inflight → Inflight
unfolding untrack_inflight
track_inflight id e m = (id, e) ∷ untrack_inflight id m

-- byQueue[q] = append(byQueue[q], id)
unfoldable pub add_to_queue : Text → ℕ → List (Text × List ℕ) → List (Text × List ℕ)
add_to_queue q id [] = (q, id ∷ []) ∷ []
add_to_queue q id ((p, ids) ∷ m) =
    let rest = add_to_queue q id m in
    if eq_text p q then (p, ids ++ id ∷ []) ∷ m else (p, ids) ∷ rest

unfoldable pub by_queue : Inflight → List (Text × List ℕ) → List (Text × List ℕ)
unfolding add_to_queue
by_queue [] acc = acc
by_queue ((id, e) ∷ m) acc = by_queue m (add_to_queue e.queue e.stream_id acc)

unfoldable pub unique_keys : Inflight → List Text
unfolding is_nil
unique_keys [] = []
unique_keys ((id, e) ∷ m) =
    let rest = unique_keys m in if is_nil e.unique_key then rest else e.unique_key ∷ rest

abbrev pub forward_batch_size : ℕ
forward_batch_size = 100

abbrev pub recover_batch_size : ℕ
recover_batch_size = 100

abbrev pub janitor_batch_size : ℕ
janitor_batch_size = 100

module _ (r : Redis) (ks : Keys) where
  unfoldable pub extend_all : List (Text × List ℕ) → M r Unit
  unfolding extend_lease
  extend_all [] = pure tt
  extend_all ((q, ids) ∷ m) = attempt (extend_lease r ks q ids) (λ _. extend_all m)

  -- beat
  unfoldable pub beat : Inflight → ℕ → M r Unit
  unfolding extend_all by_queue unique_keys renew_unique
  beat inflight renew_ttl =
      extend_all (by_queue inflight [])
      >> attempt (renew_unique r (unique_keys inflight) renew_ttl) (λ _. pure tt)

  -- A tick of heartbeaterLoop
  unfoldable pub heartbeat_tick : Settings → Inflight → M r Unit
  unfolding beat
  heartbeat_tick s inflight = beat inflight (2 * s.recover_min_idle)

  -- A tick of forwarderLoop
  unfoldable pub forward_tick : List Text → M r Unit
  unfolding forward_retry forward_scheduled
  forward_tick [] = pure tt
  forward_tick (q ∷ qs) = do
    now ← time_now
    attempt (forward_retry r ks q now forward_batch_size) (λ _. time_now >>= λ later.
        attempt (forward_scheduled r ks q later forward_batch_size) (λ _. forward_tick qs))

  -- What a sweep of the recoverer reports: to OnDeadLetter the tasks archived, to the metrics the
  -- counts of each queue; nothing of a queue whose sweep failed.
  pub record RecoverReport : Type 0 where
    pub queue : Text
    pub recovered : ℕ
    pub dead_lettered : List TaskMessage

  unfoldable pub report_done :
      Text → Recovery → Option Failure → List RecoverReport → List RecoverReport
  report_done q done (some e) rest = rest
  report_done q done none rest =
      record { queue = q; recovered = done.recovered; dead_lettered = done.archived } ∷ rest

  unfoldable pub report_sweep : Text → Result Recovery → List RecoverReport → List RecoverReport
  unfolding report_done
  report_sweep q (err e) rest = rest
  report_sweep q (ok done) rest = report_done q done done.last_err rest

  -- A tick of recovererLoop
  unfoldable pub recover_tick : Settings → List Text → M r (List RecoverReport)
  unfolding recover report_sweep
  recover_tick s [] = pure []
  recover_tick s (q ∷ qs) =
      attempt (recover r ks q s.recover_min_idle recover_batch_size)
        (λ res. recover_tick s qs >>= λ rest. pure (report_sweep q res rest))

  -- What follows the trimming of a queue's archive.
  unfoldable pub then_completed : Settings → Text → Result ℕ → M r Unit → M r Unit
  unfolding trim_completed
  then_completed s q (err e) rest = rest
  then_completed s q (ok n) rest = do
    now ← time_now
    attempt (trim_completed r ks q now s.max_completed janitor_batch_size) (λ _. rest)

  unfoldable pub janitor_queues : Settings → ℕ → List Text → M r Unit
  unfolding trim_archived then_completed
  janitor_queues s cutoff [] = pure tt
  janitor_queues s cutoff (q ∷ qs) =
      attempt (trim_archived r ks q cutoff s.max_archived janitor_batch_size)
        (λ res. then_completed s q res (janitor_queues s cutoff qs))

  -- A tick of janitorLoop
  unfoldable pub janitor_tick : Settings → List Text → M r Unit
  unfolding janitor_queues
  janitor_tick s queues = do now ← time_now; janitor_queues s (now - s.archived_retention) queues
