-- ===== src/Server/Config.antt =====
-- The defaults of a server: newServer of server.go. Durations are nanoseconds, as signed integers where
-- the code tests for values below zero.
use chronos_go.Common.{
  ℕ, ◌*◌, ◌/◌, ◌≤◌, ◌<◌, ℤ, pos, negsuc, ltb, leb, ◌==◌, ◌||◌, if◌then◌else◌, ◌⊎◌, arith,
}
use chronos_go.Rdb.Enqueue.{second, millisecond}

-- The settings that newServer fills in, as given.
pub record ServerConfig : Type 0 where
  pub concurrency : ℤ
  pub forward_interval : ℤ
  pub recover_interval : ℤ
  pub recover_min_idle : ℤ
  pub heartbeat_interval : ℤ
  pub archived_retention : ℤ
  pub max_archived : ℤ
  pub max_completed : ℤ
  pub janitor_interval : ℤ

-- The settings that a server runs with.
pub record Settings : Type 0 where
  pub concurrency : ℕ
  pub forward_interval : ℕ
  pub recover_interval : ℕ
  pub recover_min_idle : ℕ
  pub heartbeat_interval : ℕ
  pub archived_retention : ℕ
  pub max_archived : ℤ
  pub max_completed : ℤ
  pub janitor_interval : ℕ

-- `if v <= 0 { v = d }`
unfoldable pub or_default : ℕ → ℤ → ℕ
or_default d (negsuc n) = d
or_default d (pos n) = if n == 0 then d else n

-- `if v == 0 { v = d }`
unfoldable pub or_default_zero : ℕ → ℤ → ℤ
or_default_zero d (negsuc n) = negsuc n
or_default_zero d (pos n) = if n == 0 then pos d else pos n

-- The clamp of the heartbeat interval.
unfoldable pub clamp_heartbeat : ℕ → ℤ → ℕ
clamp_heartbeat min_idle given =
    let third = min_idle / 3 in
    let interval : ℕ = elim given [
      | negsuc n ↦ third
      | pos n ↦ if n == 0 || leb min_idle n then third else n
    ] in
    if ltb interval millisecond then millisecond else interval

-- newServer
unfoldable pub new_server : ServerConfig → Settings
unfolding or_default or_default_zero clamp_heartbeat
new_server cfg =
    let min_idle = or_default (30 * second) cfg.recover_min_idle in
    record {
      concurrency = or_default 1 cfg.concurrency;
      forward_interval = or_default second cfg.forward_interval;
      recover_interval = or_default (15 * second) cfg.recover_interval;
      recover_min_idle = min_idle;
      heartbeat_interval = clamp_heartbeat min_idle cfg.heartbeat_interval;
      archived_retention = or_default (7 * 24 * 3600 * second) cfg.archived_retention;
      max_archived = or_default_zero 10000 cfg.max_archived;
      max_completed = or_default_zero 10000 cfg.max_completed;
      janitor_interval = or_default (60 * second) cfg.janitor_interval;
    }

-- From any settings newServer makes the intervals of all tickers, the recover window and the
-- archive's retention positive, and the concurrency at least one.
pub new_server_valid :
    (cfg : ServerConfig)
    → let s = new_server cfg in
      (0 < s.concurrency)
      × (0 < s.forward_interval)
      × (0 < s.recover_interval)
      × (0 < s.recover_min_idle)
      × (0 < s.heartbeat_interval)
      × (0 < s.archived_retention)
      × (0 < s.janitor_interval)
unfolding new_server
new_server_valid cfg = ground arith

-- From any settings the heartbeat's interval is at least a millisecond, and it is shorter than
-- the recover window unless the window is a millisecond or less.
pub new_server_heartbeat :
    (cfg : ServerConfig)
    → let s = new_server cfg in
      (millisecond ≤ s.heartbeat_interval)
      × (s.heartbeat_interval < s.recover_min_idle ⊎ (s.recover_min_idle ≤ millisecond))
unfolding new_server
new_server_heartbeat cfg = ground arith
