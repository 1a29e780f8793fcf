-- ===== src/ScheduleMeta.antt =====
-- The entry of a schedule in the registry of internal/rdb/registry.go.
use chronos_go.Common.{ℕ, Text}

-- Times are Unix seconds.
pub record ScheduleMeta : Type 0 where
  pub id : Text
  pub kind : Text
  pub queue : Text
  pub spec : Text
  pub registered_at : ℕ
  pub last_seen : ℕ
