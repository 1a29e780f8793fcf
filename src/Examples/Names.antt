-- ===== src/Examples/Names.antt =====
-- The keys, the prefix and the delays at concrete inputs.
use chronos_go.Common.{◌*◌, ◌-◌, ◌^◌, ◌≤◌, ◌≡◌, refl, codes, arith, pos}
use chronos_go.Keys.{stream}
use chronos_go.Keys.Prefix.{
  normalize_prefix, accepted, IsPrefixText, normalize_prefix-IsPrefixText, is_nil, trim_left,
  trim_right, is_brace, is_glob, is_space, is_control, check_runes,
}
use chronos_go.Keys.Queues.{Lacks, key_of-queue}
use chronos_go.Retry.{
  retry_base_delay, retry_max_delay, default_retry_delay, default_retry_delay_bounds,
}
use chronos_go.Server.Config.{ServerConfig}
use chronos_go.Examples.Data.{keys, mail, boom}

clean : Lacks b'}' mail
clean = (refl, (refl, (refl, (refl, tt))))

key_of-queue_example : (mail ≡ mail) × (stream ≡ stream)
key_of-queue_example = key_of-queue keys mail mail stream stream clean clean refl

accepted_default : normalize_prefix (codes ":app:") ≡ accepted (codes "app")
unfolding normalize_prefix trim_left trim_right is_nil check_runes is_brace is_glob is_space
    is_control
accepted_default = refl

normalize_prefix-IsPrefixText_example : IsPrefixText (codes "app")
normalize_prefix-IsPrefixText_example =
    normalize_prefix-IsPrefixText (codes ":app:") (codes "app") accepted_default

default_retry_delay_bounds_example :
    (default_retry_delay (λ n. n - 1) 3 boom ≤ retry_base_delay * 2 ^ 3)
    × (default_retry_delay (λ n. n - 1) 3 boom ≤ retry_max_delay)
default_retry_delay_bounds_example =
    default_retry_delay_bounds (λ n. n - 1) (λ n some_bound. omega arith) 3 boom

abbrev unset : ServerConfig
unset = record {
  concurrency = pos 0;
  forward_interval = pos 0;
  recover_interval = pos 0;
  recover_min_idle = pos 0;
  heartbeat_interval = pos 0;
  archived_retention = pos 0;
  max_archived = pos 0;
  max_completed = pos 0;
  janitor_interval = pos 0;
}
