-- ===== src/Keys.antt =====
-- internal/base/keys.go and internal/base/prefix.go: the names of the Redis keys, and the check of
-- their common prefix. A text is the list of its code points.
pub mod Prefix
pub mod Apart
pub mod Queues
use chronos_go.Common.{Text, codes, ◌++◌}

-- type Keys struct { prefix string }
pub record Keys : Type 0 where
  pub prefix : Text

-- DefaultPrefix
abbrev pub default_prefix : Text
default_prefix = codes "chronos"

-- QueueKeyPrefix
unfoldable pub queue_key_prefix : Keys → Text → Text
queue_key_prefix k qname = k.prefix ++ codes ":{" ++ qname ++ codes "}:"

unfoldable pub stream_key : Keys → Text → Text
stream_key k qname = queue_key_prefix k qname ++ codes "stream"

unfoldable pub task_key : Keys → Text → Text → Text
task_key k qname id = queue_key_prefix k qname ++ codes "t:" ++ id

unfoldable pub task_key_prefix : Keys → Text → Text
task_key_prefix k qname = queue_key_prefix k qname ++ codes "t:"

unfoldable pub queues_key : Keys → Text
queues_key k = k.prefix ++ codes ":queues"

unfoldable pub paused_key : Keys → Text
paused_key k = k.prefix ++ codes ":paused"

unfoldable pub schedules_key : Keys → Text
schedules_key k = k.prefix ++ codes ":schedules"

unfoldable pub retry_key : Keys → Text → Text
retry_key k qname = queue_key_prefix k qname ++ codes "retry"

unfoldable pub archived_key : Keys → Text → Text
archived_key k qname = queue_key_prefix k qname ++ codes "archived"

unfoldable pub completed_key : Keys → Text → Text
completed_key k qname = queue_key_prefix k qname ++ codes "completed"

unfoldable pub group_key : Keys → Text → Text → Text
group_key k cb_queue group_id = queue_key_prefix k cb_queue ++ codes "group:" ++ group_id

unfoldable pub group_result_key : Keys → Text → Text → Text
group_result_key k cb_queue group_id =
    queue_key_prefix k cb_queue ++ codes "groupresult:" ++ group_id

unfoldable pub scheduled_key : Keys → Text → Text
scheduled_key k qname = queue_key_prefix k qname ++ codes "scheduled"

unfoldable pub unique_key : Keys → Text → Text → Text
unique_key k qname suffix = queue_key_prefix k qname ++ codes "unique:" ++ suffix

unfoldable pub leader_key : Keys → Text
leader_key k = k.prefix ++ codes ":leader"

unfoldable pub leader_resign_channel : Keys → Text
leader_resign_channel k = k.prefix ++ codes ":leader:resign"

unfoldable pub periodic_dedup_key : Keys → Text → Text → Text
periodic_dedup_key k qname id = queue_key_prefix k qname ++ codes "pdedup:" ++ id

unfoldable pub schedule_last_fired_key : Keys → Text → Text
schedule_last_fired_key k schedule_id = k.prefix ++ codes ":sched:" ++ schedule_id ++ codes ":last"

-- What a key of a queue is for.
pub data QueueKey : Type 0 where
  stream retry archived completed scheduled : QueueKey
  task unique pdedup group group_result : Text → QueueKey

-- The key that the builder of that purpose makes.
unfoldable pub key_of : Keys → Text → QueueKey → Text
unfolding stream_key task_key retry_key archived_key completed_key group_key group_result_key
    scheduled_key unique_key periodic_dedup_key
key_of k q stream = stream_key k q
key_of k q retry = retry_key k q
key_of k q archived = archived_key k q
key_of k q completed = completed_key k q
key_of k q scheduled = scheduled_key k q
key_of k q (task id) = task_key k q id
key_of k q (unique suffix) = unique_key k q suffix
key_of k q (pdedup id) = periodic_dedup_key k q id
key_of k q (group id) = group_key k q id
key_of k q (group_result id) = group_result_key k q id
