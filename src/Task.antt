-- ===== src/Task.antt =====
-- internal/base/task.go: the states and the stored message of a task. A nil byte slice is the empty
-- text; a pointer is an option.
use chronos_go.Common.{ℕ, Text, codes, Bool, List, Option}

pub data TaskState : Type 0 where
  pending active completed retry archived scheduled : TaskState

-- The constants of the enumeration.
unfoldable pub state_number : TaskState → ℕ
state_number pending = 1
state_number active = 2
state_number completed = 3
state_number retry = 4
state_number archived = 5
state_number scheduled = 6

-- String
unfoldable pub state_text : TaskState → Text
state_text pending = codes "pending"
state_text active = codes "active"
state_text completed = codes "completed"
state_text retry = codes "retry"
state_text archived = codes "archived"
state_text scheduled = codes "scheduled"

pub record GroupMemberLink : Type 0 where
  pub kind : Text
  pub payload : Text
  pub queue : Text
  pub max_retry : ℕ
  pub retention : ℕ
  pub delay : ℕ

pub record ChainLink : Type 0 where
  pub kind : Text
  pub payload : Text
  pub queue : Text
  pub max_retry : ℕ
  pub no_archive : Bool
  pub retention : ℕ
  pub delay : ℕ
  pub group : List GroupMemberLink

pub record TaskMessage : Type 0 where
  pub id : Text
  pub kind : Text
  pub payload : Text
  pub queue : Text
  pub state : TaskState
  pub retried : ℕ
  pub max_retry : ℕ
  pub no_archive : Bool
  pub unique_key : Text
  pub last_err : Text
  pub retention : ℕ
  pub completed_at : ℕ
  pub chain : List ChainLink
  pub chain_id : Text
  pub chain_index : ℕ
  pub group_id : Text
  pub group_queue : Text
  pub group_callback : Option ChainLink
  pub result : Text
  pub prev_result : Text
  pub group_results : List Text
  pub group_index : ℕ
  pub group_size : ℕ
  pub group_member_id : Text
  pub group_callback_chain : List ChainLink
