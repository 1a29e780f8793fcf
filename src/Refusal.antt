-- ===== src/Refusal.antt =====
-- chain.go and group.go: the errors by which the builders of chains and groups refuse what they were
-- given, and the places that they wrap them with.
use chronos_go.Common.{ℕ}

pub data Refusal : Type 0 where
  empty_chain group_first nil_chain empty_member_chain nested_stage : Refusal
  nil_group no_members no_callback chain_in_stage : Refusal
  -- WithTaskID, WithUnique, WithProcessAt and WithDeadLetterDiscard where they have no place
  task_id_in_chain unique_in_chain absolute_time discard_mid_chain discard_strands : Refusal
  -- A delay beyond rdb.GroupTTL
  beyond_group_ttl : Refusal
  args_not_encodable : Refusal
  -- fmt.Errorf("chain link %d: %w", …) and its like
  at_link at_stage at_member : ℕ → Refusal → Refusal
  at_callback : Refusal → Refusal
