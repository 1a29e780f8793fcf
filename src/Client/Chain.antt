-- ===== src/Client/Chain.antt =====
-- chain.go: the validation of a chain, the links that it freezes its stages into, and Enqueue.
use chronos_go.Common.{
  ℕ, suc, ◌/◌, ◌++◌, Text, codes, Bool, true, false, ltb, ◌&&◌, ◌||◌, not, none, some, List, [],
  ◌∷◌, length,
}
use chronos_go.Keys.{Keys}
use chronos_go.Keys.Prefix.{is_nil}
use chronos_go.Redis.{Redis}
use chronos_go.Refusal.{
  empty_chain, group_first, empty_member_chain, nested_stage, nil_group, no_members, no_callback,
  chain_in_stage, task_id_in_chain, unique_in_chain, absolute_time, discard_mid_chain,
  discard_strands, beyond_group_ttl, at_link, at_stage, at_member, at_callback,
}
use chronos_go.Task.{TaskMessage, ChainLink, GroupMemberLink}
use chronos_go.World
use chronos_go.World.{M, Result, ok}
use chronos_go.Rdb.Enqueue.{second}
use chronos_go.Rdb.Group.{group_ttl}
use chronos_go.Client.Options.{
  EnqueueOptions, EnqueueOption, default_options, apply_all, encode_args, capture_relative_delay,
  refuse,
}
use chronos_go.Client.Dispatch.{TaskInfo, options_message, checked, dispatch_message}
use chronos_go.Client.Stages.{
  Planned, Stages, new_chain, task_stage, group_stage, nil_group_stage, Group, group_of, Members,
  new_group, task_member, chain_member, nil_chain_member, ◌>>=◌, ◌>>◌, refuse_if, wrapped,
}

-- resolveChainOptions
unfoldable pub resolve_chain_options : ℕ → List EnqueueOption → Result EnqueueOptions
unfolding apply_all is_nil
resolve_chain_options now opts = do
  let o = apply_all now opts default_options
  refuse_if (not (is_nil o.task_id)) task_id_in_chain
  refuse_if (ltb 0 o.unique_ttl) unique_in_chain
  ok o

-- snapshotChainLink
unfoldable pub snapshot_chain_link : ℕ → Planned → Bool → Result ChainLink
unfolding resolve_chain_options encode_args capture_relative_delay
snapshot_chain_link now p is_last = do
  o ← resolve_chain_options now p.opts
  refuse_if o.process_at_absolute absolute_time
  refuse_if (o.no_archive && not is_last) discard_mid_chain
  payload ← encode_args p.args
  ok (record {
    kind = p.args.kind;
    payload = payload;
    queue = o.queue;
    max_retry = o.max_retry;
    no_archive = o.no_archive;
    retention = o.retention / second;
    delay = capture_relative_delay now o;
    group = [];
  })

-- One round of the loop of snapshotGroupStage.
unfoldable pub snapshot_member : ℕ → Planned → Result GroupMemberLink
unfolding resolve_chain_options encode_args capture_relative_delay
snapshot_member now p = do
  o ← resolve_chain_options now p.opts
  refuse_if o.no_archive discard_strands
  refuse_if o.process_at_absolute absolute_time
  payload ← encode_args p.args
  let delay = capture_relative_delay now o
  refuse_if (ltb (group_ttl / second) delay) beyond_group_ttl
  ok (record {
    kind = p.args.kind;
    payload = payload;
    queue = o.queue;
    max_retry = o.max_retry;
    retention = o.retention / second;
    delay = delay;
  })

unfoldable pub snapshot_members : ℕ → ℕ → Members → Result (List GroupMemberLink)
unfolding snapshot_member
snapshot_members now j new_group = ok []
snapshot_members now j (task_member p rest) = do
  member ← wrapped (at_member j) (snapshot_member now p)
  members ← snapshot_members now (suc j) rest
  ok (member ∷ members)
snapshot_members now j (chain_member c rest) = refuse (at_member j chain_in_stage)
snapshot_members now j (nil_chain_member rest) = refuse (at_member j chain_in_stage)

-- len(g.members)
unfoldable pub member_count : Members → ℕ
member_count new_group = 0
member_count (task_member p rest) = suc (member_count rest)
member_count (chain_member c rest) = suc (member_count rest)
member_count (nil_chain_member rest) = suc (member_count rest)

-- snapshotGroupStage, for a group that there is
unfoldable pub snapshot_group_stage : ℕ → ℕ → Group → Bool → Result ChainLink
unfolding snapshot_chain_link snapshot_members member_count
snapshot_group_stage now i (group_of members none) is_last = do
  refuse_if (not (ltb 0 (member_count members))) (at_stage i no_members)
  refuse (at_stage i no_callback)
snapshot_group_stage now i (group_of members (some callback)) is_last = do
  refuse_if (not (ltb 0 (member_count members))) (at_stage i no_members)
  link ← wrapped (λ e. at_stage i (at_callback e)) (snapshot_chain_link now callback is_last)
  links ← wrapped (at_stage i) (snapshot_members now 0 members)
  ok (record link { group = links })

-- i == len(ch.stages)-1, by what follows stage i
unfoldable pub is_end : Stages → Bool
is_end new_chain = true
is_end _ = false

-- snapshotTail and snapshotStage: the links from stage i on
unfoldable pub snapshot_tail : ℕ → ℕ → Stages → Result (List ChainLink)
unfolding snapshot_chain_link snapshot_group_stage is_end
snapshot_tail now i new_chain = ok []
snapshot_tail now i (task_stage p rest) = do
  link ← wrapped (at_link i) (snapshot_chain_link now p (is_end rest))
  links ← snapshot_tail now (suc i) rest
  ok (link ∷ links)
snapshot_tail now i (group_stage g rest) = do
  link ← snapshot_group_stage now i g (is_end rest)
  links ← snapshot_tail now (suc i) rest
  ok (link ∷ links)
snapshot_tail now i (nil_group_stage rest) = refuse (at_stage i nil_group)

-- hasGroupStage
unfoldable pub has_group_stage : Stages → Bool
has_group_stage new_chain = false
has_group_stage (task_stage p rest) = has_group_stage rest
has_group_stage (group_stage g rest) = true
has_group_stage (nil_group_stage rest) = true

abbrev pub first_message : Text → Text → Text → List ChainLink → EnqueueOptions → TaskMessage
first_message chain_id kind payload tail o =
    record (options_message (chain_id ++ codes ":0") kind payload o) {
      chain = tail;
      chain_id = chain_id;
    }

-- Whether a link of a member's chain may be discarded.
unfoldable pub any_discards : List ChainLink → Bool
any_discards [] = false
any_discards (l ∷ ls) = l.no_archive || any_discards ls

-- snapshotForMember, for a chain that there is
unfoldable pub snapshot_for_member : ℕ → Text → Stages → Result (TaskMessage × EnqueueOptions)
unfolding snapshot_tail has_group_stage any_discards resolve_chain_options encode_args
snapshot_for_member now chain_id new_chain = refuse empty_member_chain
snapshot_for_member now chain_id (group_stage g rest) = refuse nested_stage
snapshot_for_member now chain_id (nil_group_stage rest) = refuse nested_stage
snapshot_for_member now chain_id (task_stage p rest) = do
  refuse_if (has_group_stage rest) nested_stage
  tail ← snapshot_tail now 1 rest
  o ← wrapped (at_link 0) (resolve_chain_options now p.opts)
  refuse_if o.no_archive discard_strands
  refuse_if (any_discards tail) discard_strands
  payload ← wrapped (at_link 0) (encode_args p.args)
  ok (first_message chain_id p.args.kind payload tail o, o)

-- What Chain.Enqueue makes of its stages before it calls Redis.
unfoldable pub snapshot_chain : ℕ → Text → Stages → Result (TaskMessage × EnqueueOptions)
unfolding snapshot_tail is_end resolve_chain_options encode_args
snapshot_chain now chain_id new_chain = refuse empty_chain
snapshot_chain now chain_id (group_stage g rest) = refuse group_first
snapshot_chain now chain_id (nil_group_stage rest) = refuse group_first
snapshot_chain now chain_id (task_stage p rest) = do
  tail ← snapshot_tail now 1 rest
  o ← wrapped (at_link 0) (resolve_chain_options now p.opts)
  refuse_if (not (is_end rest) && o.no_archive) (at_link 0 discard_mid_chain)
  payload ← wrapped (at_link 0) (encode_args p.args)
  ok (first_message chain_id p.args.kind payload tail o, o)

module _ (r : Redis) (ks : Keys) (sha256_hex : Text → Text) where
  -- Chain.Enqueue, for the identifier that uuid.NewString returns.
  unfoldable pub enqueue_chain : Text → Stages → M r TaskInfo
  unfolding snapshot_chain dispatch_message
  enqueue_chain chain_id stages w =
      World.◌>>=◌ (checked (snapshot_chain w.clock chain_id stages))
        (λ (first : TaskMessage × EnqueueOptions).
          World.◌>>◌ (dispatch_message r ks sha256_hex first.0 first.1) (
            World.pure (record {
              id = first.0.id;
              kind = first.0.kind;
              queue = first.0.queue;
              chain_pending = length first.0.chain;
            })))
        w
