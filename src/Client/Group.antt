-- ===== src/Client/Group.antt =====
-- group.go: the validation of a group, the messages of its members, and Enqueue.
use chronos_go.Common.{
  int64, until, longer, ℕ, suc, ◌+◌, ◌*◌, ◌++◌, Text, codes, Bool, ltb, not, Option, none, some,
  List, [], ◌∷◌, true,
}
use chronos_go.Keys.{Keys}
use chronos_go.Redis.{Redis}
use chronos_go.Refusal.{
  no_members, no_callback, nil_chain, discard_strands, beyond_group_ttl, at_member, at_callback,
}
use chronos_go.Task.{TaskMessage, ChainLink}
use chronos_go.World
use chronos_go.World.{M, Result, ok}
use chronos_go.Rdb.Enqueue.{second}
use chronos_go.Rdb.Group.{group_ttl, create_group}
use chronos_go.Server.Process.{member_id}
use chronos_go.Client.Options.{EnqueueOptions, encode_args, refuse}
use chronos_go.Client.Dispatch.{options_message, checked, dispatch_message}
use chronos_go.Client.Stages.{
  Planned, Group, group_of, Members, new_group, task_member, chain_member, nil_chain_member, ◌>>=◌,
  ◌>>◌, refuse_if, wrapped,
}
use chronos_go.Client.Chain.{
  resolve_chain_options, snapshot_chain_link, snapshot_for_member, member_count,
}

-- GroupInfo
pub record GroupInfo : Type 0 where
  pub group_id : Text
  pub member_ids : List Text
  pub callback_id : Text

-- A member that passed: its message, and the options that say how it is dispatched.
pub record PendingMember : Type 0 where
  pub msg : TaskMessage
  pub options : EnqueueOptions

-- The duration that a member waits before its first task, if it waits.
unfoldable pub first_wait : ℕ → Option ℕ → ℕ
first_wait now none = 0
first_wait now (some t) = until now t

-- The loop that adds the delays of the links to memberDelay.
unfoldable pub sum_delays : ℕ → List ChainLink → ℕ
sum_delays member_delay [] = member_delay
sum_delays member_delay (l ∷ ls) = sum_delays (int64 (member_delay + int64 (l.delay * second))) ls

-- Whether a duration is more than the group's time to live.
unfoldable pub exceeds_ttl : ℕ → Bool
exceeds_ttl d = longer d group_ttl

-- The fields of every member, whether a task or the first link of a chain.
abbrev pub in_group : Text → ChainLink → ℕ → ℕ → TaskMessage → TaskMessage
in_group group_id callback i size m = record m {
  group_id = group_id;
  group_queue = callback.queue;
  group_callback = some callback;
  group_index = i;
  group_size = size;
}

module _ (now : ℕ) (group_id : Text) (callback : ChainLink) (size : ℕ) where
  -- The path of a chain in the loop over the members.
  unfoldable pub chain_pending : ℕ → Result (TaskMessage × EnqueueOptions) → Result PendingMember
  unfolding exceeds_ttl sum_delays first_wait
  chain_pending i first = do
    snapshot ← wrapped (at_member i) first
    refuse_if (exceeds_ttl (sum_delays (first_wait now snapshot.1.process_at) snapshot.0.chain))
        (at_member i beyond_group_ttl)
    ok (record {
      msg = record (in_group group_id callback i size snapshot.0) {
        group_member_id = member_id group_id i;
      };
      options = snapshot.1;
    })

  -- The path of a single task.
  unfoldable pub task_pending : ℕ → Planned → Result PendingMember
  unfolding exceeds_ttl first_wait resolve_chain_options encode_args
  task_pending i p = do
    o ← wrapped (at_member i) (resolve_chain_options now p.opts)
    refuse_if o.no_archive (at_member i discard_strands)
    refuse_if (exceeds_ttl (first_wait now o.process_at)) (at_member i beyond_group_ttl)
    payload ← wrapped (at_member i) (encode_args p.args)
    ok (record {
      msg =
          in_group group_id callback i size
            (options_message (member_id group_id i) p.args.kind payload o);
      options = o;
    })

  -- The loop over the members from the i-th on.
  unfoldable pub pending_members : ℕ → Members → Result (List PendingMember)
  unfolding chain_pending task_pending snapshot_for_member
  pending_members i new_group = ok []
  pending_members i (task_member p rest) = do
    member ← task_pending i p
    members ← pending_members (suc i) rest
    ok (member ∷ members)
  pending_members i (chain_member c rest) = do
    member ← chain_pending i (snapshot_for_member now (member_id group_id i) c)
    members ← pending_members (suc i) rest
    ok (member ∷ members)
  pending_members i (nil_chain_member rest) = refuse (at_member i nil_chain)

-- memberIDs, from the i-th on
unfoldable pub ids_from : Text → ℕ → Members → List Text
ids_from group_id i new_group = []
ids_from group_id i (task_member p rest) = member_id group_id i ∷ ids_from group_id (suc i) rest
ids_from group_id i (chain_member c rest) = member_id group_id i ∷ ids_from group_id (suc i) rest
ids_from group_id i (nil_chain_member rest) = member_id group_id i ∷ ids_from group_id (suc i) rest

-- What Group.Enqueue settles before it calls Redis: the callback, and the members.
unfoldable pub snapshot_group : ℕ → Text → Group → Result (ChainLink × List PendingMember)
unfolding snapshot_chain_link pending_members member_count
snapshot_group now group_id (group_of members none) = do
  refuse_if (not (ltb 0 (member_count members))) no_members
  refuse no_callback
snapshot_group now group_id (group_of members (some p)) = do
  refuse_if (not (ltb 0 (member_count members))) no_members
  callback ← wrapped at_callback (snapshot_chain_link now p true)
  pending ← pending_members now group_id callback (member_count members) 0 members
  ok (callback, pending)

unfoldable pub group_member_ids : Text → Group → List Text
unfolding ids_from
group_member_ids group_id (group_of members callback) = ids_from group_id 0 members

module _ (r : Redis) (ks : Keys) (sha256_hex : Text → Text) where
  -- The loop that enqueues the members, up to the first error.
  unfoldable pub dispatch_all : List PendingMember → M r Unit
  unfolding dispatch_message
  dispatch_all [] = World.pure tt
  dispatch_all (p ∷ ps) =
      World.◌>>◌ (dispatch_message r ks sha256_hex p.msg p.options) (dispatch_all ps)

  -- Group.Enqueue, for the identifier that uuid.NewString returns.
  unfoldable pub enqueue_group : Text → Group → M r GroupInfo
  unfolding snapshot_group group_member_ids dispatch_all create_group
  enqueue_group group_id g w =
      World.◌>>=◌ (checked (snapshot_group w.clock group_id g))
        (λ (made : ChainLink × List PendingMember).
          World.◌>>◌
            (World.◌>>◌ (create_group r ks made.0.queue group_id (group_member_ids group_id g))
              (dispatch_all made.1))
            (World.pure (record {
              group_id = group_id;
              member_ids = group_member_ids group_id g;
              callback_id = group_id ++ codes ":cb";
            })))
        w
