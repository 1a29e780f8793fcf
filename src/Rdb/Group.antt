-- ===== src/Rdb/Group.antt =====
-- group.go of internal/rdb: the pending set of a group, and the callback that its last member fires.
-- A script and a transaction run at one moment, so that a key of theirs whose time is up is deleted at
-- their start.
use chronos_go.Common.{
  ℕ, zero, suc, ◌+◌, ◌*◌, ℤ, pos, Text, codes, decimal, eq_text, Bool, ltb, ◌&&◌, not,
  if◌then◌else◌, none, some, List, [], ◌∷◌, ◌++◌, length,
}
use chronos_go.Keys.{Keys, key_of, stream, task, scheduled, group, group_result}
use chronos_go.Keys.Prefix.{is_nil}
use chronos_go.Task.{TaskState, TaskMessage, ChainLink}
use chronos_go.Redis.{Redis, hset, del, expire, sadd, srem, xadd, zadd}
use chronos_go.World.{M, invalid, pure, raise, time_now, call, ◌>>=◌, ◌>>◌}
use chronos_go.Rdb.Scripts.{store_task, ◌▷◌}
use chronos_go.Rdb.Enqueue.{second, unix_score, run, encode_message, register_queue, is_one}

-- GroupTTL
abbrev pub group_ttl : ℕ
group_ttl = 7 * 24 * 3600 * second

-- GroupStageState
pub data GroupStageState : Type 0 where
  stage_done stage_exists stage_created : GroupStageState

-- A message with no more than a link's settings.
abbrev pub link_message : Text → ChainLink → TaskMessage
link_message id link = record {
  id = id;
  kind = link.kind;
  payload = link.payload;
  queue = link.queue;
  state = TaskState.pending;
  retried = 0;
  max_retry = link.max_retry;
  no_archive = link.no_archive;
  unique_key = [];
  last_err = [];
  retention = link.retention;
  completed_at = 0;
  chain = [];
  chain_id = [];
  chain_index = 0;
  group_id = [];
  group_queue = [];
  group_callback = none;
  result = [];
  prev_result = [];
  group_results = [];
  group_index = 0;
  group_size = 0;
  group_member_id = [];
  group_callback_chain = [];
}

module _ (r : Redis) where
  open r use {Db, Datum, at, write, members, exists, hget}

  -- A key whose time is up is deleted before it is touched.
  unfoldable pub drop_lapsed : Text → ℕ → Db → Db
  drop_lapsed key now db = if r.lapsed now (at db key) then write now key del db else db

  -- The set and the results of a group, as they are at a time.
  abbrev pub live : Text → Text → ℕ → Db → Db
  live set results now db = db ▷ drop_lapsed set now ▷ drop_lapsed results now

  -- SADD of several members.
  unfoldable pub add_members : Text → List Text → ℕ → Db → Db
  add_members key [] now db = db
  add_members key (m ∷ ms) now db = add_members key ms now (write now key (sadd m) db)

  -- createGroupIfAbsentCmd, on keys whose time is not up
  unfoldable pub create_if_absent : Text → Text → Text → List Text → ℕ → Db → GroupStageState × Db
  unfolding add_members
  create_if_absent set callback results ids now db =
      if exists (at db callback)
      then (stage_done, db)
      else if exists (at db set)
      then (stage_exists, write now set (expire group_ttl) db)
      else (
        stage_created,
        db ▷ add_members set ids now ▷ write now set (expire group_ttl) ▷ write now results del,
      )

  -- createGroupIfAbsentCmd
  unfoldable pub create_group_if_absent_cmd :
      Text → Text → Text → List Text → ℕ → Db → GroupStageState × Db
  unfolding create_if_absent drop_lapsed
  create_group_if_absent_cmd set callback results ids now db =
      create_if_absent set callback results ids now (live set results now db)

  -- The results of members i, i + 1, … up to the count, as the script's loop reads them.
  unfoldable pub collect_results : ℕ → ℕ → Text → Db → List Text
  collect_results zero i results db = []
  collect_results (suc n) i results db =
      elim (hget (at db results) (decimal i)) [
        | none ↦ []
        | some d ↦ elim (r.as_text d) [ none ↦ [] | some s ↦ s ]
      ]
      ∷ collect_results n (suc i) results db

  -- The callback's message with the results in it, by way of cjson.
  unfoldable pub embed_results : List Text → Datum → Datum
  embed_results results cb = elim (r.decode cb) [
    | none ↦ cb
    | some m ↦ elim (r.encode (record m { group_results = results })) [ none ↦ cb | some d ↦ d ]
  ]

  -- What the script is told of the callback: its keys, its message and where it goes.
  pub record Callback : Type 0 where
    pub set : Text
    pub callback : Text
    pub dest : Text
    pub results : Text
    pub encoded : Datum
    pub state : TaskState
    pub id : Text
    pub immediate : Bool
    pub score : ℕ

  -- HSET KEYS[4] index result, and its expiry; nothing for a member without a result.
  unfoldable pub record_result : Callback → Text → ℕ → ℕ → Db → Db
  record_result c result index now db =
      if is_nil result
      then db
      else db
        ▷ write now c.results (hset (decimal index) (r.text result))
        ▷ write now c.results (expire group_ttl)

  -- The branch of groupCompleteCmd where members remain.
  unfoldable pub refresh_group : Callback → ℕ → Db → Db
  refresh_group c now db =
      let db' = write now c.set (expire group_ttl) db in
      if exists (at db' c.results) then write now c.results (expire group_ttl) db' else db'

  -- The branch of groupCompleteCmd where the set has become empty.
  unfoldable pub fire_callback : Callback → ℕ → ℕ → Db → ℤ × Db
  unfolding collect_results embed_results store_task
  fire_callback c count now db =
      let encoded : Datum =
        if exists (at db c.results) && ltb 0 count
        then embed_results (collect_results count 0 c.results db) c.encoded
        else c.encoded in
      let db' = db ▷ write now c.set del ▷ write now c.results del in
      if exists (at db' c.callback) then (pos 0, db') else (
        pos 1,
        db'
            ▷ store_task r c.callback encoded c.state now
            ▷ (if c.immediate
                then write now c.dest (xadd c.id)
                else write now c.dest (zadd c.score c.id)),
      )

  -- groupCompleteCmd, on keys whose time is not up
  unfoldable pub complete_member : Callback → Text → Text → ℕ → ℕ → ℕ → Db → ℤ × Db
  unfolding record_result refresh_group fire_callback
  complete_member c member result index count now db =
      if not (exists (at db c.set))
      then (pos 0, db)
      else (let db' = db ▷ write now c.set (srem member) ▷ record_result c result index now in
          if ltb 0 (length (members (at db' c.set)))
          then (pos 0, refresh_group c now db')
          else fire_callback c count now db')

  -- groupCompleteCmd
  unfoldable pub group_complete_cmd : Callback → Text → Text → ℕ → ℕ → ℕ → Db → ℤ × Db
  unfolding complete_member drop_lapsed
  group_complete_cmd c member result index count now db =
      complete_member c member result index count now (live c.set c.results now db)

  module _ (ks : Keys) where
    -- CreateGroup
    unfoldable pub create_group : Text → Text → List Text → M r Unit
    unfolding add_members drop_lapsed
    create_group cb_queue group_id [] = raise (invalid (codes "group needs at least one member"))
    create_group cb_queue group_id (id ∷ ids) = run r (λ t db.
        db
        ▷ drop_lapsed (key_of ks cb_queue (group group_id)) t
        ▷ add_members (key_of ks cb_queue (group group_id)) (id ∷ ids) t
        ▷ write t (key_of ks cb_queue (group group_id)) (expire group_ttl))

    -- CreateGroupIfAbsent
    unfoldable pub create_group_if_absent : Text → Text → List Text → Text → M r GroupStageState
    create_group_if_absent cb_queue group_id [] cb_task_id =
        raise (invalid (codes "group needs at least one member"))
    create_group_if_absent cb_queue group_id (id ∷ ids) cb_task_id = call (
        create_group_if_absent_cmd (key_of ks cb_queue (group group_id))
          (key_of ks cb_queue (task cb_task_id)) (key_of ks cb_queue (group_result group_id))
          (id ∷ ids))

    -- The callback's message: the link's settings and, in a chain, the tail that it inherits.
    unfoldable pub callback_message : TaskMessage → ChainLink → TaskMessage
    callback_message member link =
        let cb = link_message (member.group_id ++ codes ":cb") link in
        elim member.group_callback_chain [
          | [] ↦ cb
          | l ∷ ls ↦ record cb {
            chain = l ∷ ls;
            chain_id = member.chain_id;
            chain_index = member.chain_index;
          }
        ]

    -- The entry of the pending set that a member reports against.
    unfoldable pub member_slot : TaskMessage → Text
    member_slot m = if is_nil m.group_member_id then m.id else m.group_member_id

    unfoldable pub report_member : TaskMessage → ChainLink → M r Bool
    unfolding callback_message member_slot encode_message register_queue is_one
    report_member member link = do
      register_queue r ks link.queue
      t ← time_now
      let immediate : Bool = not (ltb 0 link.delay)
      let state : TaskState = if immediate then TaskState.pending else TaskState.scheduled
      let cb : TaskMessage = record (callback_message member link) { state = state }
      encoded ← encode_message r cb
      let c : Callback = record {
        set = key_of ks member.group_queue (group member.group_id);
        callback = key_of ks cb.queue (task cb.id);
        dest = if immediate then key_of ks cb.queue stream else key_of ks cb.queue scheduled;
        results = key_of ks member.group_queue (group_result member.group_id);
        encoded = encoded;
        state = state;
        id = cb.id;
        immediate = immediate;
        score = unix_score (t + link.delay * second);
      }
      n ← call (
          group_complete_cmd c (member_slot member) member.result member.group_index
            member.group_size)
      pure (is_one r n)

    -- CompleteGroupMember
    unfoldable pub complete_group_member : TaskMessage → M r Bool
    unfolding report_member
    complete_group_member member = elim member.group_callback [
      | none ↦ raise (invalid (codes "group member has no callback snapshot"))
      | some link ↦
          if eq_text member.group_queue link.queue
          then report_member member link
          else raise (invalid (codes "group state and callback must live on the callback queue"))
    ]

    -- GroupMembers
    unfoldable pub group_members : Text → Text → M r (List Text)
    unfolding drop_lapsed
    group_members cb_queue group_id = call (λ t db.
        let key = key_of ks cb_queue (group group_id) in
        let db' = drop_lapsed key t db in (members (at db' key), db'))
