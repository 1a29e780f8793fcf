-- ===== src/Client/Refused.antt =====
-- What Chain.Enqueue and Group.Enqueue do when the builder refuses: chain.go and group.go.
use chronos_go.Common.{
  ℕ, ◌≡◌, ◌≢◌, Text, ℤ, pos, negsuc, Bool, ltb, true, false, if◌then◌else◌, Option, none, some,
  List, [], ◌∷◌, refl, ◌∙◌, ◌++◌, codes,
}
use chronos_go.Keys.{Keys, queues_key}
use chronos_go.Redis.{Redis, contains_text, sadd}
use chronos_go.Refusal.{Refusal}
use chronos_go.Task.{TaskMessage, ChainLink}
use chronos_go.World.{
  World, M, Result, ok, err, refused_by_builder, continue, ◌>>=◌, Fault, answered, refused, lost,
  first_turn, later_turns, settle, call, pure,
}
use chronos_go.Rdb.Calls.{encoded_as}
use chronos_go.Rdb.Enqueue.{
  run, encode_message, register_queue, check_duplicate, enqueue, schedule, enqueue_unique,
  schedule_unique,
}
use chronos_go.Rdb.Group.{create_group}
use chronos_go.Client.Options.{EnqueueOptions}
use chronos_go.Client.Dispatch.{lock_ttl, dispatch_at, dispatch_message}
use chronos_go.Client.Stages.{Group}
use chronos_go.Client.Group.{
  GroupInfo, PendingMember, snapshot_group, group_member_ids, dispatch_all, enqueue_group,
}

module _ {r : Redis} where
  -- Code whose errors are not those of the builders.
  abbrev pub NeverRefuses : {A : Type 0} → M r A → Type 0
  NeverRefuses m = (w : World r) (e : Refusal) → (m w).0 ≢ err (refused_by_builder e)

  settle-ne :
      {A : Type 0} (fault : Fault) (a : A) (db : r.Db) (w : World r) (e : Refusal)
      → (settle fault a db w).0 ≢ err (refused_by_builder e)
  settle-ne answered a db w e h = cc
  settle-ne refused a db w e h = cc
  settle-ne lost a db w e h = cc

  pub call-NeverRefuses : {A : Type 0} (f : ℕ → r.Db → A × r.Db) → NeverRefuses (call f)
  unfolding call first_turn later_turns
  call-NeverRefuses f w e h = settle-ne (first_turn w.turns).fault _ _ _ e h

  pub bind-NeverRefuses :
      {A B : Type 0} (m : M r A) (f : A → M r B)
      → NeverRefuses m
      → ((a : A) → NeverRefuses (f a))
      → NeverRefuses (m >>= f)
  bind-NeverRefuses {A = A} m f first later w e h = by_result (m w).0 refl h
    where
      by_result :
          (res : Result A) → (m w).0 ≡ res → (continue res f (m w).1).0 ≢ err (refused_by_builder e)
      by_result (ok a) made wrong = later a (m w).1 e wrong
      by_result (err x) made wrong = first w e (cc)

  if-NeverRefuses :
      {A : Type 0} (b : Bool) (m n : M r A)
      → NeverRefuses m
      → NeverRefuses n
      → NeverRefuses (if b then m else n)
  if-NeverRefuses true m n first second = first
  if-NeverRefuses false m n first second = second

  pub pure-NeverRefuses : {A : Type 0} (a : A) → NeverRefuses (pure a)
  pure-NeverRefuses a w e h = cc

module _ (r : Redis) where
  encoded_as-NeverRefuses : (o : Option r.Datum) → NeverRefuses (encoded_as r o)
  encoded_as-NeverRefuses none w e h = cc
  encoded_as-NeverRefuses (some d) w e h = cc

  encode_message-NeverRefuses : (m : TaskMessage) → NeverRefuses (encode_message r m)
  unfolding encode_message
  encode_message-NeverRefuses m = encoded_as-NeverRefuses (r.encode m)

  check_duplicate-NeverRefuses : (n : ℤ) → NeverRefuses (check_duplicate r n)
  unfolding check_duplicate
  check_duplicate-NeverRefuses (pos n) w e h = cc
  check_duplicate-NeverRefuses (negsuc n) w e h = cc

  module _ (ks : Keys) where
    register_queue-NeverRefuses : (q : Text) → NeverRefuses (register_queue r ks q)
    unfolding register_queue
    register_queue-NeverRefuses q w e = by_known (contains_text q w.known)
      where
        note : Unit {0} → M r Unit
        note _ v = (ok tt, record v { known = q ∷ v.known })

        by_known :
            (known : Bool)
            → (if known
                then (ok tt, w)
                else (run r (λ t. r.write t (queues_key ks) (sadd q)) >>= note) w).0
              ≢ err (refused_by_builder e)
        by_known true h = cc
        by_known false h =
            bind-NeverRefuses (run r (λ t. r.write t (queues_key ks) (sadd q))) note
              (call-NeverRefuses (λ t db. (tt, r.write t (queues_key ks) (sadd q) db)))
              (λ _ v x wrong. cc) w e h

    -- The shape that all ways into a queue share.
    placing-NeverRefuses :
        {A : Type 0} (m : TaskMessage) (q : Text) (rest : r.Datum → M r A)
        → ((d : r.Datum) → NeverRefuses (rest d))
        → NeverRefuses (encode_message r m >>= λ d. register_queue r ks q >>= λ _. rest d)
    placing-NeverRefuses m q rest last =
        bind-NeverRefuses _ _ (encode_message-NeverRefuses m)
          (λ d. bind-NeverRefuses _ _ (register_queue-NeverRefuses q) (λ _. last d))

    enqueue-NeverRefuses : (m : TaskMessage) → NeverRefuses (enqueue r ks m)
    unfolding enqueue
    enqueue-NeverRefuses m = placing-NeverRefuses _ m.queue _ (λ d. call-NeverRefuses _)

    schedule-NeverRefuses : (m : TaskMessage) (t : ℕ) → NeverRefuses (schedule r ks m t)
    unfolding schedule
    schedule-NeverRefuses m t = placing-NeverRefuses _ m.queue _ (λ d. call-NeverRefuses _)

    create_group-NeverRefuses :
        (q id : Text) (ids : List Text) → NeverRefuses (create_group r ks q id ids)
    unfolding create_group
    create_group-NeverRefuses q id [] w e h = cc
    create_group-NeverRefuses q id (i ∷ is) w e h = call-NeverRefuses _ w e h

    module _ (sha256_hex : Text → Text) where
      enqueue_unique-NeverRefuses :
          (m : TaskMessage) (ttl : ℕ) → NeverRefuses (enqueue_unique r ks sha256_hex m ttl)
      unfolding enqueue_unique
      enqueue_unique-NeverRefuses m ttl =
          placing-NeverRefuses _ m.queue _
            (λ d. bind-NeverRefuses _ _ (call-NeverRefuses _) check_duplicate-NeverRefuses)

      schedule_unique-NeverRefuses :
          (m : TaskMessage) (t ttl : ℕ) → NeverRefuses (schedule_unique r ks sha256_hex m t ttl)
      unfolding schedule_unique
      schedule_unique-NeverRefuses m t ttl =
          placing-NeverRefuses _ m.queue _
            (λ d. bind-NeverRefuses _ _ (call-NeverRefuses _) check_duplicate-NeverRefuses)

      dispatch_at-NeverRefuses :
          (now : ℕ) (m : TaskMessage) (ttl : ℕ) (t : Option ℕ)
          → NeverRefuses (dispatch_at r ks sha256_hex now m ttl t)
      unfolding dispatch_at
      dispatch_at-NeverRefuses now m ttl none =
          if-NeverRefuses (ltb 0 ttl) _ _ (enqueue_unique-NeverRefuses m ttl)
            (enqueue-NeverRefuses m)
      dispatch_at-NeverRefuses now m ttl (some t) =
          if-NeverRefuses (ltb now t) _ _
            (if-NeverRefuses (ltb 0 ttl) _ _ (schedule_unique-NeverRefuses m t (lock_ttl ttl now t))
              (schedule-NeverRefuses m t))
            (if-NeverRefuses (ltb 0 ttl) _ _ (enqueue_unique-NeverRefuses m ttl)
              (enqueue-NeverRefuses m))

      pub dispatch_message-NeverRefuses :
          (m : TaskMessage) (o : EnqueueOptions)
          → NeverRefuses (dispatch_message r ks sha256_hex m o)
      unfolding dispatch_message
      dispatch_message-NeverRefuses m o w e h =
          dispatch_at-NeverRefuses w.clock m o.unique_ttl o.process_at w e h

      dispatch_all-NeverRefuses :
          (ps : List PendingMember) → NeverRefuses (dispatch_all r ks sha256_hex ps)
      unfolding dispatch_all
      dispatch_all-NeverRefuses [] = pure-NeverRefuses tt
      dispatch_all-NeverRefuses (p ∷ ps) =
          bind-NeverRefuses _ _ (dispatch_message-NeverRefuses p.msg p.options)
            (λ _. dispatch_all-NeverRefuses ps)

      -- Group.Enqueue once the validation has passed.
      abbrev send_members : Text → Group → ChainLink × List PendingMember → M r GroupInfo
      send_members group_id g made =
          create_group r ks made.0.queue group_id (group_member_ids group_id g)
          >>= (λ _. dispatch_all r ks sha256_hex made.1)
          >>= (λ _. pure (record {
            group_id = group_id;
            member_ids = group_member_ids group_id g;
            callback_id = group_id ++ codes ":cb";
          }))

      send_members-NeverRefuses :
          (group_id : Text) (g : Group) (made : ChainLink × List PendingMember)
          → NeverRefuses (send_members group_id g made)
      send_members-NeverRefuses group_id g made =
          bind-NeverRefuses _ _
            (bind-NeverRefuses _ _
              (create_group-NeverRefuses made.0.queue group_id (group_member_ids group_id g))
              (λ _. dispatch_all-NeverRefuses made.1))
            (λ _. pure-NeverRefuses _)

      -- When Group.Enqueue returns one of the builders' errors, the error is that of the
      -- validation of the callback and the members, and the world is the one that it was called
      -- in, so that no call to Redis was made.
      pub enqueue_group-refused :
          (group_id : Text) (g : Group) (w : World r) (e : Refusal)
          → (enqueue_group r ks sha256_hex group_id g w).0 ≡ err (refused_by_builder e)
          → (snapshot_group w.clock group_id g ≡ err (refused_by_builder e))
            × ((enqueue_group r ks sha256_hex group_id g w).1 ≡ w)
      unfolding enqueue_group
      enqueue_group-refused group_id g w e h = by_result (snapshot_group w.clock group_id g) refl h
        where
          by_result :
              (res : Result (ChainLink × List PendingMember))
              → snapshot_group w.clock group_id g ≡ res
              → (continue res (send_members group_id g) w).0 ≡ err (refused_by_builder e)
              → (snapshot_group w.clock group_id g ≡ err (refused_by_builder e))
                × ((continue (snapshot_group w.clock group_id g) (send_members group_id g) w).1 ≡ w)
          by_result (ok made) settled wrong =
              absurd (send_members-NeverRefuses group_id g made w e wrong)
          by_result (err x) settled wrong = (settled ∙ cc, rw settled refl)
