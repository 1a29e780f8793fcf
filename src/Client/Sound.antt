-- ===== src/Client/Sound.antt =====
-- What the validation of chain.go and group.go lets through.
use chronos_go.Common.{
  ◌⊎◌, ltb, ℕ, suc, ◌<◌, ◌≡◌, refl, subst, Text, Bool, true, false, not, none, some, List, [], ◌∷◌,
  ◌++◌, map, arith, decimal,
}
use chronos_go.Keys.{Keys}
use chronos_go.Keys.Prefix.{is_nil}
use chronos_go.Redis.{Redis}
use chronos_go.Refusal.{
  Refusal, task_id_in_chain, unique_in_chain, discard_strands, at_link, at_member, beyond_group_ttl,
  nested_stage, no_members, at_callback,
}
use chronos_go.Task.{TaskMessage, ChainLink}
use chronos_go.World.{Result, ok, err}
use chronos_go.Rdb.Group.{member_slot}
use chronos_go.Server.Process.{member_id}
use chronos_go.Client.Options.{
  EnqueueOptions, EnqueueOption, default_options, apply_all, encode_args,
}
use chronos_go.Client.Stages.{
  Planned, Stages, new_chain, task_stage, group_stage, nil_group_stage, Group, group_of, Members,
  new_group, task_member, chain_member, nil_chain_member, ◌>>=◌, refuse_if, wrapped,
}
use chronos_go.Client.Chain.{
  resolve_chain_options, snapshot_chain_link, snapshot_for_member, snapshot_tail, has_group_stage,
  any_discards, member_count,
}
use chronos_go.Client.Within.{total_delay, EndsInTime, PassesRange, exceeds_ttl-EndsInTime}
use chronos_go.Client.Group.{
  PendingMember, first_wait, sum_delays, exceeds_ttl, chain_pending, task_pending, pending_members,
  ids_from, snapshot_group, group_member_ids,
}

-- A step and what follows it have passed only together.
pub bind-eq_ok :
    {A B : Type 0} (res : Result A) (step : A → Result B) {out : B}
    → (res >>= step) ≡ ok out
    → (mid : A) × (res ≡ ok mid) × (step mid ≡ ok out)
bind-eq_ok (err failure) step came = cc
bind-eq_ok (ok mid) step came = (mid, refl, came)

pub wrapped-eq_ok :
    {A : Type 0} (f : Refusal → Refusal) (m : Result A) {a : A} → wrapped f m ≡ ok a → m ≡ ok a
wrapped-eq_ok f (ok b) h = h
wrapped-eq_ok f (err e) h = cc

-- What follows a guard that has passed.
pub passed :
    {B : Type 0} (b : Bool) (e : Refusal) (rest : Result B) {a : B}
    → (refuse_if b e >>= λ _. rest) ≡ ok a
    → (b ≡ false) × (rest ≡ ok a)
passed true e rest h = cc
passed false e rest h = (refl, h)

pub ok_injective : {A : Type 0} {a b : A} → ok a ≡ ok b → a ≡ b
ok_injective h = cc

pub resolve_chain_options-unlocked :
    (now : ℕ) (opts : List EnqueueOption) {o : EnqueueOptions}
    → resolve_chain_options now opts ≡ ok o
    → ltb 0 o.unique_ttl ≡ false
unfolding resolve_chain_options
resolve_chain_options-unlocked now opts h =
    let o = apply_all now opts default_options in
    let (named, h1) = passed (not (is_nil o.task_id)) task_id_in_chain _ h in
    let (unlocked, h2) = passed (ltb 0 o.unique_ttl) unique_in_chain _ h1 in
    rw (← ok_injective h2) unlocked

module _ (r : Redis) (ks : Keys) (now : ℕ) (group_id : Text) (callback : ChainLink) (size : ℕ) where
  -- What a member of a group is to be: never discarded, nor any link of its chain; without a unique
  -- lock; in time; and with what it reports by: the group, its callback, its index and its slot.
  pub record MemberIsSound (i : ℕ) (p : PendingMember) : Type 0 where
    pub kept : p.msg.no_archive ≡ false
    pub links_kept : any_discards p.msg.chain ≡ false
    pub unlocked : ltb 0 p.options.unique_ttl ≡ false
    pub in_time :
        EndsInTime now p.options.process_at (total_delay p.msg.chain)
        ⊎ PassesRange now p.options.process_at (total_delay p.msg.chain)
    pub of_group : p.msg.group_id ≡ group_id
    pub of_queue : p.msg.group_queue ≡ callback.queue
    pub reports_to : p.msg.group_callback ≡ some callback
    pub indexed : p.msg.group_index ≡ i
    pub counted : p.msg.group_size ≡ size
    pub slot : member_slot r ks p.msg ≡ member_id group_id i

  abbrev pub AreSound : ℕ → List PendingMember → Type 0
  AreSound i [] = Unit {0}
  AreSound i (p ∷ ps) = MemberIsSound i p × AreSound (suc i) ps

  task_pending-IsSound :
      (i : ℕ) (p : Planned) {q : PendingMember}
      → task_pending now group_id callback size i p ≡ ok q
      → MemberIsSound i q
  unfolding task_pending any_discards sum_delays member_slot is_nil
  task_pending-IsSound i p h =
      let (o, resolved, h1) =
        bind-eq_ok (wrapped (at_member i) (resolve_chain_options now p.opts)) _ h in
      let (kept, h2) = passed o.no_archive (at_member i discard_strands) _ h1 in
      let (within, h3) =
        passed (exceeds_ttl (first_wait now o.process_at)) (at_member i beyond_group_ttl) _ h2 in
      let (payload, encoded, h4) = bind-eq_ok (wrapped (at_member i) (encode_args p.args)) _ h3 in
      let unlocked =
        resolve_chain_options-unlocked now p.opts (wrapped-eq_ok (at_member i) _ resolved) in
      subst (MemberIsSound i) (ok_injective h4) (record {
        kept = kept;
        links_kept = refl;
        unlocked = unlocked;
        in_time = exceeds_ttl-EndsInTime now o.process_at [] within;
        of_group = refl;
        of_queue = refl;
        reports_to = refl;
        indexed = refl;
        counted = refl;
        slot = refl;
      })

  -- The first link of a chain that is a member.
  record IsKept (p : TaskMessage × EnqueueOptions) : Type 0 where
    kept : p.0.no_archive ≡ false
    links_kept : any_discards p.0.chain ≡ false
    unlocked : ltb 0 p.1.unique_ttl ≡ false

  snapshot_for_member-IsKept :
      (chain_id : Text) (c : Stages) {p : TaskMessage × EnqueueOptions}
      → snapshot_for_member now chain_id c ≡ ok p
      → IsKept p
  unfolding snapshot_for_member
  snapshot_for_member-IsKept chain_id new_chain h = cc
  snapshot_for_member-IsKept chain_id (group_stage g rest) h = cc
  snapshot_for_member-IsKept chain_id (nil_group_stage rest) h = cc
  snapshot_for_member-IsKept chain_id (task_stage p rest) h =
      let (flat, h1) = passed (has_group_stage rest) nested_stage _ h in
      let (tail, frozen, h2) = bind-eq_ok (snapshot_tail now 1 rest) _ h1 in
      let (o, resolved, h3) =
        bind-eq_ok (wrapped (at_link 0) (resolve_chain_options now p.opts)) _ h2 in
      let (kept, h4) = passed o.no_archive discard_strands _ h3 in
      let (links_kept, h5) = passed (any_discards tail) discard_strands _ h4 in
      let (payload, encoded, h6) = bind-eq_ok (wrapped (at_link 0) (encode_args p.args)) _ h5 in
      subst IsKept (ok_injective h6) (record {
        kept = kept;
        links_kept = links_kept;
        unlocked = resolve_chain_options-unlocked now p.opts (wrapped-eq_ok (at_link 0) _ resolved);
      })

  -- A slot is never the empty text, so a member reports by it and not by its own id.
  slot_lem : (i : ℕ) → is_nil (member_id group_id i) ≡ false
  unfolding member_id is_nil
  slot_lem i = not_nil group_id
    where
      not_nil : (s : Text) → is_nil (s ++ b':' ∷ b'm' ∷ decimal i) ≡ false
      not_nil [] = refl
      not_nil (c ∷ cs) = refl

  chain_pending-IsSound :
      (i : ℕ) (first : Result (TaskMessage × EnqueueOptions)) {q : PendingMember}
      → ((p : TaskMessage × EnqueueOptions) → first ≡ ok p → IsKept p)
      → chain_pending now group_id callback size i first ≡ ok q
      → MemberIsSound i q
  unfolding chain_pending member_slot
  chain_pending-IsSound i first sure h =
      let (p, made, h1) = bind-eq_ok (wrapped (at_member i) first) _ h in
      let (within, h2) =
        passed (exceeds_ttl (sum_delays (first_wait now p.1.process_at) p.0.chain))
          (at_member i beyond_group_ttl) _ h1 in
      let is_kept = sure p (wrapped-eq_ok (at_member i) first made) in
      subst (MemberIsSound i) (ok_injective h2) (record {
        kept = is_kept.kept;
        links_kept = is_kept.links_kept;
        unlocked = is_kept.unlocked;
        in_time = exceeds_ttl-EndsInTime now p.1.process_at p.0.chain within;
        of_group = refl;
        of_queue = refl;
        reports_to = refl;
        indexed = refl;
        counted = refl;
        slot = rw (slot_lem i) refl;
      })

  -- The members are sound, and report by those slots in that order.
  abbrev pub ReportBy : ℕ → List Text → List PendingMember → Type 0
  ReportBy i slots ps = AreSound i ps × (map (λ p. member_slot r ks p.msg) ps ≡ slots)

  ReportBy-cons :
      (i : ℕ) (slots : List Text) (q : PendingMember) (qs : List PendingMember)
      → MemberIsSound i q
      → ReportBy (suc i) slots qs
      → ReportBy i (member_id group_id i ∷ slots) (q ∷ qs)
  ReportBy-cons i slots q qs sound others = ((sound, others.0), rw (sound.slot, others.1) refl)

  pending_members-ReportBy :
      (i : ℕ) (ms : Members) {ps : List PendingMember}
      → pending_members now group_id callback size i ms ≡ ok ps
      → ReportBy i (ids_from group_id i ms) ps
  unfolding pending_members ids_from
  pending_members-ReportBy i new_group h = subst (ReportBy i []) (ok_injective h) (tt, refl)
  pending_members-ReportBy i (nil_chain_member rest) h = cc
  pending_members-ReportBy i (task_member p rest) h =
      let (q, made, h1) = bind-eq_ok (task_pending now group_id callback size i p) _ h in
      let (qs, others, h2) =
        bind-eq_ok (pending_members now group_id callback size (suc i) rest) _ h1 in
      subst (ReportBy i (ids_from group_id i (task_member p rest))) (ok_injective h2) (
        ReportBy-cons i _ q qs (task_pending-IsSound i p made)
          (pending_members-ReportBy (suc i) rest others))
  pending_members-ReportBy i (chain_member c rest) h =
      let first = snapshot_for_member now (member_id group_id i) c in
      let (q, made, h1) = bind-eq_ok (chain_pending now group_id callback size i first) _ h in
      let (qs, others, h2) =
        bind-eq_ok (pending_members now group_id callback size (suc i) rest) _ h1 in
      subst (ReportBy i (ids_from group_id i (chain_member c rest))) (ok_injective h2) (
        ReportBy-cons i _ q qs
          (chain_pending-IsSound i first (λ p. snapshot_for_member-IsKept (member_id group_id i) c)
            made)
          (pending_members-ReportBy (suc i) rest others))

abbrev pub size_of : Group → ℕ
size_of (group_of members callback) = member_count members

-- If a group passes the validation of Group.Enqueue, then it has a member; no member, nor any
-- link of a member's chain, may be discarded; no member has a unique lock; a member's delays,
-- counted from the time of its first link, end within the group's time to live, or they come to 2
-- ^ 63 nanoseconds or more, where a time.Duration wraps; every member carries the group, the
-- callback and its queue, its index and the count of the members; and the slots that the members
-- report by are, in order, the ids that the group's pending set is created with.
pub snapshot_group-ReportBy :
    (r : Redis) (ks : Keys) (now : ℕ) (group_id : Text) (g : Group) {callback : ChainLink}
    {ps : List PendingMember}
    → snapshot_group now group_id g ≡ ok (callback, ps)
    → (0 < size_of g)
      × ReportBy r ks now group_id callback (size_of g) 0 (group_member_ids group_id g) ps
unfolding snapshot_group group_member_ids
snapshot_group-ReportBy r ks now group_id (group_of members none) h =
    let (some_members, h1) = passed (not (ltb 0 (member_count members))) no_members _ h in cc
snapshot_group-ReportBy r ks now group_id (group_of members (some p)) h =
    let (some_members, h1) = passed (not (ltb 0 (member_count members))) no_members _ h in
    let (cb, frozen, h2) = bind-eq_ok (wrapped at_callback (snapshot_chain_link now p true)) _ h1 in
    let (qs, made, h3) =
      bind-eq_ok (pending_members now group_id cb (member_count members) 0 members) _ h2 in
    (
      ground arith,
      subst
          (λ (made : ChainLink × List PendingMember).
            ReportBy r ks now group_id made.0 (member_count members) 0 (ids_from group_id 0 members)
              made.1)
          (ok_injective h3)
          (pending_members-ReportBy r ks now group_id cb (member_count members) 0 members made),
    )
