-- ===== src/Client/Tail.antt =====
-- What the validation of chain.go lets through in a chain.
use chronos_go.Common.{
  ℕ, suc, ◌*◌, ◌/◌, ◌≤◌, ◌≡◌, refl, subst, Text, Bool, true, false, ltb, not, ◌&&◌, none, some,
  List, [], ◌∷◌, map, arith,
}
use chronos_go.Refusal.{
  absolute_time, discard_mid_chain, discard_strands, beyond_group_ttl, no_members, at_link,
  at_stage, at_member, at_callback,
}
use chronos_go.Task.{TaskMessage, ChainLink, GroupMemberLink}
use chronos_go.World.{ok}
use chronos_go.Rdb.Enqueue.{second}
use chronos_go.Rdb.Group.{group_ttl}
use chronos_go.Client.Options.{EnqueueOptions, capture_relative_delay, encode_args}
use chronos_go.Client.Stages.{
  Planned, Stages, new_chain, task_stage, group_stage, nil_group_stage, Group, group_of, Members,
  new_group, task_member, chain_member, nil_chain_member, wrapped,
}
use chronos_go.Client.Chain.{
  resolve_chain_options, snapshot_chain_link, snapshot_member, snapshot_members,
  snapshot_group_stage, snapshot_tail, snapshot_chain, is_end, member_count,
}
use chronos_go.Client.Sound.{bind-eq_ok, wrapped-eq_ok, passed, ok_injective}

-- Of a chain's links, by whether each may be discarded, all but the last are kept.
abbrev pub KeptButLast : List Bool → Type 0
KeptButLast [] = Unit {0}
KeptButLast (b ∷ []) = Unit {0}
KeptButLast (b ∷ c ∷ cs) = (b ≡ false) × KeptButLast (c ∷ cs)

KeptButLast-cons : (bs : List Bool) → KeptButLast bs → KeptButLast (false ∷ bs)
KeptButLast-cons [] h = tt
KeptButLast-cons (b ∷ bs) h = (refl, h)

KeptButLast-link :
    (b last : Bool) (bs : List Bool)
    → (b && not last) ≡ false
    → (last ≡ true → bs ≡ [])
    → KeptButLast bs
    → KeptButLast (b ∷ bs)
KeptButLast-link false last bs kept ends h = KeptButLast-cons bs h
KeptButLast-link true true bs kept ends h = rw (ends refl) tt
KeptButLast-link true false bs kept ends h = cc

and_swap : (a b : Bool) → (not a && b) ≡ false → (b && not a) ≡ false
and_swap true true h = refl
and_swap true false h = refl
and_swap false true h = h
and_swap false false h = refl

-- The members of a stage are within the group's time to live.
abbrev pub InTime : List GroupMemberLink → Type 0
InTime [] = Unit {0}
InTime (m ∷ ms) = (m.delay * second ≤ group_ttl) × InTime ms

abbrev pub StagesInTime : List ChainLink → Type 0
StagesInTime [] = Unit {0}
StagesInTime (l ∷ ls) = InTime l.group × StagesInTime ls

module _ (now : ℕ) where
  snapshot_chain_link-kept :
      (p : Planned) (last : Bool) {l : ChainLink}
      → snapshot_chain_link now p last ≡ ok l
      → ((l.no_archive && not last) ≡ false) × InTime l.group
  unfolding snapshot_chain_link
  snapshot_chain_link-kept p last h =
      let (o, resolved, h1) = bind-eq_ok (resolve_chain_options now p.opts) _ h in
      let (relative, h2) = passed o.process_at_absolute absolute_time _ h1 in
      let (kept, h3) = passed (o.no_archive && not last) discard_mid_chain _ h2 in
      let (payload, encoded, h4) = bind-eq_ok (encode_args p.args) _ h3 in
      subst (λ (l : ChainLink). ((l.no_archive && not last) ≡ false) × InTime l.group)
        (ok_injective h4) (kept, tt)

  snapshot_member-in_time :
      (p : Planned) {m : GroupMemberLink}
      → snapshot_member now p ≡ ok m
      → m.delay * second ≤ group_ttl
  unfolding snapshot_member
  snapshot_member-in_time p h =
      let (o, resolved, h1) = bind-eq_ok (resolve_chain_options now p.opts) _ h in
      let (kept, h2) = passed o.no_archive discard_strands _ h1 in
      let (relative, h3) = passed o.process_at_absolute absolute_time _ h2 in
      let (payload, encoded, h4) = bind-eq_ok (encode_args p.args) _ h3 in
      let delay = capture_relative_delay now o in
      let (within, h5) = passed (ltb (group_ttl / second) delay) beyond_group_ttl _ h4 in
      subst (λ (m : GroupMemberLink). m.delay * second ≤ group_ttl) (ok_injective h5) (ground arith)

  snapshot_members-InTime :
      (j : ℕ) (ms : Members) {links : List GroupMemberLink}
      → snapshot_members now j ms ≡ ok links
      → InTime links
  unfolding snapshot_members
  snapshot_members-InTime j new_group h = subst InTime (ok_injective h) tt
  snapshot_members-InTime j (chain_member c rest) h = cc
  snapshot_members-InTime j (nil_chain_member rest) h = cc
  snapshot_members-InTime j (task_member p rest) h =
      let (m, made, h1) = bind-eq_ok (wrapped (at_member j) (snapshot_member now p)) _ h in
      let (links, others, h2) = bind-eq_ok (snapshot_members now (suc j) rest) _ h1 in
      subst InTime (ok_injective h2) (
        snapshot_member-in_time p (wrapped-eq_ok (at_member j) _ made),
        snapshot_members-InTime (suc j) rest others,
      )

  snapshot_group_stage-kept :
      (i : ℕ) (g : Group) (last : Bool) {l : ChainLink}
      → snapshot_group_stage now i g last ≡ ok l
      → ((l.no_archive && not last) ≡ false) × InTime l.group
  unfolding snapshot_group_stage
  snapshot_group_stage-kept i (group_of ms none) last h =
      let (there, h1) = passed (not (ltb 0 (member_count ms))) (at_stage i no_members) _ h in cc
  snapshot_group_stage-kept i (group_of ms (some p)) last h =
      let (there, h1) = passed (not (ltb 0 (member_count ms))) (at_stage i no_members) _ h in
      let (link, frozen, h2) =
        bind-eq_ok (wrapped (λ e. at_stage i (at_callback e)) (snapshot_chain_link now p last)) _
          h1 in
      let (links, made, h3) = bind-eq_ok (wrapped (at_stage i) (snapshot_members now 0 ms)) _ h2 in
      subst (λ (l : ChainLink). ((l.no_archive && not last) ≡ false) × InTime l.group)
        (ok_injective h3)
        (
          (snapshot_chain_link-kept p last
              (wrapped-eq_ok (λ e. at_stage i (at_callback e)) _ frozen)).0,
          snapshot_members-InTime 0 ms (wrapped-eq_ok (at_stage i) _ made),
        )

  -- A tail that can be resumed at every link.
  abbrev pub CanResume : List ChainLink → Type 0
  CanResume links = KeptButLast (map (λ l. l.no_archive) links) × StagesInTime links

  snapshot_tail-end :
      (i : ℕ) (rest : Stages) {links : List ChainLink}
      → snapshot_tail now i rest ≡ ok links
      → is_end rest ≡ true
      → map (λ l. l.no_archive) links ≡ []
  unfolding snapshot_tail is_end
  snapshot_tail-end i new_chain h end =
      subst (λ links. map (λ l. l.no_archive) links ≡ []) (ok_injective h) refl
  snapshot_tail-end i (task_stage p rest) h end = cc
  snapshot_tail-end i (group_stage g rest) h end = cc
  snapshot_tail-end i (nil_group_stage rest) h end = cc

  CanResume-cons :
      (l : ChainLink) (i : ℕ) (rest : Stages) {links : List ChainLink}
      → snapshot_tail now i rest ≡ ok links
      → ((l.no_archive && not (is_end rest)) ≡ false) × InTime l.group
      → CanResume links
      → CanResume (l ∷ links)
  CanResume-cons l i rest frozen kept others = (
    KeptButLast-link l.no_archive (is_end rest) _ kept.0 (snapshot_tail-end i rest frozen) others.0,
    (kept.1, others.1),
  )

  snapshot_tail-CanResume :
      (i : ℕ) (stages : Stages) {links : List ChainLink}
      → snapshot_tail now i stages ≡ ok links
      → CanResume links
  unfolding snapshot_tail
  snapshot_tail-CanResume i new_chain h = subst CanResume (ok_injective h) (tt, tt)
  snapshot_tail-CanResume i (nil_group_stage rest) h = cc
  snapshot_tail-CanResume i (task_stage p rest) h =
      let (l, made, h1) =
        bind-eq_ok (wrapped (at_link i) (snapshot_chain_link now p (is_end rest))) _ h in
      let (links, others, h2) = bind-eq_ok (snapshot_tail now (suc i) rest) _ h1 in
      subst CanResume (ok_injective h2) (
        CanResume-cons l (suc i) rest others
          (snapshot_chain_link-kept p (is_end rest) (wrapped-eq_ok (at_link i) _ made))
          (snapshot_tail-CanResume (suc i) rest others))
  snapshot_tail-CanResume i (group_stage g rest) h =
      let (l, made, h1) = bind-eq_ok (snapshot_group_stage now i g (is_end rest)) _ h in
      let (links, others, h2) = bind-eq_ok (snapshot_tail now (suc i) rest) _ h1 in
      subst CanResume (ok_injective h2) (
        CanResume-cons l (suc i) rest others (snapshot_group_stage-kept i g (is_end rest) made)
          (snapshot_tail-CanResume (suc i) rest others))

  -- If a chain passes the validation of Chain.Enqueue, then of the first message and the links of
  -- its tail all but the last may not be discarded, and the delay of every member of a parallel
  -- stage is within the group's time to live.
  pub snapshot_chain-CanResume :
      (chain_id : Text) (stages : Stages) {m : TaskMessage} {o : EnqueueOptions}
      → snapshot_chain now chain_id stages ≡ ok (m, o)
      → KeptButLast (m.no_archive ∷ map (λ l. l.no_archive) m.chain) × StagesInTime m.chain
  unfolding snapshot_chain
  snapshot_chain-CanResume chain_id new_chain h = cc
  snapshot_chain-CanResume chain_id (group_stage g rest) h = cc
  snapshot_chain-CanResume chain_id (nil_group_stage rest) h = cc
  snapshot_chain-CanResume chain_id (task_stage p rest) h =
      let (tail, frozen, h1) = bind-eq_ok (snapshot_tail now 1 rest) _ h in
      let (o, resolved, h2) =
        bind-eq_ok (wrapped (at_link 0) (resolve_chain_options now p.opts)) _ h1 in
      let (kept, h3) =
        passed (not (is_end rest) && o.no_archive) (at_link 0 discard_mid_chain) _ h2 in
      let (payload, encoded, h4) = bind-eq_ok (wrapped (at_link 0) (encode_args p.args)) _ h3 in
      let others = snapshot_tail-CanResume 1 rest frozen in
      subst
        (λ (first : TaskMessage × EnqueueOptions).
          KeptButLast (first.0.no_archive ∷ map (λ l. l.no_archive) first.0.chain)
          × StagesInTime first.0.chain)
        (ok_injective h4)
        (
          KeptButLast-link o.no_archive (is_end rest) (map (λ l. l.no_archive) tail)
              (and_swap (is_end rest) o.no_archive kept) (snapshot_tail-end 1 rest frozen) others.0,
          others.1,
        )
