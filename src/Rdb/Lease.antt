-- ===== src/Rdb/Lease.antt =====
-- The leader's lease of leader.go: who may take it, and until when.
use chronos_go.Common.{
  ℕ, ◌+◌, ◌≡◌, ◌≢◌, ◌≤◌, ◌<◌, ltb, refl, Text, ℤ, pos, eq_text, eq_text_refl, eq_text→eq,
  ne→eq_text, false, Bool-cases, Option, none, some, inl, inr, List, [], ◌∷◌, ap, ◌∙◌, arith,
  if◌then◌else◌, lt→ltb,
}
use chronos_go.Keys.{Keys, leader_key}
use chronos_go.Redis.{Redis, Write, set_px, pexpire, del}
use chronos_go.Rdb.Scripts.{acquire_or_renew_cmd, resign_cmd}

-- What an instance may do about the lease: renew or take it for a time, or give it up.
pub data LeaderOp : Type 0 where
  acquire_or_renew : Text → ℕ → LeaderOp
  resign : Text → LeaderOp

abbrev pub instance_of : LeaderOp → Text
instance_of (acquire_or_renew j ttl) = j
instance_of (resign j) = j

le→ltb : (a b : ℕ) → b ≤ a → ltb a b ≡ false
le→ltb a b h = ground arith

pos_ne : (pos 0 ≡ pos 1) → ⊥
pos_ne e = cc

module _ (r : Redis) (ks : Keys) where
  unfoldable pub leader_step : LeaderOp → ℕ → r.Db → ℤ × r.Db
  leader_step (acquire_or_renew j ttl) now db = acquire_or_renew_cmd r (leader_key ks) j ttl now db
  leader_step (resign j) now db = resign_cmd r (leader_key ks) j now db

  -- The replies to the operations of several instances, one after another.
  unfoldable pub leader_run : List (ℕ × LeaderOp) → r.Db → List ℤ × r.Db
  unfolding leader_step
  leader_run [] db = ([], db)
  leader_run ((now, op) ∷ ops) db =
      let (reply, db') = leader_step op now db in
      let (replies, db'') = leader_run ops db' in (reply ∷ replies, db'')

  abbrev lease : r.Db → r.Value
  lease db = r.at db (leader_key ks)

  at-lease :
      (now : ℕ) (w : Write r.Datum) (db : r.Db)
      → r.at (r.write now (leader_key ks) w db) (leader_key ks) ≡ r.effect now w (lease db)
  at-lease now w db =
      r.at-write now (leader_key ks) (leader_key ks) w db ∙ simp (eq_text_refl (leader_key ks))

  -- Whoever is told that it has the lease holds it until its time is up.
  acquired :
      (i : Text) (ttl now later : ℕ) (db : r.Db)
      → (leader_step (acquire_or_renew i ttl) now db).0 ≡ pos 1
      → now ≤ later
      → r.get later (lease (leader_step (acquire_or_renew i ttl) now db).1)
        ≡ (if ltb later (now + ttl) then some i else none)
  unfolding leader_step acquire_or_renew_cmd
  acquired i ttl now later db granted after = by_found (r.get now (lease db)) refl granted
    where
      Answer : Option Text → ℤ × r.Db
      Answer o = elim o [
        | none ↦ (pos 1, r.write now (leader_key ks) (set_px i ttl) db)
        | some cur ↦
            if eq_text cur i
            then (pos 1, r.write now (leader_key ks) (pexpire ttl) db)
            else (pos 0, db)
      ]

      by_found :
          (o : Option Text)
          → r.get now (lease db) ≡ o
          → (Answer o).0 ≡ pos 1
          → r.get later (lease (Answer o).1) ≡ (if ltb later (now + ttl) then some i else none)
      by_found none free e =
          rw (at-lease now (set_px i ttl) db) (r.get-set_px now later ttl i (lease db) after)
      by_found (some cur) held e = elim (Bool-cases (eq_text cur i)) [
        | inl own ↦ simp (
          own,
          at-lease now (pexpire ttl) db,
          r.get-pexpire now later ttl i (lease db) after (held ∙ ap some (eq_text→eq cur i own)),
        )
        | inr foreign ↦ absurd (pos_ne (simp foreign at e))
      ]

  -- While another instance holds the lease, an operation is refused.
  refused_step :
      (op : LeaderOp) (i : Text) (now : ℕ) (db : r.Db)
      → i ≢ instance_of op
      → r.get now (lease db) ≡ some i
      → leader_step op now db ≡ (pos 0, db)
  unfolding leader_step acquire_or_renew_cmd resign_cmd
  refused_step (acquire_or_renew j ttl) i now db apart held =
      ap
        (λ (o : Option Text). elim o as (λ _. ℤ × r.Db) [
          | none ↦ (pos 1, r.write now (leader_key ks) (set_px j ttl) db)
          | some cur ↦
              if eq_text cur j
              then (pos 1, r.write now (leader_key ks) (pexpire ttl) db)
              else (pos 0, db)
        ])
        held
      ∙ simp (ne→eq_text i j apart)
  refused_step (resign j) i now db apart held =
      ap
        (λ (o : Option Text). elim o as (λ _. ℤ × r.Db) [
          | none ↦ (pos 0, db)
          | some cur ↦
              if eq_text cur j then (pos 1, r.write now (leader_key ks) del db) else (pos 0, db)
        ])
        held
      ∙ simp (ne→eq_text i j apart)

  -- Operations of others than i, each from the one time on and before the other.
  unfoldable pub AreOthers : Text → ℕ → ℕ → List (ℕ × LeaderOp) → Type 0
  AreOthers i from until [] = Unit {0}
  AreOthers i from until ((now, op) ∷ ops) =
      (i ≢ instance_of op) × (from ≤ now) × (now < until) × AreOthers i from until ops

  unfoldable pub refusals : List (ℕ × LeaderOp) → List ℤ
  refusals [] = []
  refusals (_ ∷ ops) = pos 0 ∷ refusals ops

  all_refused :
      (i : Text) (from until : ℕ) (ops : List (ℕ × LeaderOp)) (db : r.Db)
      → AreOthers i from until ops
      → ((later : ℕ) → from ≤ later → later < until → r.get later (lease db) ≡ some i)
      → leader_run ops db ≡ (refusals ops, db)
  unfolding leader_run AreOthers refusals
  all_refused i from until [] db others held = refl
  all_refused i from until ((now, op) ∷ ops) db (apart, late, early, others) held = simp (
    refused_step op i now db apart (held now late early),
    all_refused i from until ops db others held,
  )

  -- Once an instance is granted the leader's lease, then until the lease's time is up any
  -- sequence of attempts of other instances to take the lease or to resign is refused one by one
  -- and leaves the database as it is.
  pub lease-exclusive :
      (i : Text) (ttl now : ℕ) (ops : List (ℕ × LeaderOp)) (db : r.Db)
      → (leader_step (acquire_or_renew i ttl) now db).0 ≡ pos 1
      → AreOthers i now (now + ttl) ops
      → leader_run ops (leader_step (acquire_or_renew i ttl) now db).1
        ≡ (refusals ops, (leader_step (acquire_or_renew i ttl) now db).1)
  lease-exclusive i ttl now ops db granted others =
      all_refused i now (now + ttl) ops (leader_step (acquire_or_renew i ttl) now db).1 others
        (λ later late early.
          acquired i ttl now later db granted late ∙ simp (lt→ltb later (now + ttl) early))

  -- When the time of a granted lease is up, the next attempt of any instance is granted.
  pub lease-takeover :
      (i j : Text) (ttl ttl' now later : ℕ) (db : r.Db)
      → (leader_step (acquire_or_renew i ttl) now db).0 ≡ pos 1
      → now + ttl ≤ later
      → (leader_step
          (acquire_or_renew j ttl')
          later
          (leader_step (acquire_or_renew i ttl) now db).1).0
        ≡ pos 1
  unfolding leader_step acquire_or_renew_cmd
  lease-takeover i j ttl ttl' now later db granted over =
      let after = (leader_step (acquire_or_renew i ttl) now db).1 in
      let free : r.get later (lease after) ≡ none =
        acquired i ttl now later db granted (omega arith) ∙ simp (le→ltb later (now + ttl) over) in
      ap
        (λ (o : Option Text).
          (elim o as (λ _. ℤ × r.Db) [
            | none ↦ (pos 1, r.write later (leader_key ks) (set_px j ttl') after)
            | some cur ↦
                if eq_text cur j
                then (pos 1, r.write later (leader_key ks) (pexpire ttl') after)
                else (pos 0, after)
          ]).0)
        free
