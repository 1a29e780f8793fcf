-- ===== src/Rdb/Released.antt =====
-- Releasing a unique lock, rdb.go, and the other keys of its queue.
use chronos_go.Common.{
  ℕ, ◌≡◌, Text, eq_text, Bool, true, false, if◌then◌else◌, Option, none, some, [], ◌⊎◌, inl, inr,
  refl, Bool-cases,
}
use chronos_go.Keys.{Keys, QueueKey, unique, key_of}
use chronos_go.Keys.Apart.{eq_key}
use chronos_go.Redis.{Redis, del}
use chronos_go.Task.{TaskMessage}
use chronos_go.Keys.Prefix.{is_nil}
use chronos_go.Rdb.Finish.{release_unique}
use chronos_go.World.{World}
use chronos_go.Rdb.Scripts.{release_unique_cmd}
use chronos_go.Rdb.Slots.{at-slot}
use chronos_go.Rdb.Calls.{call-either}

-- Where a message's lock may be: nowhere, or under a unique key of its queue.
unfoldable pub IsLockKey : Keys → Text → Text → Type 0
IsLockKey ks q k = (k ≡ []) ⊎ ((s : Text) × (k ≡ key_of ks q (unique s)))

-- Whether a key is for a lock.
abbrev pub is_lock : QueueKey → Bool
is_lock (unique s) = true
is_lock _ = false

eq_key-unique : (a : QueueKey) (s : Text) → is_lock a ≡ false → eq_key (unique s) a ≡ false
eq_key-unique (unique t) s h = cc
eq_key-unique _ s h = refl

release_unique_cmd-at :
    (r : Redis) (ks : Keys) (q id s : Text) (a : QueueKey) (now : ℕ) (db : r.Db)
    → is_lock a ≡ false
    → r.at (release_unique_cmd r (key_of ks q (unique s)) id now db) (key_of ks q a)
      ≡ r.at db (key_of ks q a)
unfolding release_unique_cmd
release_unique_cmd-at r ks q id s a now db other =
    by_holder (r.get now (r.at db (key_of ks q (unique s))))
  where
    by_holder :
        (o : Option Text)
        → r.at
            (elim o [
              | some holder ↦
                  if eq_text holder id then r.write now (key_of ks q (unique s)) del db else db
              | none ↦ db
            ])
            (key_of ks q a)
          ≡ r.at db (key_of ks q a)
    by_holder none = refl
    by_holder (some holder) = elim (Bool-cases (eq_text holder id)) [
      | inl own ↦ simp (own, at-slot r ks q now, eq_key-unique a s other)
      | inr foreign ↦ simp foreign
    ]

-- Releasing a lock leaves the other keys of the queue.
pub release_unique-at :
    (r : Redis) (ks : Keys) (q : Text) (m : TaskMessage) (a : QueueKey) (w : World r)
    → IsLockKey ks q m.unique_key
    → is_lock a ≡ false
    → r.at (release_unique r ks m w).1.db (key_of ks q a) ≡ r.at w.db (key_of ks q a)
unfolding release_unique IsLockKey is_nil
release_unique-at r ks q m a w (inl none_held) other = simp none_held
release_unique-at r ks q m a w (inr (s, at_s)) other = elim (Bool-cases (is_nil m.unique_key)) [
  | inl nil ↦ simp nil
  | inr there ↦ simp there (
      call-either (λ db. r.at db (key_of ks q a) ≡ r.at w.db (key_of ks q a))
        (λ t db. (tt, release_unique_cmd r m.unique_key m.id t db)) w refl
        (rw at_s (release_unique_cmd-at r ks q m.id s a w.clock w.db other)))
]

release_unique_cmd-keeps :
    (r : Redis) (P : r.Db → Type 0) (lock id : Text) (now : ℕ) (db : r.Db)
    → P db
    → P (r.write now lock del db)
    → P (release_unique_cmd r lock id now db)
unfolding release_unique_cmd
release_unique_cmd-keeps r P lock id now db before deleted = by_holder (r.get now (r.at db lock))
  where
    by_holder :
        (o : Option Text)
        → P (elim o [
          | some holder ↦ if eq_text holder id then r.write now lock del db else db
          | none ↦ db
        ])
    by_holder none = before
    by_holder (some holder) = elim (Bool-cases (eq_text holder id)) [
      | inl own ↦ simp own deleted
      | inr foreign ↦ simp foreign before
    ]

-- Releasing a lock either leaves the database or deletes the lock.
pub release_unique-keeps :
    (r : Redis) (ks : Keys) (P : r.Db → Type 0) (m : TaskMessage) (w : World r)
    → P w.db
    → P (r.write w.clock m.unique_key del w.db)
    → P (release_unique r ks m w).1.db
unfolding release_unique is_nil
release_unique-keeps r ks P m w before deleted = elim (Bool-cases (is_nil m.unique_key)) [
  | inl nil ↦ simp nil before
  | inr there ↦ simp there (
      call-either P (λ t db. (tt, release_unique_cmd r m.unique_key m.id t db)) w before
        (release_unique_cmd-keeps r P m.unique_key m.id w.clock w.db before deleted))
]
