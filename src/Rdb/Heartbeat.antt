-- ===== src/Rdb/Heartbeat.antt =====
-- heartbeat.go of internal/rdb: the renewal of leases and locks of the tasks that are being worked on.
use chronos_go.Common.{
  ℕ, ◌+◌, ◌≤◌, ◌≡◌, ℤ, pos, negsuc, refl, true, inl, inr, Bool-cases, eq_text, eq_text→eq, lt→ltb,
  arith, ltb, Text, if◌then◌else◌, some, List, [], ◌∷◌,
}
use chronos_go.Keys.{Keys, key_of, stream}
use chronos_go.Redis.{Redis, pexpire, xclaim}
use chronos_go.World.{M, pure}
use chronos_go.Rdb.Enqueue.{run, unique_ttl_millis}

module _ (r : Redis) where
  -- renewUniqueCmd
  unfoldable pub renew_if_shorter : Text → ℕ → ℕ → ℤ → r.Db → r.Db
  renew_if_shorter key ttl now (negsuc n) db = db
  renew_if_shorter key ttl now (pos left) db =
      if ltb left ttl then r.write now key (pexpire ttl) db else db

  unfoldable pub renew_unique_cmd : Text → ℕ → ℕ → r.Db → r.Db
  unfolding renew_if_shorter
  renew_unique_cmd key ttl now db = renew_if_shorter key ttl now (r.pttl now (r.at db key)) db

  -- The scripts of one pipeline.
  unfoldable pub renew_each : List Text → ℕ → ℕ → r.Db → r.Db
  unfolding renew_unique_cmd
  renew_each [] ttl now db = db
  renew_each (key ∷ keys) ttl now db = renew_each keys ttl now (renew_unique_cmd key ttl now db)

  -- RenewUnique; the pipeline is one call.
  unfoldable pub renew_unique : List Text → ℕ → M r Unit
  unfolding renew_each unique_ttl_millis
  renew_unique [] ttl = pure tt
  renew_unique (key ∷ keys) ttl = run r (renew_each (key ∷ keys) (unique_ttl_millis ttl))

  -- ExtendLease
  unfoldable pub extend_lease : Keys → Text → List ℕ → M r Unit
  extend_lease ks q [] = pure tt
  extend_lease ks q (id ∷ ids) = run r (λ t. r.write t (key_of ks q stream) (xclaim (id ∷ ids)))

  renew_unique_cmd-keeps :
      (key k : Text) (ttl now later : ℕ) (x : Text) (db : r.Db)
      → now ≤ later
      → r.get later (r.at db k) ≡ some x
      → r.get later (r.at (renew_unique_cmd key ttl now db) k) ≡ some x
  unfolding renew_unique_cmd renew_if_shorter
  renew_unique_cmd-keeps key k ttl now later x db after there =
      by_left (r.pttl now (r.at db key)) refl
    where
      longer :
          (left : ℕ)
          → r.pttl now (r.at db key) ≡ pos left
          → ltb left ttl ≡ true
          → r.get later (r.at (r.write now key (pexpire ttl) db) k) ≡ some x
      longer left timed short = elim (Bool-cases (eq_text key k)) [
        | inl same ↦
            let same_key = eq_text→eq key k same in
            let soon = r.get-pttl now later left x (r.at db key) after timed (rw same_key there) in
            simp (
              r.at-write,
              same,
              r.get-pexpire now later ttl x (r.at db k) after
                  (r.get_earlier now later x (r.at db k) after there),
              lt→ltb later (now + ttl) (ground (arith, soon)),
            )
        | inr other ↦ simp (r.at-write, other) there
      ]

      by_left :
          (left : ℤ)
          → r.pttl now (r.at db key) ≡ left
          → r.get later (r.at (renew_if_shorter key ttl now left db) k) ≡ some x
      by_left (negsuc n) timed = there
      by_left (pos left) timed = elim (Bool-cases (ltb left ttl)) [
        | inl short ↦ simp short (longer left timed short)
        | inr long ↦ simp long there
      ]

  -- The scripts of RenewUnique, for any keys, shorten no lock: what a key would hold at a later
  -- time without them it holds at that time after them.
  pub renew_each-keeps :
      (keys : List Text) (k : Text) (ttl now later : ℕ) (x : Text) (db : r.Db)
      → now ≤ later
      → r.get later (r.at db k) ≡ some x
      → r.get later (r.at (renew_each keys ttl now db) k) ≡ some x
  unfolding renew_each
  renew_each-keeps [] k ttl now later x db after there = there
  renew_each-keeps (key ∷ keys) k ttl now later x db after there =
      renew_each-keeps keys k ttl now later x (renew_unique_cmd key ttl now db) after
        (renew_unique_cmd-keeps key k ttl now later x db after there)
