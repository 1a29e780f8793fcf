-- ===== src/Rdb/LastFired.antt =====
-- SetLastFired and GetLastFired of periodic.go: when a schedule last fired, in whole seconds.
use chronos_go.Common.{
  ℕ, ◌/◌, ◌*◌, ◌≡◌, refl, Text, codes, decimal, parse_int, parse_int-decimal, eq_text_refl, Option,
  none, some, [],
}
use chronos_go.Keys.{Keys, schedule_last_fired_key}
use chronos_go.Redis.{Redis, set}
use chronos_go.World.{World, M, ok, invalid, pure, raise, call, ◌>>=◌}
use chronos_go.Rdb.Enqueue.{second, run}
use chronos_go.Rdb.Calm.{call-calm}

module _ (r : Redis) (ks : Keys) where
  -- SetLastFired
  unfoldable pub set_last_fired : Text → ℕ → M r Unit
  set_last_fired id when =
      run r (λ t. r.write t (schedule_last_fired_key ks id) (set (decimal (when / second))))

  -- strconv.ParseInt and time.Unix
  unfoldable pub read_seconds : Option ℕ → M r (Option ℕ)
  read_seconds none = raise (invalid (codes "invalid syntax"))
  read_seconds (some sec) = pure (some (sec * second))

  unfoldable pub read_last_fired : Option Text → M r (Option ℕ)
  unfolding read_seconds
  read_last_fired none = pure none
  read_last_fired (some raw) = read_seconds (parse_int raw)

  -- GetLastFired
  unfoldable pub get_last_fired : Text → M r (Option ℕ)
  unfolding read_last_fired
  get_last_fired id = do
    raw ← call (λ t db. (r.get t (r.at db (schedule_last_fired_key ks id)), db))
    read_last_fired raw

  read_seconds-world : (o : Option ℕ) (w : World r) → (read_seconds o w).1 ≡ w
  unfolding read_seconds
  read_seconds-world none w = refl
  read_seconds-world (some sec) w = refl

  pub read_last_fired-world : (o : Option Text) (w : World r) → (read_last_fired o w).1 ≡ w
  unfolding read_last_fired
  read_last_fired-world none w = refl
  read_last_fired-world (some raw) w = read_seconds-world (parse_int raw) w

  -- When all calls are answered, GetLastFired after SetLastFired returns the time that was set,
  -- cut to the whole second.
  pub get-set_last_fired :
      (id : Text) (when : ℕ) (w : World r)
      → w.turns ≡ []
      → (get_last_fired id (set_last_fired id when w).1).0 ≡ ok (some (when / second * second))
  unfolding get_last_fired set_last_fired
  get-set_last_fired id when w calm =
      let key = schedule_last_fired_key ks id in
      let text = decimal (when / second) in
      let written = r.write w.clock key (set text) w.db in
      let there : r.get w.clock (r.at written key) ≡ some text =
        simp (r.at-write, eq_text_refl, r.get-set) in
      simp (
        call-calm (λ t db. (tt, r.write t key (set text) db)) w calm,
        call-calm (λ t db. (r.get t (r.at db key), db)) (record w { db = written; turns = [] })
            refl,
        there,
        parse_int-decimal,
      )
