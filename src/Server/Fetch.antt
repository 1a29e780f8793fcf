-- ===== src/Server/Fetch.antt =====
-- server.go: the rounds of fetchLoop, which choose the queues to look at and take tasks from them. A
-- read that blocks is one that is answered at once here, and a cancelled context is not modelled.
use chronos_go.Common.{
  ℕ, ◌+◌, ◌-◌, Text, eq_text, Bool, true, false, ltb, ◌==◌, if◌then◌else◌, Option, none, some, List,
  [], ◌∷◌, map,
}
use chronos_go.Keys.{Keys}
use chronos_go.Keys.Prefix.{is_nil}
use chronos_go.Redis.{Redis, contains_text}
use chronos_go.World.{M, Result, ok, err, pure, attempt, time_now, ◌>>=◌}
use chronos_go.Wrr.{WrrPicker, QueueMap, weight_of, normalize_weight, text_le, pick}
use chronos_go.Rdb.Enqueue.{second}
use chronos_go.Rdb.Finish.{requeue}
use chronos_go.Rdb.Consume.{Dequeued, dequeue_batch}
use chronos_go.Rdb.Operator.{paused_queues}

-- queueNames
unfoldable pub queue_names : QueueMap → List Text
queue_names queues = map (λ e. e.0) queues

-- Whether p stands before q, or may: by weight descending, then by name ascending.
unfoldable pub ranks_before : (Text → ℕ) → Text → Text → Bool
ranks_before weight p q = if weight p == weight q then text_le p q else ltb (weight q) (weight p)

unfoldable pub insert_ranked : (Text → ℕ) → Text → List Text → List Text
insert_ranked weight q [] = q ∷ []
insert_ranked weight q (p ∷ ps) =
    let rest = insert_ranked weight q ps in if ranks_before weight q p then q ∷ p ∷ ps else p ∷ rest

-- sort.Slice by that order
unfoldable pub sort_ranked : (Text → ℕ) → List Text → List Text
unfolding insert_ranked
sort_ranked weight [] = []
sort_ranked weight (q ∷ qs) = insert_ranked weight q (sort_ranked weight qs)

-- The normalised weight of a configured queue.
abbrev pub weight_in : QueueMap → Text → ℕ
weight_in queues q = normalize_weight (weight_of q queues)

-- queuesByWeight
unfoldable pub queues_by_weight : QueueMap → List Text
unfolding sort_ranked queue_names
queues_by_weight queues = sort_ranked (weight_in queues) (queue_names queues)

-- The names other than one.
unfoldable pub others : Text → List Text → List Text
others q [] = []
others q (p ∷ ps) = let rest = others q ps in if eq_text p q then rest else p ∷ rest

-- The names that are not among those paused.
unfoldable pub unpaused : List Text → List Text → List Text
unfolding contains_text
unpaused paused [] = []
unpaused paused (q ∷ qs) =
    let rest = unpaused paused qs in if contains_text q paused then rest else q ∷ rest

-- The order of a round, and the picker after it.
unfoldable pub round_order : Bool → List Text → WrrPicker → List Text × WrrPicker
unfolding others
round_order true by_weight picker = (by_weight, picker)
round_order false by_weight picker =
    let (primary, picker') = pick picker in (primary ∷ others primary by_weight, picker')

abbrev pub max_fetch_batch : ℕ
max_fetch_batch = 128

-- How many tasks a round asks for: the slots that are free, and the one that it holds.
unfoldable pub batch_size : ℕ → ℕ → ℕ
batch_size slots held =
    let batch = 1 + (slots - held) in if ltb max_fetch_batch batch then max_fetch_batch else batch

abbrev pub pause_check_interval : ℕ
pause_check_interval = second

-- What fetchLoop keeps between its rounds.
pub record FetchState : Type 0 where
  pub picker : WrrPicker
  pub paused : List Text
  pub paused_checked : Option ℕ

-- time.Since(pausedChecked) < pauseCheckInterval
unfoldable pub checked_lately : ℕ → Option ℕ → Bool
checked_lately now none = false
checked_lately now (some t) = ltb now (t + pause_check_interval)

module _ (r : Redis) (ks : Keys) where
  unfoldable pub keep_known : FetchState → Result (List Text) → M r FetchState
  keep_known s (ok names) = pure (record s { paused = names })
  keep_known s (err e) = pure s

  -- refreshPaused
  unfoldable pub refresh_paused : FetchState → M r FetchState
  unfolding checked_lately keep_known paused_queues
  refresh_paused s = do
    now ← time_now
    if checked_lately now s.paused_checked
        then pure s
        else attempt (paused_queues r ks) (keep_known (record s { paused_checked = some now }))

  -- What the sweep does with a queue's reply: an error or no task sends it on.
  unfoldable pub swept : M r (List Dequeued) → Result (List Dequeued) → M r (List Dequeued)
  swept on (ok tasks) = pure tasks
  swept on (err e) = on

  -- The sweep of a round over its queues: the tasks of the first that has any.
  unfoldable pub sweep : List Text → ℕ → M r (List Dequeued)
  unfolding swept dequeue_batch
  sweep [] batch = pure []
  sweep (q ∷ qs) batch = let on = sweep qs batch in attempt (dequeue_batch r ks q batch) (swept on)

  -- The blocking read of the round's first queue, when the sweep found nothing. A queue without a name
  -- ends the loop.
  unfoldable pub fall_back : List Text → ℕ → List Dequeued → M r (List Dequeued)
  unfolding swept dequeue_batch is_nil
  fall_back order batch (t ∷ ts) = pure (t ∷ ts)
  fall_back [] batch [] = pure []
  fall_back (q ∷ qs) batch [] =
      if is_nil q then pure [] else attempt (dequeue_batch r ks q batch) (swept (pure []))

  -- One round: the tasks that it hands to workers, and what it keeps for the next.
  unfoldable pub fetch_round :
      Bool → List Text → ℕ → ℕ → FetchState → M r (List Dequeued × FetchState)
  unfolding round_order refresh_paused unpaused sweep fall_back batch_size
  fetch_round strict by_weight slots held s = do
    let chosen : List Text × WrrPicker = round_order strict by_weight s.picker
    s' ← refresh_paused (record s { picker = chosen.1 })
    let order : List Text = unpaused s'.paused chosen.0
    found ← sweep order (batch_size slots held)
    tasks ← fall_back order (batch_size slots held) found
    pure (tasks, s')

  -- The rest of a batch goes back to the stream on shutdown, whatever becomes of each.
  unfoldable pub requeue_rest : List Dequeued → M r Unit
  unfolding requeue
  requeue_rest [] = pure tt
  requeue_rest (t ∷ ts) =
      attempt (requeue r ks t.msg.queue t.stream_id t.msg) (λ _. requeue_rest ts)
