-- ===== src/Wrr/Bounds.antt =====
-- How far the running counters of `wrrPicker` (wrr.go) go, and how evenly they spread the picks.
use native.Mathlib.Nat.{add-zero, mul-le-mul}
use chronos_go.Common.{
  ℕ, ◌+◌, ◌*◌, ◌^◌, ◌-◌, ◌≤◌, ◌<◌, ◌≡◌, ap, ◌∙◌, ℤ, pos_part, neg_part, Text, eq_text, eq_text→eq,
  true, Bool-cases, inl, inr, List, [], ◌∷◌, map, length, length-map, arith,
}
use chronos_go.Wrr.{
  WrrPicker, QueueMap, weight_of, normalize_weight, max_weight, sum, new_wrr_picker, picks,
}
use chronos_go.Wrr.Counters.{pos_sum, neg_sum, Tallied}
use chronos_go.Wrr.Cycle.{Distinct, tally, times, IsRunning, IsRunning-picks, names-picks}
use chronos_go.Wrr.Counts.{
  contains, count_at, count_at-tally, count_at-replicate, contains-sort_strings,
  length-sort_strings,
}
use chronos_go.Wrr.Fairness.{keys, no_picks, fresh, fresh-IsRunning}

-- Every counter lies strictly above the low bound and at most at the high one.
abbrev pub AllBetween : ℕ → ℕ → List ℤ → Type 0
AllBetween low high [] = Unit {0}
AllBetween low high (c ∷ cs) = (neg_part c < low) × (pos_part c ≤ high) × AllBetween low high cs

AllBetween-mono :
    {low low' high high' : ℕ} (cs : List ℤ)
    → low ≤ low'
    → high ≤ high'
    → AllBetween low high cs
    → AllBetween low' high' cs
AllBetween-mono [] p q h = tt
AllBetween-mono (c ∷ cs) p q h =
    (omega (arith, h.0), omega (arith, h.1), AllBetween-mono cs p q h.2)

AllBetween-of_Tallied :
    (k t high : ℕ) (cs : List ℤ) (ws ns : List ℕ)
    → Tallied k t cs ws ns
    → pos_sum cs ≤ high
    → AllBetween t high cs
unfolding pos_sum
AllBetween-of_Tallied k t high [] [] [] h le = tt
AllBetween-of_Tallied k t high (c ∷ cs) (w ∷ ws) (n ∷ ns) h le =
    (h.1, omega arith, AllBetween-of_Tallied k t high cs ws ns h.2 (omega arith))
AllBetween-of_Tallied k t high _ _ _ h le = absurd h

neg_sum-le :
    (k t : ℕ) (cs : List ℤ) (ws ns : List ℕ) → Tallied k t cs ws ns → neg_sum cs ≤ length cs * t
unfolding neg_sum
neg_sum-le k t [] [] [] h = omega arith
neg_sum-le k t (c ∷ cs) (w ∷ ws) (n ∷ ns) h = omega (arith, h.1, neg_sum-le k t cs ws ns h.2)
neg_sum-le k t _ _ _ h = absurd h

-- A queue's picks against its share of k rounds.
ahead_of_share :
    (k t : ℕ) (f : Text → ℕ) (cs : List ℤ) (names : List Text) (ns : List ℕ) (q : Text)
    → Tallied k t cs (map f names) ns
    → contains q names ≡ true
    → t * count_at names ns q < k * f q + t
unfolding contains count_at
ahead_of_share k t f cs [] ns q h known = cc
ahead_of_share k t f [] (m ∷ ms) ns q h known = absurd h
ahead_of_share k t f (c ∷ cs) (m ∷ ms) [] q h known = absurd h
ahead_of_share k t f (c ∷ cs) (m ∷ ms) (n ∷ ns) q h known = elim (Bool-cases (eq_text m q)) [
  | inl hit ↦ rw (hit, ← eq_text→eq m q hit) (omega (arith, h.0, h.1))
  | inr miss ↦ rw miss (ahead_of_share k t f cs ms ns q h.2 (rw miss at known))
]

normalize_weight-le : (w : ℤ) → normalize_weight w ≤ max_weight
unfolding normalize_weight
normalize_weight-le w = ground arith

sum-le-length :
    (names : List Text) (queues : QueueMap)
    → sum (map (λ q. normalize_weight (weight_of q queues)) names) ≤ length names * max_weight
unfolding sum
sum-le-length [] queues = omega arith
sum-le-length (q ∷ names) queues =
    omega (arith, normalize_weight-le (weight_of q queues), sum-le-length names queues)

module _ (queues : QueueMap) (some_queue : 0 < length queues)
    (distinct : Distinct (keys queues)) where
  abbrev start : WrrPicker
  start = fresh queues some_queue distinct

  total_bound : start.total ≤ length queues * max_weight
  unfolding new_wrr_picker
  total_bound = omega (
    arith,
    sum-le-length start.names queues,
    ap (λ n. n * max_weight) (length-sort_strings (keys queues)),
    ap (λ n. n * max_weight) (length-map queues (λ e. e.0)),
  )

  length-start : length start.names ≡ length queues
  unfolding new_wrr_picker
  length-start = length-sort_strings (keys queues) ∙ length-map queues (λ e. e.0)

  module _ (k : ℕ) where
    abbrev later : WrrPicker
    later = (picks k start).1

    abbrev counts : List ℕ
    counts = tally start.names (no_picks start.names) (picks k start).0

    abbrev running : IsRunning 0 start (no_picks start.names)
    running = fresh-IsRunning queues some_queue distinct

    abbrev kept :
        (later.names ≡ start.names) × (later.weights ≡ start.weights) × (later.total ≡ start.total)
    kept = names-picks k 0 start _ running

    later-IsRunning : IsRunning k later counts
    later-IsRunning = rw add-zero at (IsRunning-picks k 0 start _ running)

    later-Tallied : Tallied k start.total later.current start.weights counts
    later-Tallied = rw (kept.1, kept.2) at later-IsRunning.tallied

    later_length : length later.current ≡ length queues
    later_length = later-IsRunning.current_length ∙ ap length kept.0 ∙ length-start

    later_sum : pos_sum later.current ≤ length queues * start.total
    later_sum = omega (
      arith,
      later-IsRunning.balanced,
      neg_sum-le k start.total later.current start.weights counts later-Tallied,
      ap (λ n. n * start.total) later_length,
    )

    -- After any number of picks of a new picker every counter is above minus the total, and at
    -- most the total times the number of queues.
    pub counters_bounded :
        AllBetween start.total (length queues * start.total) (picks k start).1.current
    counters_bounded =
        AllBetween-of_Tallied k start.total _ later.current start.weights counts later-Tallied
          later_sum

    -- After k picks of a new picker, `total` times the picks of a queue of the map is less than k
    -- times its weight plus `total`: no queue is a full pick ahead of its share.
    pub times_below_share :
        (q : Text)
        → contains q (keys queues) ≡ true
        → start.total * times q (picks k start).0
          < k * normalize_weight (weight_of q queues) + start.total
    unfolding new_wrr_picker
    times_below_share q known =
        let here : contains q start.names ≡ true = rw contains-sort_strings known in
        let counted : times q (picks k start).0 ≡ count_at start.names counts q = omega (
          arith,
          count_at-tally start.names (no_picks start.names) (picks k start).0 q
              running.counts_length here,
          count_at-replicate start.names q,
        ) in
        rw counted (
          ahead_of_share k start.total (λ x. normalize_weight (weight_of x queues)) later.current
            start.names counts q later-Tallied here)

    product_bound : length queues ≤ 2 ^ 21 → length queues * start.total ≤ 2 ^ 62
    product_bound few =
        let total_le : start.total ≤ 2 ^ 41 = omega (arith, total_bound) in
        mul-le-mul {n₁ = length queues} {n₂ = 2 ^ 21} few total_le

    -- With at most 2 ^ 21 queues, after any number of picks every counter lies between -2 ^ 63
    -- and 2 ^ 63 - 1 less the highest weight, so that the next pick does not overflow an int64.
    pub counters_fit_int64 :
        length queues ≤ 2 ^ 21
        → AllBetween (2 ^ 63) (2 ^ 63 - 1 - max_weight) (picks k start).1.current
    counters_fit_int64 few =
        AllBetween-mono later.current (omega (arith, total_bound))
          (omega (arith, product_bound few)) counters_bounded
