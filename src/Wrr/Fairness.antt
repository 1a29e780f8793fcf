-- ===== src/Wrr/Fairness.antt =====
-- A cycle of `wrrPicker` (wrr.go): `total` rounds, from any map of queues to weights.
use native.Mathlib.Nat.{add-zero, lt_of_mul-lt-mul_left, eq_of_mul-eq-mul_left}
use chronos_go.Common.{
  ℕ, zero, suc, ◌+◌, ◌*◌, ◌≤◌, ◌<◌, ◌≡◌, refl, ap, ◌∙◌, ℤ, pos, eq_of_parts, Text, true, List, [],
  ◌∷◌, map, length, length-map, replicate, length-replicate, arith,
}
use chronos_go.Wrr.{WrrPicker, QueueMap, weight_of, normalize_weight, sum, new_wrr_picker, picks}
use chronos_go.Wrr.Counters.{pos_sum, neg_sum, Tallied}
use chronos_go.Wrr.Cycle.{Distinct, tally, times, IsRunning, IsRunning-picks, names-picks}
use chronos_go.Wrr.Counts.{
  contains, count_at, count_at-tally, count_at-replicate, count_at-map, contains-sort_strings,
  Distinct-sort_strings, length-sort_strings,
}

-- What a counter says after exactly t rounds.
share_exact : (t n w a b : ℕ) → a + t * n ≡ t * w + b → b < t → n ≤ w
share_exact t n w a b e h =
    let below : t * n < t * suc w = omega arith in
    omega (arith, lt_of_mul-lt-mul_left t {m = n} {n = suc w} below)

-- The counters together: t times the picks made is the rounds times the sum of the weights.
Tallied-sum :
    (k t : ℕ) (cs : List ℤ) (ws ns : List ℕ)
    → Tallied k t cs ws ns
    → pos_sum cs + t * sum ns ≡ k * sum ws + neg_sum cs
unfolding pos_sum neg_sum sum
Tallied-sum k t [] [] [] h = omega arith
Tallied-sum k t (c ∷ cs) (w ∷ ws) (n ∷ ns) h = omega (arith, h.0, Tallied-sum k t cs ws ns h.2)
Tallied-sum k t _ _ _ h = absurd h

abbrev Pointwise : List ℕ → List ℕ → Type 0
Pointwise [] [] = Unit {0}
Pointwise (n ∷ ns) (w ∷ ws) = (n ≤ w) × Pointwise ns ws
Pointwise _ _ = ⊥

Pointwise-of_Tallied :
    (t : ℕ) (cs : List ℤ) (ws ns : List ℕ) → Tallied t t cs ws ns → Pointwise ns ws
Pointwise-of_Tallied t [] [] [] h = tt
Pointwise-of_Tallied t (c ∷ cs) (w ∷ ws) (n ∷ ns) h =
    (share_exact t n w _ _ h.0 h.1, Pointwise-of_Tallied t cs ws ns h.2)
Pointwise-of_Tallied t _ _ _ h = absurd h

sum-le : (ns ws : List ℕ) → Pointwise ns ws → sum ns ≤ sum ws
unfolding sum
sum-le [] [] h = omega arith
sum-le (n ∷ ns) (w ∷ ws) h = omega (arith, h.0, sum-le ns ws h.1)
sum-le _ _ h = absurd h

-- Counts that are nowhere above the weights and sum to as much are the weights.
eq_of_Pointwise : (ns ws : List ℕ) → Pointwise ns ws → sum ns ≡ sum ws → ns ≡ ws
unfolding sum
eq_of_Pointwise [] [] h e = refl
eq_of_Pointwise (n ∷ ns) (w ∷ ws) h e =
    let same : n ≡ w = omega (arith, h.0, sum-le ns ws h.1) in
    rw (same, eq_of_Pointwise ns ws h.1 (omega arith))
eq_of_Pointwise _ _ h e = absurd h

-- Counters at zero, for a picker that has played whole cycles.
current_zero :
    (t : ℕ) (cs : List ℤ) (ws : List ℕ) → Tallied t t cs ws ws → cs ≡ replicate (length cs) (pos 0)
current_zero t [] [] h = refl
current_zero t (c ∷ cs) (w ∷ ws) h =
    rw (eq_of_parts c (pos 0) (omega (arith, h.0)), ← current_zero t cs ws h.2) refl
current_zero t _ _ h = absurd h

-- The keys of a Go map are distinct.
abbrev pub keys : QueueMap → List Text
keys queues = map (λ e. e.0) queues

-- The counts of a list of names of which none was picked yet.
abbrev pub no_picks : List Text → List ℕ
no_picks names = replicate (length names) 0

pos_sum-replicate : (n : ℕ) → pos_sum (replicate n (pos 0)) ≡ 0
unfolding pos_sum
pos_sum-replicate zero = refl
pos_sum-replicate (suc n) = omega (arith, pos_sum-replicate n)

neg_sum-replicate : (n : ℕ) → neg_sum (replicate n (pos 0)) ≡ 0
unfolding neg_sum
neg_sum-replicate zero = refl
neg_sum-replicate (suc n) = omega (arith, neg_sum-replicate n)

Tallied-start :
    (t : ℕ) (names : List Text) (f : Text → ℕ)
    → 0 < t
    → Tallied 0 t (replicate (length names) (pos 0)) (map f names) (no_picks names)
Tallied-start t [] f h = tt
Tallied-start t (q ∷ names) f h = (omega arith, h, Tallied-start t names f h)

normalize_weight-pos : (w : ℤ) → 0 < normalize_weight w
unfolding normalize_weight
normalize_weight-pos w = ground arith

sum-pos :
    (names : List Text) (queues : QueueMap)
    → 0 < length names
    → 0 < sum (map (λ q. normalize_weight (weight_of q queues)) names)
unfolding sum
sum-pos [] queues h = elim h [ ]
sum-pos (q ∷ names) queues h = omega (arith, normalize_weight-pos (weight_of q queues))

module _ (queues : QueueMap) (some_queue : 0 < length queues)
    (distinct : Distinct (keys queues)) where
  abbrev pub fresh : WrrPicker
  fresh = new_wrr_picker queues

  fresh_nonempty : 0 < length fresh.names
  unfolding new_wrr_picker
  fresh_nonempty = rw (length-sort_strings (keys queues), length-map queues) some_queue

  pub fresh-IsRunning : IsRunning 0 fresh (no_picks fresh.names)
  unfolding new_wrr_picker
  fresh-IsRunning =
      let positive = sum-pos fresh.names queues fresh_nonempty in
      record {
        distinct = Distinct-sort_strings (keys queues) distinct;
        nonempty = fresh_nonempty;
        positive = positive;
        total_eq = refl;
        weights_length = length-map fresh.names _;
        current_length = length-replicate (length fresh.names) (pos 0);
        counts_length = length-replicate (length fresh.names) 0;
        balanced =
            rw (pos_sum-replicate (length fresh.names), neg_sum-replicate (length fresh.names));
        tallied = Tallied-start fresh.total fresh.names _ positive;
      }

  abbrev cycle : WrrPicker
  cycle = (picks fresh.total fresh).1

  abbrev counts : List ℕ
  counts = tally fresh.names (no_picks fresh.names) (picks fresh.total fresh).0

  abbrev kept :
      (cycle.names ≡ fresh.names) × (cycle.weights ≡ fresh.weights) × (cycle.total ≡ fresh.total)
  kept = names-picks fresh.total 0 fresh _ fresh-IsRunning

  cycle-IsRunning : IsRunning fresh.total cycle counts
  cycle-IsRunning = rw add-zero at (IsRunning-picks fresh.total 0 fresh _ fresh-IsRunning)

  cycle-Tallied : Tallied fresh.total fresh.total cycle.current fresh.weights counts
  cycle-Tallied = rw (kept.1, kept.2) at cycle-IsRunning.tallied

  -- Over one cycle the counts are the weights.
  counts-eq-weights : counts ≡ fresh.weights
  counts-eq-weights =
      eq_of_Pointwise counts fresh.weights
        (Pointwise-of_Tallied fresh.total cycle.current fresh.weights counts cycle-Tallied)
        (eq_of_mul-eq-mul_left fresh.total fresh-IsRunning.positive (sum counts) (sum fresh.weights)
          (omega (
            arith,
            Tallied-sum fresh.total fresh.total cycle.current fresh.weights counts cycle-Tallied,
            cycle-IsRunning.balanced,
          )))

  current-cycle : cycle.current ≡ fresh.current
  unfolding new_wrr_picker
  current-cycle =
      current_zero fresh.total cycle.current fresh.weights (rw counts-eq-weights at cycle-Tallied)
      ∙ ap (λ n. replicate n (pos 0)) (cycle-IsRunning.current_length ∙ ap length kept.0)

  -- After `total` picks the picker's whole state is the one that it was built with, for any map
  -- of at least one queue with distinct names.
  pub cycle-eq-fresh : (picks fresh.total fresh).1 ≡ fresh
  cycle-eq-fresh = λ i. record {
    names = kept.0 i;
    weights = kept.1 i;
    current = current-cycle i;
    total = kept.2 i;
  }

  -- For any map of at least one queue with distinct names, the first `total` picks of a new
  -- picker hold each queue of the map exactly as often as its normalised weight says.
  pub times-cycle :
      (q : Text)
      → contains q (keys queues) ≡ true
      → times q (picks fresh.total fresh).0 ≡ normalize_weight (weight_of q queues)
  unfolding new_wrr_picker
  times-cycle q known =
      let here : contains q fresh.names ≡ true = rw contains-sort_strings known in
      omega (
        arith,
        count_at-tally fresh.names (no_picks fresh.names) (picks fresh.total fresh).0 q
            (length-replicate (length fresh.names) 0) here,
        count_at-replicate fresh.names q,
        ap (λ (ns : List ℕ). count_at fresh.names ns q) counts-eq-weights,
        count_at-map fresh.names (λ x. normalize_weight (weight_of x queues)) q here,
      )
