-- ===== src/Examples/Queues.antt =====
-- The picker, and a ring of samples, at concrete inputs.
use chronos_go.Common.{
  ℕ, List, ◌+◌, ◌*◌, ◌-◌, ◌^◌, ◌≤◌, ◌<◌, ◌≡◌, refl, eq_text, codes, true, length, drop, [], ◌∷◌,
  arith,
}
use chronos_go.Wrr.{WrrPicker, new_wrr_picker, picks, max_weight, normalize_weight, weight_of}
use chronos_go.Wrr.Cycle.{Distinct, times}
use chronos_go.Wrr.Counts.{contains}
use chronos_go.Wrr.Fairness
use chronos_go.Wrr.Bounds
use chronos_go.Sparkline.{Ring, new_ring, push_all, values}
use chronos_go.Sparkline.Window.{values-push_all}
use chronos_go.Examples.Data.{two_queues}

some_queue : 0 < length two_queues
some_queue = omega arith

abbrev fresh : WrrPicker
fresh = new_wrr_picker two_queues

distinct : Distinct (Fairness.keys two_queues)
unfolding eq_text
distinct = ((refl, tt), (tt, tt))

known : contains (codes "high") (Fairness.keys two_queues) ≡ true
unfolding contains eq_text
known = refl

few : length two_queues ≤ 2 ^ 21
few = omega arith

times-cycle_example :
    times (codes "high") (picks fresh.total fresh).0
    ≡ normalize_weight (weight_of (codes "high") two_queues)
times-cycle_example = Fairness.times-cycle two_queues some_queue distinct (codes "high") known

cycle-eq-fresh_example : (picks fresh.total fresh).1 ≡ fresh
cycle-eq-fresh_example = Fairness.cycle-eq-fresh two_queues some_queue distinct

times_below_share_example :
    fresh.total * times (codes "high") (picks 7 fresh).0
    < 7 * normalize_weight (weight_of (codes "high") two_queues) + fresh.total
times_below_share_example =
    Bounds.times_below_share two_queues some_queue distinct 7 (codes "high") known

counters_fit_int64_example :
    Bounds.AllBetween (2 ^ 63) (2 ^ 63 - 1 - max_weight) (picks 7 fresh).1.current
counters_fit_int64_example = Bounds.counters_fit_int64 two_queues some_queue distinct 7 few

-- One sample more than the ring takes.
abbrev samples : List ℕ
samples = 1 ∷ 2 ∷ 3 ∷ 4 ∷ []

abbrev small_ring : Ring ℕ
small_ring = new_ring 0 3

values-push_all_example : values (push_all samples small_ring) ≡ drop (length samples - 3) samples
values-push_all_example = values-push_all 0 3 samples (omega arith)
