-- ===== src/Client/Within.antt =====
-- group.go: the sum of a member's delays against GroupTTL, as a time.Duration and as it is meant.
use chronos_go.Common.{
  ℕ, ◌+◌, ◌*◌, ◌-◌, ◌^◌, ◌≤◌, ◌<◌, ◌≡◌, ap, sym, ◌∙◌, ◌⊎◌, int64, Option, none, some, List, [], ◌∷◌,
  false, arith,
}
use chronos_go.Task.{ChainLink}
use chronos_go.Rdb.Score.{second}
use chronos_go.Rdb.Group.{group_ttl}
use chronos_go.Client.Group.{first_wait, sum_delays, exceeds_ttl}

-- The delays of the links of a chain, as they are meant to be added up.
abbrev pub total_delay : List ChainLink → ℕ
total_delay [] = 0
total_delay (l ∷ ls) = l.delay * second + total_delay ls

-- A member's delays, from the time of its first link, end within the group's time to live.
abbrev pub EndsInTime : ℕ → Option ℕ → ℕ → Type 0
EndsInTime now none delays = delays ≤ group_ttl
EndsInTime now (some t) delays = t + delays ≤ now + group_ttl

-- A member's delays come to more than a time.Duration can hold.
abbrev pub PassesRange : ℕ → Option ℕ → ℕ → Type 0
PassesRange now none delays = 2 ^ 63 ≤ delays
PassesRange now (some t) delays = 2 ^ 63 ≤ (t - now) + delays

-- The loop adds up all delays, on 64 bits.
sum_delays-eq :
    (start : ℕ) (ls : List ChainLink)
    → start < 2 ^ 64
    → sum_delays start ls ≡ int64 (start + total_delay ls)
unfolding sum_delays
sum_delays-eq start [] h = omega arith
sum_delays-eq start (l ∷ ls) h =
    sum_delays-eq (int64 (start + int64 (l.delay * second))) ls (omega arith)
    ∙ wrapped_sum start (l.delay * second) (total_delay ls)
  where
    wrapped_sum : (a b c : ℕ) → int64 (int64 (a + int64 b) + c) ≡ int64 (a + (b + c))
    wrapped_sum a b c = omega arith

first_wait_lt : (now : ℕ) (t : Option ℕ) → first_wait now t < 2 ^ 64
unfolding first_wait
first_wait_lt now none = omega arith
first_wait_lt now (some t) = ground arith

within-EndsInTime :
    (now : ℕ) (t : Option ℕ) (delays : ℕ)
    → exceeds_ttl (int64 (first_wait now t + delays)) ≡ false
    → EndsInTime now t delays ⊎ PassesRange now t delays
unfolding exceeds_ttl first_wait
within-EndsInTime now none delays h = ground arith
within-EndsInTime now (some t) delays h = ground arith

pub exceeds_ttl-EndsInTime :
    (now : ℕ) (t : Option ℕ) (ls : List ChainLink)
    → exceeds_ttl (sum_delays (first_wait now t) ls) ≡ false
    → EndsInTime now t (total_delay ls) ⊎ PassesRange now t (total_delay ls)
exceeds_ttl-EndsInTime now t ls h =
    within-EndsInTime now t (total_delay ls)
      (ap exceeds_ttl (sym (sum_delays-eq (first_wait now t) ls (first_wait_lt now t))) ∙ h)
