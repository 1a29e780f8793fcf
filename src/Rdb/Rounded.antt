-- ===== src/Rdb/Rounded.antt =====
-- schedule.go: how far the score of a time, a float64, is from the time.
use chronos_go.Common.{
  ℕ, zero, suc, ◌+◌, ◌*◌, ◌/◌, ◌%◌, ◌^◌, ◌≤◌, ◌<◌, ◌≡◌, refl, sym, ap, ◌∙◌, subst, ltb, Bool-cases,
  Bool, inl, inr, if◌then◌else◌, arith, dec_lt, true, false,
}
use native.Mathlib.Nat.{
  two-pow-succ, mul_assoc, mul_comm, mul_left_comm, mul-one, mul-le-mul_right, mul-pos,
  le_of_mul-le-mul_right, le-div_iff_mul-le, div-lt_iff_lt-mul, div-add-mod,
}
use chronos_go.Rdb.Score.{
  second, score_second, spacing, round_half_even, round_float, schedule_score,
}

spacing-pos : (fuel x : ℕ) → 0 < spacing fuel x
unfolding spacing
spacing-pos zero x = omega arith
spacing-pos (suc fuel) x = elim (Bool-cases (ltb x (2 ^ 53))) [
  | inl small ↦ simp small (omega arith)
  | inr large ↦ simp large (omega (arith, spacing-pos fuel (x / 2)))
]

-- Below 2 ^ (53 + k) the spacing divides 2 ^ k.
spacing-divides : (fuel k x : ℕ) → x < 2 ^ 53 * 2 ^ k → (q : ℕ) × (2 ^ k ≡ q * spacing fuel x)
unfolding spacing
spacing-divides zero k x h = (2 ^ k, sym (mul-one (2 ^ k)))
spacing-divides (suc fuel) zero x h = (1, within (ltb x (2 ^ 53)) (ground arith))
  where
    within : (b : Bool) → b ≡ true → 1 ≡ 1 * (if b then 1 else 2 * spacing fuel (x / 2))
    within true h = refl
    within false h = cc
spacing-divides (suc fuel) (suc k) x h = elim (Bool-cases (ltb x (2 ^ 53))) [
  | inl small ↦ (2 ^ suc k, simp small (sym (mul-one (2 ^ suc k))))
  | inr large ↦
      let (q, divides) = spacing-divides fuel k (x / 2) (omega (arith, two-pow-succ k)) in
      (
        q,
        simp large
            (two-pow-succ k ∙ omega (arith, divides, mul_left_comm q 2 (spacing fuel (x / 2)))),
      )
]

-- What lies between whole multiples of a divisor is rounded to what lies between them.
round_half_even-ge : (num den a : ℕ) → 0 < den → a * den ≤ num → a ≤ round_half_even num den
unfolding round_half_even
round_half_even-ge num den a some h =
    let low : a ≤ num / den = (le-div_iff_mul-le some).1 h in ground arith

abbrev nearest : ℕ → ℕ → ℕ → ℕ
nearest low rest den =
    if ltb (2 * rest) den then low else if ltb den (2 * rest) then low + 1 else low + low % 2

nearest-le :
    (low rest den b : ℕ) → 0 < den → den * low + rest ≤ den * b → low ≤ b → nearest low rest den ≤ b
nearest-le low rest den b some h below = elim (dec_lt low b) [
  | yes less ↦ ground arith
  | no least ↦
      let same : low ≡ b = omega arith in
      let none_left : rest ≡ 0 = omega (arith, ap (λ x. den * x) same) in
      simp none_left (ground arith)
]

round_half_even-le : (num den b : ℕ) → 0 < den → num ≤ b * den → round_half_even num den ≤ b
unfolding round_half_even
round_half_even-le num den b some h =
    let split = div-add-mod num den in
    let bound : den * (num / den) + num % den ≤ den * b = omega (arith, split, mul_comm b den) in
    nearest-le (num / den) (num % den) den b some bound (
      le_of_mul-le-mul_right {k = den}
        (omega (arith, bound, mul_comm den (num / den), mul_comm den b)) some)

-- So does the rounding to a float64, between whole multiples of 2 ^ 82 units.
module _ (num den : ℕ) (some : 0 < den) (in_range : num < 2 ^ 53 * 2 ^ 82 * den) where
  abbrev step : ℕ
  step = spacing 128 (num / den)

  divided : (q : ℕ) × (2 ^ 82 ≡ q * step)
  divided = spacing-divides 128 82 (num / den) ((div-lt_iff_lt-mul some).1 in_range)

  some_step : 0 < den * step
  some_step = mul-pos some (spacing-pos 128 (num / den))

  -- Multiples of 2 ^ 82 as multiples of the step.
  in_steps : (a : ℕ) → a * score_second ≡ a * divided.0 * step
  in_steps a = ap (λ x. a * x) divided.1 ∙ sym (mul_assoc a divided.0 step)

  over_den : (a : ℕ) → a * score_second * den ≡ a * divided.0 * (den * step)
  over_den a =
      ap (λ x. x * den) (in_steps a)
      ∙ mul_assoc (a * divided.0) step den
      ∙ ap (λ x. a * divided.0 * x) (mul_comm step den)

  round_float-ge : (a : ℕ) → a * score_second * den ≤ num → a * score_second ≤ round_float num den
  unfolding round_float
  round_float-ge a h =
      subst (λ x. x ≤ round_half_even num (den * step) * step) (sym (in_steps a))
        (mul-le-mul_right step (
          round_half_even-ge num (den * step) (a * divided.0) some_step
            (subst (λ x. x ≤ num) (over_den a) h)))

  round_float-le : (b : ℕ) → num ≤ b * score_second * den → round_float num den ≤ b * score_second
  unfolding round_float
  round_float-le b h =
      subst (λ x. round_half_even num (den * step) * step ≤ x) (sym (in_steps b))
        (mul-le-mul_right step (
          round_half_even-le num (den * step) (b * divided.0) some_step
            (subst (λ x. num ≤ x) (over_den b) h)))

-- The score of a time below 2 ^ 53 seconds is in the time's second or in the one after it.
pub schedule_score-second :
    (t : ℕ)
    → t / second + 1 < 2 ^ 53
    → (t / second ≤ schedule_score t / score_second)
      × (schedule_score t / score_second ≤ t / second + 1)
unfolding schedule_score
schedule_score-second t early =
    let whole = round_float (t / second * score_second) 1 in
    let fraction = round_float (t % second * score_second) second in
    let whole_range : t / second * score_second < 2 ^ 53 * 2 ^ 82 * 1 = omega arith in
    let whole_ge =
      round_float-ge (t / second * score_second) 1 (omega arith) whole_range (t / second)
        (omega arith) in
    let whole_le =
      round_float-le (t / second * score_second) 1 (omega arith) whole_range (t / second)
        (omega arith) in
    let fraction_le =
      round_float-le (t % second * score_second) second (omega arith) (omega arith) 1
        (omega arith) in
    let sum_range : whole + fraction < 2 ^ 53 * 2 ^ 82 * 1 = omega arith in
    let sum_ge =
      round_float-ge (whole + fraction) 1 (omega arith) sum_range (t / second) (omega arith) in
    let sum_le =
      round_float-le (whole + fraction) 1 (omega arith) sum_range (t / second + 1) (omega arith) in
    ((le-div_iff_mul-le {k = score_second} (omega arith)).1 sum_ge, omega arith)
