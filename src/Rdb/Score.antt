-- ===== src/Rdb/Score.antt =====
-- The score that a sorted set holds for a time: seconds, as the float64 of scheduleScore (schedule.go),
-- or whole, as Unix() gives them. A score is counted in units of 2 ^ -82 seconds, the spacing of the
-- float64 numbers about a nanosecond, so that the scores of all times are whole numbers of units.
use chronos_go.Common.{ℕ, zero, suc, ◌+◌, ◌*◌, ◌/◌, ◌%◌, ◌^◌, ltb, if◌then◌else◌}

abbrev pub second : ℕ
second = 1000000000

abbrev pub score_second : ℕ
score_second = 2 ^ 82

-- t.Unix() as a score
abbrev pub unix_score : ℕ → ℕ
unix_score t = t / second * score_second

-- The spacing of the float64 numbers, whose significands have 53 bits, at a number of units.
unfoldable pub spacing : ℕ → ℕ → ℕ
spacing zero x = 1
spacing (suc fuel) x = let wider = spacing fuel (x / 2) in if ltb x (2 ^ 53) then 1 else 2 * wider

-- A quotient rounded to the nearest whole number, to the even one of two.
unfoldable pub round_half_even : ℕ → ℕ → ℕ
round_half_even num den =
    let low = num / den in
    if ltb (2 * (num % den)) den
    then low
    else if ltb den (2 * (num % den))
    then low + 1
    else low + low % 2

-- A quotient of units rounded to a float64. Enough fuel for all numbers below 2 ^ 181.
unfoldable pub round_float : ℕ → ℕ → ℕ
unfolding spacing round_half_even
round_float num den = let step = spacing 128 (num / den) in round_half_even num (den * step) * step

-- scheduleScore: float64(t.Unix()) + float64(t.Nanosecond())/1e9
unfoldable pub schedule_score : ℕ → ℕ
unfolding round_float
schedule_score t =
    let whole = round_float (t / second * score_second) 1 in
    let fraction = round_float (t % second * score_second) second in
    round_float (whole + fraction) 1
