-- ===== src/Examples/Triggers.antt =====
-- The triggers of a schedule that fires every ten units of time.
use chronos_go.Common.{ℕ, ◌+◌, ◌*◌, ◌/◌, ◌<◌, ◌≡◌, [], ◌∷◌, arith}
use chronos_go.Schedule
use chronos_go.Schedule.CatchUp

-- The next multiple of ten.
abbrev every_ten : ℕ → ℕ
every_ten t = (t / 10 + 1) * 10

every_ten_after : (t : ℕ) → t < every_ten t
every_ten_after t = omega arith

ticks_catch_up_example :
    100 < every_ten (Schedule.CatchUp.ticks every_ten every_ten_after 3 100 Schedule.fire_once 30 7)
ticks_catch_up_example =
    Schedule.CatchUp.ticks_catch_up every_ten every_ten_after 3 100 Schedule.fire_once 30 7
      (omega arith)

compute_fires_exact_example :
    Schedule.compute_fires_within every_ten 100 7 35 Schedule.fire_once
    ≡ Schedule.verdict every_ten every_ten_after 2 Schedule.fire_once
        (Schedule.nth_trigger every_ten 2 10)
unfolding Schedule.nth_trigger
compute_fires_exact_example =
    Schedule.compute_fires_exact every_ten every_ten_after 100 7 35 Schedule.fire_once 2
      (omega arith) (omega arith) (omega arith)

fired_over-Ascending_example :
    Schedule.Ascending 7
      (Schedule.fired_over every_ten 100 Schedule.fire_once 7 (12 ∷ 13 ∷ 55 ∷ []))
fired_over-Ascending_example =
    Schedule.fired_over-Ascending every_ten every_ten_after 100 Schedule.fire_once 7
      (12 ∷ 13 ∷ 55 ∷ [])
