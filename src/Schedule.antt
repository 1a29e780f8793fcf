-- ===== src/Schedule.antt =====
-- schedule.go: which triggers of a schedule to enqueue. Times are natural numbers; the cron package's
-- `Next` is a parameter.
pub mod CatchUp
use chronos_go.Common.{
  ℕ, zero, suc, ◌+◌, ◌≤◌, ◌<◌, ◌≡◌, ltb, if◌then◌else◌, List, [], ◌∷◌, ◌++◌, refl, ap, ◌∙◌, arith,
}

pub data MisfirePolicy : Type 0 where
  skip fire_once : MisfirePolicy

-- maxScan
abbrev pub max_scan : ℕ
max_scan = 100000

-- Each entry is greater than the one before it, and the first than t.
abbrev pub Ascending : ℕ → List ℕ → Type 0
Ascending t [] = Unit {0}
Ascending t (x ∷ xs) = (t < x) × Ascending x xs

module _ (next : ℕ → ℕ) where
  -- The loop: the latest trigger up to now, as far as the rounds go.
  unfoldable pub scan_latest : ℕ → ℕ → ℕ → ℕ
  scan_latest zero now latest = latest
  scan_latest (suc rounds) now latest =
      let rest = scan_latest rounds now (next latest) in
      if ltb now (next latest) then latest else rest

  -- The switch at the end, by the policy.
  unfoldable pub choose : MisfirePolicy → ℕ → ℕ → List ℕ × ℕ
  choose policy first latest =
      if ltb first latest
      then elim policy [ fire_once ↦ (latest ∷ [], latest) | skip ↦ ([], latest) ]
      else (first ∷ [], first)

  -- computeFires, with the bound of the scan as an argument.
  unfoldable pub compute_fires_within : ℕ → ℕ → ℕ → MisfirePolicy → List ℕ × ℕ
  compute_fires_within rounds last_fired now policy =
      if ltb now (next last_fired)
      then ([], last_fired)
      else choose policy (next last_fired) (scan_latest rounds now (next last_fired))

  unfoldable pub compute_fires : ℕ → ℕ → MisfirePolicy → List ℕ × ℕ
  compute_fires = compute_fires_within max_scan

  -- The triggers enqueued over a series of ticks, each from the last-fired time that the one before
  -- it left.
  unfoldable pub fired_over : ℕ → MisfirePolicy → ℕ → List ℕ → List ℕ
  fired_over rounds policy last_fired [] = []
  fired_over rounds policy last_fired (now ∷ nows) =
      let (fires, new_last) = compute_fires_within rounds last_fired now policy in
      fires ++ fired_over rounds policy new_last nows

  -- n triggers after a time.
  unfoldable pub nth_trigger : ℕ → ℕ → ℕ
  nth_trigger zero t = t
  nth_trigger (suc n) t = nth_trigger n (next t)

  -- `Next` returns an activation time after the one given.
  module _ (after : (t : ℕ) → t < next t) where
    scan_latest_bounds :
        (rounds now latest : ℕ)
        → latest ≤ now
        → (latest ≤ scan_latest rounds now latest) × (scan_latest rounds now latest ≤ now)
    unfolding scan_latest
    scan_latest_bounds zero now latest h = (omega arith, omega arith)
    scan_latest_bounds (suc rounds) now latest h =
        ground (arith, after latest, scan_latest_bounds rounds now (next latest))

    -- With rounds to spare the scan stops at the last trigger that is not in the future.
    scan_latest_last :
        (rounds now latest : ℕ)
        → latest ≤ now
        → now < latest + rounds
        → now < next (scan_latest rounds now latest)
    unfolding scan_latest
    scan_latest_last zero now latest h gap = absurd (omega arith)
    scan_latest_last (suc rounds) now latest h gap =
        ground (arith, after latest, scan_latest_last rounds now (next latest))

    nth_trigger-ge : (n t : ℕ) → t ≤ nth_trigger n t
    unfolding nth_trigger
    nth_trigger-ge zero t = omega arith
    nth_trigger-ge (suc n) t = omega (arith, after t, nth_trigger-ge n (next t))

    scan_latest-eq_nth :
        (n rounds now latest : ℕ)
        → n ≤ rounds
        → nth_trigger n latest ≤ now
        → now < next (nth_trigger n latest)
        → scan_latest rounds now latest ≡ nth_trigger n latest
    unfolding scan_latest nth_trigger
    scan_latest-eq_nth zero zero now latest few past last = refl
    scan_latest-eq_nth zero (suc rounds) now latest few past last = ground arith
    scan_latest-eq_nth (suc n) zero now latest few past last = absurd (omega arith)
    scan_latest-eq_nth (suc n) (suc rounds) now latest few past last = ground (
      arith,
      nth_trigger-ge n (next latest),
      scan_latest-eq_nth n rounds now (next latest) (omega arith) past last,
    )

    -- What the policy says of the latest of n + 1 triggers that have elapsed.
    abbrev pub verdict : ℕ → MisfirePolicy → ℕ → List ℕ × ℕ
    verdict zero policy latest = (latest ∷ [], latest)
    verdict (suc n) skip latest = ([], latest)
    verdict (suc n) fire_once latest = (latest ∷ [], latest)

    choose-verdict :
        (n first : ℕ) (policy : MisfirePolicy)
        → choose policy first (nth_trigger n first) ≡ verdict n policy (nth_trigger n first)
    unfolding choose nth_trigger
    choose-verdict zero first policy = ground arith
    choose-verdict (suc n) first skip = ground (arith, after first, nth_trigger-ge n (next first))
    choose-verdict (suc n) first fire_once =
        ground (arith, after first, nth_trigger-ge n (next first))

    module _ (rounds last_fired now : ℕ) (policy : MisfirePolicy) where
      abbrev outcome : List ℕ × ℕ
      outcome = compute_fires_within rounds last_fired now policy

      -- At most one trigger is fired; it lies after the last one and not in the future, and it is the
      -- new last-fired time, so it is never fired again.
      abbrev pub FiresOnce : List ℕ → ℕ → Type 0
      FiresOnce [] new_last = Unit {0}
      FiresOnce (t ∷ []) new_last = (last_fired < t) × (t ≤ now) × (t ≡ new_last)
      FiresOnce _ new_last = ⊥

      -- For a `Next` that returns a later time, a tick fires at most one trigger, which is after
      -- the last-fired time, not after now, and the new last-fired time.
      pub compute_fires-FiresOnce :
          FiresOnce
            (compute_fires_within rounds last_fired now policy).0
            (compute_fires_within rounds last_fired now policy).1
      unfolding compute_fires_within choose
      compute_fires-FiresOnce =
          ground (arith, after last_fired, scan_latest_bounds rounds now (next last_fired))

      -- What is due: the first trigger is not in the future.
      abbrev pub IsDue : Type 0
      IsDue = next last_fired ≤ now

      -- For a `Next` that returns a later time: if a trigger is due, and now is less than the
      -- scan bound after it, the new last-fired time is later than the old one and not after now,
      -- and the trigger that follows it is after now.
      pub compute_fires-catches_up :
          IsDue
          → now < next last_fired + rounds
          → (last_fired < outcome.1) × (outcome.1 ≤ now) × (now < next outcome.1)
      unfolding compute_fires_within choose
      compute_fires-catches_up due spare = (
        ground (arith, after last_fired, scan_latest_bounds rounds now (next last_fired)),
        ground (arith, after last_fired, scan_latest_bounds rounds now (next last_fired)),
        ground (
          arith,
          scan_latest_bounds rounds now (next last_fired),
          scan_latest_last rounds now (next last_fired),
        ),
      )

      compute_fires_due :
          IsDue
          → outcome ≡ choose policy (next last_fired) (scan_latest rounds now (next last_fired))
      unfolding compute_fires_within
      compute_fires_due due = ground arith

      -- For a `Next` that returns a later time: if exactly n + 1 triggers have elapsed and n is
      -- within the scan bound, computeFires fires the one trigger if n is zero, and of more fires
      -- none under skip and the latest under FireOnce; the new last-fired time is the latest
      -- trigger.
      pub compute_fires_exact :
          (n : ℕ)
          → n ≤ rounds
          → nth_trigger n (next last_fired) ≤ now
          → now < next (nth_trigger n (next last_fired))
          → compute_fires_within rounds last_fired now policy
            ≡ verdict n policy (nth_trigger n (next last_fired))
      compute_fires_exact n few past last =
          compute_fires_due (omega (arith, nth_trigger-ge n (next last_fired)))
          ∙ ap (choose policy (next last_fired))
              (scan_latest-eq_nth n rounds now (next last_fired) few past last)
          ∙ choose-verdict n (next last_fired) policy

      last_fired-le : last_fired ≤ outcome.1
      unfolding compute_fires_within choose
      last_fired-le =
          ground (arith, after last_fired, scan_latest_bounds rounds now (next last_fired))

      Ascending-append :
          (fires : List ℕ) (new_last : ℕ) (later : List ℕ)
          → FiresOnce fires new_last
          → last_fired ≤ new_last
          → Ascending new_last later
          → Ascending last_fired (fires ++ later)
      Ascending-append [] new_last [] once le asc = tt
      Ascending-append [] new_last (t ∷ ts) once le asc = (omega (arith, asc.0), asc.1)
      Ascending-append (t ∷ []) new_last later once le asc = (once.0, rw once.2 asc)
      Ascending-append (t ∷ u ∷ ts) new_last later once le asc = absurd once

    -- For a `Next` that returns a later time, over any sequence of ticks, each from the last-
    -- fired time that the one before it left, the fired triggers strictly ascend from the first
    -- last-fired time, so none is fired twice.
    pub fired_over-Ascending :
        (rounds : ℕ) (policy : MisfirePolicy) (last_fired : ℕ) (nows : List ℕ)
        → Ascending last_fired (fired_over rounds policy last_fired nows)
    unfolding fired_over
    fired_over-Ascending rounds policy last_fired [] = tt
    fired_over-Ascending rounds policy last_fired (now ∷ nows) =
        Ascending-append rounds last_fired now policy _
          (compute_fires_within rounds last_fired now policy).1 _
          (compute_fires-FiresOnce rounds last_fired now policy)
          (last_fired-le rounds last_fired now policy)
          (fired_over-Ascending rounds policy (compute_fires_within rounds last_fired now policy).1
            nows)
