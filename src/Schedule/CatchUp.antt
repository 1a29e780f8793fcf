-- ===== src/Schedule/CatchUp.antt =====
-- schedule.go: how many ticks it takes computeFires to catch up, where the scan bound cuts a tick short.
use chronos_go.Common.{
  ℕ, zero, suc, ◌+◌, ◌*◌, ◌≤◌, ◌<◌, ◌≡◌, ◌⊎◌, inl, inr, ltb, refl, ap, ◌∙◌, sym, subst, arith,
  Bool-cases,
}
use chronos_go.Schedule.{
  MisfirePolicy, skip, fire_once, scan_latest, choose, compute_fires_within, scan_latest_bounds,
}

module _ (next : ℕ → ℕ) (after : (t : ℕ) → t < next t) (rounds now : ℕ)
    (policy : MisfirePolicy) where
  -- The last-fired time after one tick, and after several, all at one time.
  abbrev pub tick : ℕ → ℕ
  tick last = (compute_fires_within next rounds last now policy).1

  unfoldable pub ticks : ℕ → ℕ → ℕ
  ticks zero last = last
  ticks (suc n) last = ticks n (tick last)

  -- A scan comes to the last trigger, or goes on for all its rounds.
  scan_latest_far :
      (left latest : ℕ)
      → latest ≤ now
      → (now < next (scan_latest next left now latest))
        ⊎ (latest + left ≤ scan_latest next left now latest)
  unfolding scan_latest
  scan_latest_far zero latest h = inr (omega arith)
  scan_latest_far (suc left) latest h = elim (Bool-cases (ltb now (next latest))) [
    | inl last ↦ rw last (inl (ground arith))
    | inr more ↦
        rw more (farther latest (after latest) (scan_latest_far left (next latest) (ground arith)))
  ]
    where
      farther :
          (from : ℕ)
          → from < next from
          → (now < next (scan_latest next left now (next from)))
            ⊎ (next from + left ≤ scan_latest next left now (next from))
          → (now < next (scan_latest next left now (next from)))
            ⊎ (from + suc left ≤ scan_latest next left now (next from))
      farther from later (inl there) = inl there
      farther from later (inr far) = inr (omega arith)

  choose_last :
      (p : MisfirePolicy) (first latest : ℕ)
      → first ≤ latest
      → (choose next p first latest).1 ≡ latest
  unfolding choose
  choose_last skip first latest h = ground arith
  choose_last fire_once first latest h = ground arith

  tick_idle : (last : ℕ) → now < next last → tick last ≡ last
  unfolding compute_fires_within
  tick_idle last h = ground arith

  tick_due : (last : ℕ) → next last ≤ now → tick last ≡ scan_latest next rounds now (next last)
  unfolding compute_fires_within
  tick_due last h =
      let scanned =
        choose_last policy (next last) (scan_latest next rounds now (next last))
          (scan_latest_bounds next after rounds now (next last) h).0 in
      ground (arith, scanned)

  ticks_idle : (n last : ℕ) → now < next last → ticks n last ≡ last
  unfolding ticks
  ticks_idle zero last h = refl
  ticks_idle (suc n) last h = ap (ticks n) (tick_idle last h) ∙ ticks_idle n last h

  -- For a `Next` that returns a later time: ticks at one time, each from the last-fired time that
  -- the one before it left, come to an end: if now is less than the first last-fired time plus n
  -- times one more than the scan bound, then after n ticks the next trigger is after now.
  pub ticks_catch_up : (n last : ℕ) → now < last + n * suc rounds → now < next (ticks n last)
  unfolding ticks
  ticks_catch_up zero last h = omega (arith, after last)
  ticks_catch_up (suc n) last h = elim (Bool-cases (ltb now (next last))) [
    | inl idle ↦
        let wait : now < next last = ground arith in
        subst (λ t. now < next t) (sym (ticks_idle (suc n) last wait)) wait
    | inr due ↦
        let past : next last ≤ now = ground arith in
        subst (λ t. now < next (ticks n t)) (sym (tick_due last past))
          (by_scan (scan_latest_far rounds (next last) past) (after last) (ticks_catch_up n))
  ]
    where
      by_scan :
          (now < next (scan_latest next rounds now (next last)))
            ⊎ (next last + rounds ≤ scan_latest next rounds now (next last))
          → last < next last
          → ((t : ℕ) → now < t + n * suc rounds → now < next (ticks n t))
          → now < next (ticks n (scan_latest next rounds now (next last)))
      by_scan (inl there) later ih = subst (λ t. now < next t) (sym (ticks_idle n _ there)) there
      by_scan (inr far) later ih = ih (scan_latest next rounds now (next last)) (grind arith)
