-- ===== src/Health/Verdict.antt =====
-- The verdict of the machine against one read off the history, and what a flip says.
use luci_app_gowan.Common.{
  ap, ◌∙◌, incr, suc, ℤ, pos, ◌≡◌, refl, ◌≤◌, ◌<◌, Bool, true, false, not, ◌&&◌, ◌||◌, List, [],
  ◌∷◌, length, arith, int_max, ◌≤ℤ◌, leb_ℤ, if◌then◌else◌,
}
use luci_app_gowan.Health.{HealthState, new_health_state, observe, after, at_least_one}
use mathlib.Core.Path.{subst₂}
use luci_app_gowan.Health.Streak.{
  incr-pos, streak, streak-le-length, counters-streak, thresholds-after,
}

-- The abstract specification: a result sets the verdict once its streak reaches the threshold.
unfoldable pub verdict : ℤ → ℤ → List Bool → Bool
verdict fail rise [] = true
verdict fail rise (true ∷ h) =
    verdict fail rise h || leb_ℤ (at_least_one rise) (pos (streak true (true ∷ h)))
verdict fail rise (false ∷ h) =
    verdict fail rise h && not (leb_ℤ (at_least_one fail) (pos (streak false (false ∷ h))))

-- One observation of a machine whose thresholds and counters are known.
observe-up :
    (s : HealthState) (ok : Bool)
    → (observe s ok).0.up ≡ (
        if ok
        then s.up || leb_ℤ s.rise_threshold (incr s.consec_ok)
        else s.up && not (leb_ℤ s.fail_threshold (incr s.consec_fail)))
unfolding observe
observe-up s true = ground arith
observe-up s false = ground arith

module _ (fail rise : ℤ) where
  abbrev start : HealthState
  start = new_health_state fail rise

  -- The threshold and the counter that the next observation compares.
  rise-thresholds : (h : List Bool) → (after start h).rise_threshold ≡ at_least_one rise
  unfolding new_health_state
  rise-thresholds h = (thresholds-after start h).1

  fail-thresholds : (h : List Bool) → (after start h).fail_threshold ≡ at_least_one fail
  unfolding new_health_state
  fail-thresholds h = (thresholds-after start h).0

  incr-consec_ok :
      (h : List Bool)
      → length h < int_max
      → incr (after start h).consec_ok ≡ pos (suc (streak true h))
  incr-consec_ok h b =
      ap incr (counters-streak fail rise h (omega arith)).0
      ∙ incr-pos (streak true h) (omega (arith, streak-le-length true h))

  incr-consec_fail :
      (h : List Bool)
      → length h < int_max
      → incr (after start h).consec_fail ≡ pos (suc (streak false h))
  incr-consec_fail h b =
      ap incr (counters-streak fail rise h (omega arith)).1
      ∙ incr-pos (streak false h) (omega (arith, streak-le-length false h))

-- Where no counter can have overflowed, the verdict of a machine that was new at the start of a
-- history is the one that the history determines, with both thresholds raised to 1 at least.
pub after-verdict :
    (fail rise : ℤ) (h : List Bool)
    → length h ≤ int_max
    → (after (new_health_state fail rise) h).up ≡ verdict fail rise h
unfolding after verdict streak
after-verdict fail rise [] b = unfold new_health_state in refl
after-verdict fail rise (true ∷ h) b =
    observe-up (after (start fail rise) h) true
    ∙ rw (
      after-verdict fail rise h (omega arith),
      rise-thresholds fail rise h,
      incr-consec_ok fail rise h (omega arith),
    )
after-verdict fail rise (false ∷ h) b =
    observe-up (after (start fail rise) h) false
    ∙ rw (
      after-verdict fail rise h (omega arith),
      fail-thresholds fail rise h,
      incr-consec_fail fail rise h (omega arith),
    )

-- `observe` reports a flip exactly when the verdict changes, and then the verdict is the result.
pub observe-flip :
    (s : HealthState) (ok : Bool)
    → ((observe s ok).1 ≡ true → ((observe s ok).0.up ≡ ok) × (s.up ≡ not ok))
      × ((observe s ok).1 ≡ false → (observe s ok).0.up ≡ s.up)
unfolding observe
observe-flip s true = ground arith
observe-flip s false = ground arith

observe_flip_threshold :
    (s : HealthState) (ok : Bool)
    → (observe s ok).1 ≡ true
    → (if ok then s.rise_threshold else s.fail_threshold)
      ≤ℤ (if ok then incr s.consec_ok else incr s.consec_fail)
unfolding observe
observe_flip_threshold s true e = ground arith
observe_flip_threshold s false e = ground arith

-- A flip needs a full streak: where no counter can have overflowed, the results that end with the
-- one that flips the verdict hold at least the threshold's number of equal results in a row.
pub flip_needs_streak :
    (fail rise : ℤ) (h : List Bool) (ok : Bool)
    → length h < int_max
    → (observe (after (new_health_state fail rise) h) ok).1 ≡ true
    → at_least_one (if ok then rise else fail) ≤ℤ pos (streak ok (ok ∷ h))
unfolding streak
flip_needs_streak fail rise h true b e =
    subst₂ ◌≤ℤ◌ (rise-thresholds fail rise h) (incr-consec_ok fail rise h b)
      (observe_flip_threshold (after (start fail rise) h) true e)
flip_needs_streak fail rise h false b e =
    subst₂ ◌≤ℤ◌ (fail-thresholds fail rise h) (incr-consec_fail fail rise h b)
      (observe_flip_threshold (after (start fail rise) h) false e)
