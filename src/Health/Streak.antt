-- ===== src/Health/Streak.antt =====
-- What the counters of `health_state` hold: the length of the streak that ends a history.
use luci_app_gowan.Common.{
  ℕ, suc, ℤ, pos, ◌≡◌, refl, ap, ◌∙◌, incr, ◌<◌, ◌≤◌, Bool, true, false, List, [], ◌∷◌, length,
  arith, int_max, if◌then◌else◌,
}
use luci_app_gowan.Health.{HealthState, new_health_state, observe, after}

-- How many results in a row, from the latest back, were `result`.
unfoldable pub streak : Bool → List Bool → ℕ
streak true [] = 0
streak true (true ∷ h) = suc (streak true h)
streak true (false ∷ h) = 0
streak false [] = 0
streak false (true ∷ h) = 0
streak false (false ∷ h) = suc (streak false h)

pub streak-le-length : (b : Bool) (h : List Bool) → streak b h ≤ length h
unfolding streak
streak-le-length true [] = omega arith
streak-le-length true (true ∷ h) = omega (arith, streak-le-length true h)
streak-le-length true (false ∷ h) = omega arith
streak-le-length false [] = omega arith
streak-le-length false (true ∷ h) = omega arith
streak-le-length false (false ∷ h) = omega (arith, streak-le-length false h)

-- One observation, counter by counter.
observe_counters :
    (s : HealthState) (ok : Bool)
    → ((observe s ok).0.consec_ok ≡ (if ok then incr s.consec_ok else pos 0))
      × ((observe s ok).0.consec_fail ≡ (if ok then pos 0 else incr s.consec_fail))
unfolding observe
observe_counters s true = ground arith
observe_counters s false = ground arith

pub incr-pos : (n : ℕ) → n < int_max → incr (pos n) ≡ pos (suc n)
incr-pos n h = ground arith

module _ (fail rise : ℤ) where
  abbrev start : HealthState
  start = new_health_state fail rise

  consec_ok-streak :
      (h : List Bool) → length h ≤ int_max → (after start h).consec_ok ≡ pos (streak true h)
  unfolding after new_health_state streak
  consec_ok-streak [] b = refl
  consec_ok-streak (true ∷ h) b =
      (observe_counters (after start h) true).0
      ∙ ap incr (consec_ok-streak h (omega arith))
      ∙ incr-pos (streak true h) (omega (arith, streak-le-length true h))
  consec_ok-streak (false ∷ h) b = (observe_counters (after start h) false).0

  consec_fail-streak :
      (h : List Bool) → length h ≤ int_max → (after start h).consec_fail ≡ pos (streak false h)
  unfolding after new_health_state streak
  consec_fail-streak [] b = refl
  consec_fail-streak (true ∷ h) b = (observe_counters (after start h) true).1
  consec_fail-streak (false ∷ h) b =
      (observe_counters (after start h) false).1
      ∙ ap incr (consec_fail-streak h (omega arith))
      ∙ incr-pos (streak false h) (omega (arith, streak-le-length false h))

-- After a history short enough not to overflow an int64, the counters of a machine that was new
-- at its start are the lengths of the streaks that end it.
pub counters-streak :
    (fail rise : ℤ) (h : List Bool)
    → length h ≤ int_max
    → ((after (new_health_state fail rise) h).consec_ok ≡ pos (streak true h))
      × ((after (new_health_state fail rise) h).consec_fail ≡ pos (streak false h))
counters-streak fail rise h b = (consec_ok-streak fail rise h b, consec_fail-streak fail rise h b)

pub thresholds-after :
    (s : HealthState) (h : List Bool)
    → ((after s h).fail_threshold ≡ s.fail_threshold)
      × ((after s h).rise_threshold ≡ s.rise_threshold)
unfolding after observe
thresholds-after s [] = (refl, refl)
thresholds-after s (ok ∷ h) = ground (arith, thresholds-after s h)
