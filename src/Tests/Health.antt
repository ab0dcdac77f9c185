-- ===== src/Tests/Health.antt =====
-- The threshold machine on short histories.
use luci_app_gowan.Common.{◌≡◌, refl, ◌≤ℤ◌, pos, true, false, Bool, List, [], ◌∷◌, arith}
use luci_app_gowan.Health.{observe, after, new_health_state, at_least_one}
use luci_app_gowan.Health.Streak.{streak}
use luci_app_gowan.Health.Verdict.{verdict, after-verdict, flip_needs_streak}

-- The latest result first: two failures, a success, then two failures behind it.
abbrev results : List Bool
results = false ∷ false ∷ true ∷ false ∷ false ∷ []

-- Three failures in a row are needed, one success is enough.
after-verdict_example :
    (after (new_health_state (pos 3) (pos 1)) results).up ≡ verdict (pos 3) (pos 1) results
after-verdict_example = after-verdict (pos 3) (pos 1) results (omega arith)

-- Two are needed: the first failures flip the verdict, the success flips it back, and so on.
verdict_two : verdict (pos 2) (pos 1) results ≡ false
unfolding verdict streak
verdict_two = refl

verdict_three : verdict (pos 3) (pos 1) results ≡ true
unfolding verdict streak
verdict_three = refl

flip_needs_streak_example : at_least_one (pos 3) ≤ℤ pos (streak false (false ∷ results))
unfolding observe after new_health_state
flip_needs_streak_example = flip_needs_streak (pos 3) (pos 1) results false (omega arith) refl
