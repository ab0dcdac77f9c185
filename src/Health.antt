-- ===== src/Health.antt =====
-- The fail/rise threshold machine of gowan/src/health.go: `health_state`, `new_health_state` and
-- the method `observe` of `health_state`. An `int` is an integer with int64's wrap.
pub mod Streak
pub mod Verdict
use luci_app_gowan.Common.{
  ℕ, ℤ, pos, Bool, true, false, not, ◌&&◌, List, [], ◌∷◌, incr, ltb_ℤ, leb_ℤ, if◌then◌else◌,
}

pub record HealthState : Type 0 where
  pub fail_threshold : ℤ
  pub rise_threshold : ℤ
  pub up : Bool
  pub consec_fail : ℤ
  pub consec_ok : ℤ

-- `if n < 1 { n = 1 }`
abbrev pub at_least_one : ℤ → ℤ
at_least_one n = if ltb_ℤ n (pos 1) then pos 1 else n

unfoldable pub new_health_state : ℤ → ℤ → HealthState
new_health_state fail rise = record {
  fail_threshold = at_least_one fail;
  rise_threshold = at_least_one rise;
  up = true;
  consec_fail = pos 0;
  consec_ok = pos 0;
}

-- The branch `if ok { … }`.
observe_ok : HealthState → HealthState × Bool
observe_ok s =
    let t = record s { consec_fail = pos 0; consec_ok = incr s.consec_ok } in
    if not t.up && leb_ℤ t.rise_threshold t.consec_ok
    then (record t { up = true }, true)
    else (t, false)

-- The code below that branch.
observe_fail : HealthState → HealthState × Bool
observe_fail s =
    let t = record s { consec_ok = pos 0; consec_fail = incr s.consec_fail } in
    if t.up && leb_ℤ t.fail_threshold t.consec_fail
    then (record t { up = false }, true)
    else (t, false)

-- The new state, and whether the verdict flipped.
unfoldable pub observe : HealthState → Bool → HealthState × Bool
unfolding observe_ok observe_fail
observe s ok = if ok then observe_ok s else observe_fail s

-- The state after a history of results, the latest first.
unfoldable pub after : HealthState → List Bool → HealthState
after s [] = s
after s (ok ∷ earlier) = (observe (after s earlier) ok).0
