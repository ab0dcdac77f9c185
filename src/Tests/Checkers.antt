-- ===== src/Tests/Checkers.antt =====
-- A checker for one of two backends.
use luci_app_gowan.Common.{
  ℕ, zero, suc, ◌≡◌, inl, refl, pos, true, false, none, some, [], ◌∷◌, codes, get_elem?, arith,
}
use luci_app_gowan.Health.{observe}
use luci_app_gowan.Balancer.{update}
use luci_app_gowan.Checkers.{
  CheckConfig, Watch, Publication, flipped, none_up, count_check, advance, publish, observe_check,
  start_health_checks,
}
use luci_app_gowan.Checkers.InStep.{IsInStep}
use luci_app_gowan.Checkers.Calls.{
  idle, publishing, System, admit, begins, advances, publishes, Reach, here, next, IsFollowed,
}
use luci_app_gowan.Checkers.Interleaved.{Reach-IsFollowed}
use luci_app_gowan.Checkers.Start.{DistinctEntries, start_health_checks-IsInStep}
use luci_app_gowan.Tests.Sample.{two_wans}

abbrev pub tcp_check : CheckConfig
tcp_check = record {
  ctype = codes "tcp";
  target = codes "8.8.8.8:53";
  interval = pos 30;
  timeout = pos 5;
  fail = pos 1;
  rise = pos 2;
}

abbrev pub watch : Watch
watch = record {
  fleet = two_wans;
  checker_cells = λ h. record {
    lb = 0;
    cfg = tcp_check;
    state = record {
      fail_threshold = pos 1;
      rise_threshold = pos 2;
      up = true;
      consec_fail = pos 0;
      consec_ok = pos 0;
    };
    stopped = false;
  };
  fresh_checker = 1;
  checkers = some 0 ∷ none ∷ [];
}

listed-zero : (j h : ℕ) → get_elem? watch.checkers j ≡ some (some h) → h ≡ 0
listed-zero zero h e = cc
listed-zero (suc zero) h e = cc
listed-zero (suc (suc j)) h e = cc

watch-IsInStep : IsInStep watch
watch-IsInStep = record {
  running = λ h l. refl;
  agrees = λ h l. refl;
  alone = λ h i (j, e) (k, f) same. cc (listed-zero j h e, listed-zero k i f);
}

-- No call is under way, and then the checker of "wan1" takes a failure through both sections.
abbrev at_rest : System
at_rest = record { watch = watch; calls = λ h. idle }

abbrev failure : Publication
failure = record { ok = false; flip = true; up = false }

abbrev begun : System
begun = record at_rest { calls = update at_rest.calls 0 (admit watch 0 false) }

abbrev advanced : System
advanced = record {
  watch = (advance watch 0 false).0;
  calls = update begun.calls 0 (publishing (advance watch 0 false).1);
}

abbrev published : System
published = record {
  watch = (publish advanced.watch 0 failure (pos 7)).0;
  calls = update advanced.calls 0 idle;
}

run : Reach at_rest published
unfolding admit advance observe
run =
    next (next (next here (begins 0 false (inl (0, refl)) refl)) (advances 0 false refl))
      (publishes 0 failure (pos 7) refl)

Reach-IsFollowed_example :
    IsFollowed published × (((h : ℕ) → published.calls h ≡ idle) → IsInStep published.watch)
Reach-IsFollowed_example = Reach-IsFollowed watch-IsInStep (λ h. refl) run

-- One failure is enough for the threshold 1: "wan1" goes down, and "wan2" is still up.
goes_down :
    (observe_check (record { admitted = λ w. w; between = λ w. w }) watch 0 false (pos 7)).1
    ≡ flipped false false
unfolding observe_check advance publish observe none_up count_check
goes_down = refl

two_distinct : DistinctEntries two_wans.lb_list
two_distinct zero zero a e f = refl
two_distinct zero (suc zero) a e f = ground arith
two_distinct zero (suc (suc j)) a e f = cc
two_distinct (suc zero) zero a e f = ground arith
two_distinct (suc zero) (suc zero) a e f = refl
two_distinct (suc zero) (suc (suc j)) a e f = cc
two_distinct (suc (suc i)) j a e f = cc

start_health_checks-IsInStep_example :
    IsInStep (start_health_checks watch (tcp_check ∷ tcp_check ∷ []))
start_health_checks-IsInStep_example =
    start_health_checks-IsInStep watch (tcp_check ∷ tcp_check ∷ []) two_distinct
