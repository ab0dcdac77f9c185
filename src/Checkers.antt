-- ===== src/Checkers.antt =====
-- The health checkers of gowan/src/health.go: `check_config`, `health_checker`, `checkers`,
-- `start_health_checks`, `stop_health_checks`, `checker_for`, `note_dial_failure` and the method
-- `observe` of `health_checker`. Loops keep pointers to checkers that a reload has replaced, so
-- checkers lie in a store as backends do. `observe` takes its locks in turn, so it is two steps behind
-- a test.
pub mod InStep
pub mod Calls
pub mod Interleaved
pub mod DialFailure
pub mod Start
use luci_app_gowan.Common.{
  ℕ, suc, ℤ, Bool, true, false, not, ◌&&◌, ◌||◌, Option, none, some, List, [], ◌∷◌, ◌++◌, Bytes,
  codes, text_eq, is_blank, add64, ◌==◌, if◌then◌else◌,
}
use luci_app_gowan.Balancer.{Backend, Fleet, update, modify}
use luci_app_gowan.Health.{HealthState, new_health_state, observe}

pub record CheckConfig : Type 0 where
  pub ctype : Bytes
  pub target : Bytes
  pub interval : ℤ
  pub timeout : ℤ
  pub fail : ℤ
  pub rise : ℤ

pub record HealthChecker : Type 0 where
  pub lb : ℕ
  pub cfg : CheckConfig
  pub state : HealthState
  pub stopped : Bool  -- `stop` is closed

-- The package's variables: the backends, the store of checkers with its first free address, and
-- `checkers`, with none for nil.
pub record Watch : Type 0 where
  pub fleet : Fleet
  pub checker_cells : ℕ → HealthChecker
  pub fresh_checker : ℕ
  pub checkers : List (Option ℕ)

-- The type of check is neither "none" nor empty.
unfoldable pub is_checked : CheckConfig → Bool
is_checked c = not (text_eq c.ctype (codes "none") || is_blank c.ctype)

-- A checker whose machine starts from the backend's flag.
unfoldable pub new_checker : (ℕ → Backend) → ℕ → CheckConfig → HealthChecker
new_checker cells a c = record {
  lb = a;
  cfg = c;
  state = record (new_health_state c.fail c.rise) { up = (cells a).up };
  stopped = false;
}

-- One round of the loop of `start_health_checks`; none where `cfgs` has no entry.
unfoldable pub add_checker : Watch → ℕ → Option CheckConfig → Watch
unfolding new_checker
add_checker w a none = record w { checkers = w.checkers ++ none ∷ [] }
add_checker w a (some c) =
    if is_checked c
    then record w {
      checker_cells = update w.checker_cells w.fresh_checker (new_checker w.fleet.cells a c);
      fresh_checker = suc w.fresh_checker;
      checkers = w.checkers ++ some w.fresh_checker ∷ [];
    }
    else record w { checkers = w.checkers ++ none ∷ [] }

unfoldable pub add_checkers : Watch → List ℕ → List CheckConfig → Watch
unfolding add_checker
add_checkers w [] cfgs = w
add_checkers w (a ∷ lbs) [] = add_checkers (add_checker w a none) lbs []
add_checkers w (a ∷ lbs) (c ∷ cfgs) = add_checkers (add_checker w a (some c)) lbs cfgs

unfoldable pub start_health_checks : Watch → List CheckConfig → Watch
unfolding add_checkers
start_health_checks w cfgs = add_checkers (record w { checkers = [] }) w.fleet.lb_list cfgs

-- `close(hc.stop)` for each checker.
unfoldable pub close_all : (ℕ → HealthChecker) → List (Option ℕ) → ℕ → HealthChecker
close_all cells [] = cells
close_all cells (none ∷ old) = close_all cells old
close_all cells (some h ∷ old) =
    close_all (update cells h (record (cells h) { stopped = true })) old

unfoldable pub stop_health_checks : Watch → Watch
unfolding close_all
stop_health_checks w = record w {
  checker_cells = close_all w.checker_cells w.checkers;
  checkers = [];
}

unfoldable pub checker_for : (ℕ → HealthChecker) → List (Option ℕ) → ℕ → Option ℕ
checker_for cells [] a = none
checker_for cells (none ∷ l) a = checker_for cells l a
checker_for cells (some h ∷ l) a =
    let later = checker_for cells l a in if (cells h).lb == a then some h else later

-- What `observe` tells the outside.
pub data Notice : Type 0 where
  -- the checker was stopped: nothing happens
  discarded : Notice
  -- the state file is written
  counted : Notice
  -- the hook runs with the new verdict; the second flag is `all_down`
  flipped : Bool → Bool → Notice

unfoldable pub count_check : Bool → Bool → Bool → ℤ → Backend → Backend
count_check ok flip up now lb =
    let c =
      if ok
      then record lb { checks_ok = add64 lb.checks_ok 1 }
      else record lb { checks_failed = add64 lb.checks_failed 1 } in
    if flip then record c { up = up; status_since = now } else c

unfoldable pub none_up : (ℕ → Backend) → List ℕ → Bool
none_up cells [] = true
none_up cells (a ∷ l) = not (cells a).up && none_up cells l

-- What the section of `observe` under `hc.mu` leaves for the one under `mutex`: the result, and
-- `flipped` and `up`.
pub record Publication : Type 0 where
  pub ok : Bool
  pub flip : Bool
  pub up : Bool

-- The section under `hc.mu`.
unfoldable pub advance : Watch → ℕ → Bool → Watch × Publication
advance w h ok =
    let hc = w.checker_cells h in
    let (s, flip) = observe hc.state ok in
    (
      record w { checker_cells = update w.checker_cells h (record hc { state = s }) },
      record { ok = ok; flip = flip; up = s.up },
    )

-- The section under `mutex`, and what is told behind it.
unfoldable pub publish : Watch → ℕ → Publication → ℤ → Watch × Notice
unfolding count_check none_up
publish w h p now =
    let g = modify w.fleet (w.checker_cells h).lb (count_check p.ok p.flip p.up now) in
    (record w { fleet = g }, if p.flip then flipped p.up (none_up g.cells g.lb_list) else counted)

-- What other goroutines do to the variables behind the test of `stop`, and between the sections.
pub record Others : Type 0 where
  pub admitted : Watch → Watch
  pub between : Watch → Watch

unfoldable pub observe_check : Others → Watch → ℕ → Bool → ℤ → Watch × Notice
unfolding advance publish
observe_check o w h ok now =
    let (v, p) = advance (o.admitted w) h ok in
    if (w.checker_cells h).stopped then (w, discarded) else publish (o.between v) h p now

-- The checker whose `observe(false)` is started as a goroutine of its own.
unfoldable pub note_dial_failure : Watch → ℕ → Option ℕ
unfolding checker_for
note_dial_failure w a = checker_for w.checker_cells w.checkers a
