-- ===== src/Checkers/Calls.antt =====
-- Calls of `observe` of the checkers of gowan/src/health.go, section by section, as steps.
use luci_app_gowan.Common.{ℕ, ◌≡◌, ◌≢◌, ◌⊎◌, Bool, true, false, if◌then◌else◌, ℤ}
use luci_app_gowan.Balancer.{Fleet, update}
use luci_app_gowan.Checkers.{Watch, Publication, advance, publish}
use luci_app_gowan.Checkers.InStep.{Listed}

-- Where the call of `observe` of a checker stands, if there is one.
pub data Call : Type 0 where
  idle : Call
  -- past the test of `stop`, with a result
  admitted : Bool → Call
  -- between the two sections
  publishing : Publication → Call

-- The variables, and the call of each checker.
pub record System : Type 0 where
  pub watch : Watch
  pub calls : ℕ → Call

-- The test of `stop`.
unfoldable pub admit : Watch → ℕ → Bool → Call
admit w h ok = if (w.checker_cells h).stopped then idle else admitted ok

-- A call begins for a checker that has none and is listed, or was stopped, takes its sections in turn, or others change the
-- backends, flags excepted.
pub data Step (s : System) : System → Type 0 where
  begins :
      (h : ℕ) (ok : Bool)
      → Listed s.watch h ⊎ ((s.watch.checker_cells h).stopped ≡ true)
      → s.calls h ≡ idle
      → Step s (record s { calls = update s.calls h (admit s.watch h ok) })
  advances :
      (h : ℕ) (ok : Bool)
      → s.calls h ≡ admitted ok
      → Step s (record {
        watch = (advance s.watch h ok).0;
        calls = update s.calls h (publishing (advance s.watch h ok).1);
      })
  publishes :
      (h : ℕ) (p : Publication) (now : ℤ)
      → s.calls h ≡ publishing p
      → Step s (record { watch = (publish s.watch h p now).0; calls = update s.calls h idle })
  elsewhere :
      (g : Fleet)
      → ((a : ℕ) → (g.cells a).up ≡ (s.watch.fleet.cells a).up)
      → Step s (record s { watch = record s.watch { fleet = g } })

pub data Reach (s : System) : System → Type 0 where
  here : Reach s s
  next : {t u : System} → Reach s t → Step t u → Reach s u

-- The flag of a backend once the call of its checker has published.
abbrev pub flag_after : Call → Bool → Bool
flag_after idle up = up
flag_after (admitted ok) up = up
flag_after (publishing p) up = if p.flip then p.up else up

-- Calls are of listed checkers, these run and are each the only one of their backend, and the flag of
-- the backend is the verdict of the machine, but for what is still to be published.
pub record IsFollowed (s : System) : Type 0 where
  pub called : (h : ℕ) → s.calls h ≢ idle → Listed s.watch h
  pub running : (h : ℕ) → Listed s.watch h → (s.watch.checker_cells h).stopped ≡ false
  pub agrees :
      (h : ℕ)
      → Listed s.watch h
      → flag_after (s.calls h) (s.watch.fleet.cells (s.watch.checker_cells h).lb).up
        ≡ (s.watch.checker_cells h).state.up
  pub alone :
      (h i : ℕ)
      → Listed s.watch h
      → Listed s.watch i
      → (s.watch.checker_cells h).lb ≡ (s.watch.checker_cells i).lb
      → h ≡ i
