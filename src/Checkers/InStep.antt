-- ===== src/Checkers/InStep.antt =====
-- The flag of a backend is the verdict of its checker's machine.
use luci_app_gowan.Common.{ℕ, ◌≡◌, false, some, get_elem?}
use luci_app_gowan.Checkers.{Watch}

-- The checker `h` stands in `checkers`.
abbrev pub Listed : Watch → ℕ → Type 0
Listed w h = (j : ℕ) × (get_elem? w.checkers j ≡ some (some h))

-- Every checker listed runs, the flag of its backend is its verdict, and no other checker listed is
-- of that backend.
pub record IsInStep (w : Watch) : Type 0 where
  pub running : (h : ℕ) → Listed w h → (w.checker_cells h).stopped ≡ false
  pub agrees :
      (h : ℕ)
      → Listed w h
      → (w.fleet.cells (w.checker_cells h).lb).up ≡ (w.checker_cells h).state.up
  pub alone :
      (h i : ℕ) → Listed w h → Listed w i → (w.checker_cells h).lb ≡ (w.checker_cells i).lb → h ≡ i
