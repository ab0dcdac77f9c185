-- ===== src/Balancer/Rotation.antt =====
-- The order in which the second loop of `get_load_balancer` visits the indices.
use luci_app_gowan.Common.{
  ℕ, zero, suc, ◌+◌, ◌≤◌, ◌<◌, ◌≡◌, Bool, true, false, Option, none, some, List, [], ◌∷◌, arith,
  if◌then◌else◌, Bool-cases, inl, inr, ◌⊎◌,
}
use luci_app_gowan.Balancer.{next_index}

-- `n` indices from `i` on, cyclically.
unfoldable pub rotation : ℕ → ℕ → ℕ → List ℕ
rotation count zero i = []
rotation count (suc n) i = i ∷ rotation count n (next_index count i)

unfoldable pub find_first : (ℕ → Bool) → List ℕ → Option ℕ
find_first p [] = none
find_first p (i ∷ is) = if p i then some i else find_first p is

pub next_index-lt : (count i : ℕ) → i < count → next_index count i < count
next_index-lt count i h = ground arith

pub find_first-some : (p : ℕ → Bool) (is : List ℕ) {i : ℕ} → find_first p is ≡ some i → p i ≡ true
unfolding find_first
find_first-some p [] e = ground arith
find_first-some p (j ∷ is) {i} e = elim (Bool-cases (p j)) [
  | inl h ↦ ground arith
  | inr h ↦ find_first-some p is (ground arith)
]

-- The indices that are at most `n - 1` steps from `i`.
abbrev Within : ℕ → ℕ → ℕ → ℕ → Type 0
Within count n i j = ((i ≤ j) × (j < i + n)) ⊎ ((j < i) × (j + count < i + n))

-- If none is found, the test fails at each index that was visited.
find_first-none :
    (p : ℕ → Bool) (count n i j : ℕ)
    → i < count
    → j < count
    → Within count n i j
    → find_first p (rotation count n i) ≡ none
    → p j ≡ false
unfolding find_first rotation
find_first-none p count zero i j hi hj w e = absurd (omega arith)
find_first-none p count (suc n) i j hi hj w e =
    ground (arith, find_first-none p count n (next_index count i) j (next_index-lt count i hi) hj)

-- A full turn visits every index.
pub find_first-none_full :
    (p : ℕ → Bool) (count i j : ℕ)
    → i < count
    → j < count
    → find_first p (rotation count count i) ≡ none
    → p j ≡ false
find_first-none_full p count i j hi hj e = find_first-none p count count i j hi hj (ground arith) e
