-- ===== src/Dispatch/Tried.antt =====
-- The indices that a connection has tried.
use luci_app_gowan.Common.{
  ℕ, zero, suc, ◌+◌, ◌≤◌, ◌<◌, ◌≡◌, refl, false, List, [], ◌∷◌, arith, contains, length,
  if◌then◌else◌, ◌==◌, Bool-cases, inl, inr,
}

-- How many indices below `count` are not in the list.
unfoldable pub missing : ℕ → List ℕ → ℕ
missing zero tried = 0
missing (suc n) tried = (if contains tried n then 0 else 1) + missing n tried

-- No index stands twice, and each is below `count`.
abbrev pub DistinctBelow : ℕ → List ℕ → Type 0
DistinctBelow count [] = Unit {0}
DistinctBelow count (i ∷ is) = (contains is i ≡ false) × (i < count) × DistinctBelow count is

missing-cons_above : (n i : ℕ) (tried : List ℕ) → n ≤ i → missing n (i ∷ tried) ≡ missing n tried
unfolding missing
missing-cons_above zero i tried h = refl
missing-cons_above (suc n) i tried h = ground (arith, missing-cons_above n i tried (omega arith))

pub missing-cons :
    (n i : ℕ) (tried : List ℕ)
    → i < n
    → contains tried i ≡ false
    → suc (missing n (i ∷ tried)) ≡ missing n tried
unfolding missing
missing-cons zero i tried h e = elim h [ ]
missing-cons (suc n) i tried h e = elim (Bool-cases (i == n)) [
  | inl same ↦ ground (arith, same, missing-cons_above n i tried)
  | inr other ↦ ground (arith, other, missing-cons n i tried)
]

missing-nil : (n : ℕ) → missing n [] ≡ n
unfolding missing
missing-nil zero = refl
missing-nil (suc n) = omega (arith, missing-nil n)

pub length-missing :
    (count : ℕ) (tried : List ℕ)
    → DistinctBelow count tried
    → length tried + missing count tried ≡ count
length-missing count [] d = omega (arith, missing-nil count)
length-missing count (i ∷ is) (e, lt, d) =
    omega (arith, missing-cons count i is lt e, length-missing count is d)
