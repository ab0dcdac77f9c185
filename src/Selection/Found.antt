-- ===== src/Selection/Found.antt =====
-- The search for a healthy backend by its name.
use luci_app_gowan.Common.{
  ℕ, zero, suc, ◌+◌, ◌≡◌, refl, ap, ◌∙◌, true, false, ◌&&◌, Option, none, some, List, [], ◌∷◌,
  arith, Bytes, text_eq, text_eq_iff, get_elem?, Bool-cases, Option-cases, inl, inr,
}
use luci_app_gowan.Balancer.{Backend, Fleet}
use luci_app_gowan.Selection.{find_named, healthy_named}

-- Both tests of the search.
abbrev Healthy : (ℕ → Backend) → Bytes → ℕ → Type 0
Healthy cells name a = ((cells a).name ≡ name) × ((cells a).up ≡ true)

find_named-some :
    (cells : ℕ → Backend) (name : Bytes) (k : ℕ) (l : List ℕ) {a i : ℕ}
    → find_named cells name k l ≡ some (a, i)
    → (j : ℕ) × (i ≡ k + j) × (get_elem? l j ≡ some a) × Healthy cells name a
unfolding find_named
find_named-some cells name k [] e = cc
find_named-some cells name k (b ∷ l) {a} {i} e =
    elim (Bool-cases (text_eq (cells b).name name && (cells b).up)) [
      | inl hit ↦
          let here : ◌≡◌ {A = Option (ℕ × ℕ)} (some (b, k)) (some (a, i)) =
            ground (arith, hit, e) in
          let same : b ≡ a = ground arith in
          (
            0,
            ground arith,
            ap some same,
            (
              rw (← same) ((text_eq_iff (cells b).name name).0 (ground (arith, hit))),
              rw (← same) (ground (arith, hit)),
            ),
          )
      | inr miss ↦
          let (j, o, entry, healthy) =
            find_named-some cells name (suc k) l {a = a} {i = i} (ground (arith, miss, e)) in
          (suc j, omega arith, entry, healthy)
    ]

find_named-none :
    (cells : ℕ → Backend) (name : Bytes) (k : ℕ) (l : List ℕ) (j : ℕ) {a : ℕ}
    → find_named cells name k l ≡ none
    → get_elem? l j ≡ some a
    → (cells a).name ≡ name
    → (cells a).up ≡ false
unfolding find_named
find_named-none cells name k [] j e entry n = cc
find_named-none cells name k (b ∷ l) zero e entry n =
    ground (arith, text_eq_iff (cells b).name name)
find_named-none cells name k (b ∷ l) (suc j) e entry n =
    find_named-none cells name (suc k) l j (ground arith) entry n

-- What is found stands at its index, has the name and is up.
pub healthy_named-some :
    (g : Fleet) (name : Bytes) {a i : ℕ}
    → healthy_named g name ≡ some (a, i)
    → (get_elem? g.lb_list i ≡ some a) × ((g.cells a).name ≡ name) × ((g.cells a).up ≡ true)
healthy_named-some g name {a} {i} e =
    let (j, o, entry, healthy) = find_named-some g.cells name 0 g.lb_list e in
    let same : i ≡ j = omega arith in (rw same entry, healthy.0, healthy.1)

-- If nothing is found, every backend of the name is down.
pub healthy_named-none :
    (g : Fleet) (name : Bytes) (i : ℕ) {a : ℕ}
    → healthy_named g name ≡ none
    → get_elem? g.lb_list i ≡ some a
    → (g.cells a).name ≡ name
    → (g.cells a).up ≡ false
healthy_named-none g name i e entry n = find_named-none g.cells name 0 g.lb_list i e entry n

-- No entry but the one at the index `i` has the name.
abbrev pub OnlyNamed : Fleet → Bytes → ℕ → Type 0
OnlyNamed g name i = (j b : ℕ) → get_elem? g.lb_list j ≡ some b → (g.cells b).name ≡ name → j ≡ i

-- The search finds a healthy backend that alone has its name.
pub healthy_named_entry :
    (g : Fleet) (i a : ℕ)
    → OnlyNamed g (g.cells a).name i
    → get_elem? g.lb_list i ≡ some a
    → (g.cells a).up ≡ true
    → healthy_named g (g.cells a).name ≡ some (a, i)
healthy_named_entry g i a only entry up = elim (Option-cases (healthy_named g (g.cells a).name)) [
  | inl e ↦ cc (up, healthy_named-none g (g.cells a).name i e entry refl)
  | inr ((b, j), e) ↦
      let (entry', n, u) = healthy_named-some g (g.cells a).name e in
      let same = only j b entry' n in
      let b≡a : b ≡ a = ground (arith, same, entry, entry') in e ∙ rw (same, b≡a) refl
]
