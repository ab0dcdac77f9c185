-- ===== src/Balancer/Choice.antt =====
-- Which backend `get_load_balancer` hands out, in the words of its comment: the lowest-metric tier
-- among the backends that are up, all backends if none is up, never one that is excluded.
use luci_app_gowan.Common.{
  ℕ, ◌<◌, ◌≡◌, refl, subst, sym, ap, ◌∙◌, ◌⊎◌, inl, inr, ◌≤ℤ◌, Bool, true, false, not, ◌&&◌, ◌||◌,
  Option, none, some, List, [], arith, get_elem?, length, Bool-cases, eq_ℤ, lt_length_of_get_elem?,
  get_elem?-lt_length,
}
use luci_app_gowan.Balancer.{
  Backend, Fleet, ActiveTier, Exclude, returns, is_excluded, eligible, pick_loop, active_tier,
  get_load_balancer,
}
use luci_app_gowan.Balancer.Rotation.{rotation, find_first, find_first-some, find_first-none_full}
use luci_app_gowan.Balancer.Tier.{active_tier_covers, active_tier_attains}
use luci_app_gowan.Balancer.Pick.{
  eligible_at, eligible_at-entry, IsEntry, index_of, Picks, DifferInTurns-refl, pick_loop-Picks,
}

-- `lb_index` is in range, or there is nothing to index.
abbrev pub IsReady : Fleet → Type 0
IsReady g = (g.lb_list ≡ []) ⊎ (g.lb_index < length g.lb_list)

-- No listed backend is up.
abbrev pub AllDown : Fleet → Type 0
AllDown g = (i a : ℕ) → get_elem? g.lb_list i ≡ some a → (g.cells a).up ≡ false

-- The backend `a` is up, and no backend that is up has a lower metric.
abbrev pub IsPreferred : Fleet → ℕ → Type 0
IsPreferred g a =
    ((g.cells a).up ≡ true)
    × ((i b : ℕ)
        → get_elem? g.lb_list i ≡ some b
        → (g.cells b).up ≡ true
        → (g.cells a).metric ≤ℤ (g.cells b).metric)

abbrev pub IsActive : Fleet → ℕ → Type 0
IsActive g a = AllDown g ⊎ IsPreferred g a

-- The part of the test for eligibility that is about the tier.
abbrev in_tier : ActiveTier → Backend → Bool
in_tier t lb = t.all_down || (lb.up && eq_ℤ lb.metric t.active_metric)

all_down-AllDown : (g : Fleet) → (active_tier g).all_down ≡ true → AllDown g
all_down-AllDown g d i a e = elim (Bool-cases (g.cells a).up) [
  | inl u ↦ cc (d, (active_tier_covers g i e u).0)
  | inr down ↦ down
]

AllDown-all_down : (g : Fleet) → AllDown g → (active_tier g).all_down ≡ true
AllDown-all_down g down = elim (Bool-cases (active_tier g).all_down) [
  | inl d ↦ d
  | inr d ↦ let (i, a, e, u, m) = active_tier_attains g d in cc (u, down i a e)
]

in_tier-IsActive : (g : Fleet) (a : ℕ) → in_tier (active_tier g) (g.cells a) ≡ true → IsActive g a
in_tier-IsActive g a h = elim (Bool-cases (active_tier g).all_down) [
  | inl d ↦ inl (all_down-AllDown g d)
  | inr d ↦
      let up : (g.cells a).up ≡ true = ground arith in
      let same : eq_ℤ (g.cells a).metric (active_tier g).active_metric ≡ true = ground arith in
      inr (up, λ i b e u. ground (arith, (active_tier_covers g i e u).1))
]

IsPreferred-in_tier :
    (g : Fleet) (i a : ℕ)
    → get_elem? g.lb_list i ≡ some a
    → IsPreferred g a
    → in_tier (active_tier g) (g.cells a) ≡ true
IsPreferred-in_tier g i a e (u, least) =
    let (d, m) = active_tier_covers g i e u in
    let (j, b, e', u', m') = active_tier_attains g d in
    let l = least j b e' u' in ground (arith, m, m', l)

IsActive-in_tier :
    (g : Fleet) (i a : ℕ)
    → get_elem? g.lb_list i ≡ some a
    → IsActive g a
    → in_tier (active_tier g) (g.cells a) ≡ true
IsActive-in_tier g i a e (inl down) = rw (AllDown-all_down g down) refl
IsActive-in_tier g i a e (inr p) = IsPreferred-in_tier g i a e p

eligible_parts :
    (t : ActiveTier) (exclude : Exclude) (lb : Backend) (i : ℕ)
    → eligible t exclude lb i ≡ (not (is_excluded exclude i) && in_tier t lb)
unfolding eligible
eligible_parts t exclude lb i = refl

-- The indices in the order in which the next call visits them.
abbrev pub turn_order : Fleet → List ℕ
turn_order g = rotation (length g.lb_list) (length g.lb_list) g.lb_index

-- With `lb_index` in range the call does not panic: it hands out the first eligible index in
-- cyclic order from `lb_index`, with the backend that stands there, or nothing if no index is
-- eligible; it changes turns and `lb_index` alone, and leaves `lb_index` in range.
pub get_load_balancer-Picks :
    (g : Fleet) (exclude : Exclude)
    → IsReady g
    → Picks g
        (find_first (eligible_at (active_tier g) exclude g) (turn_order g))
        (get_load_balancer g exclude)
unfolding get_load_balancer
get_load_balancer-Picks g exclude (inl e) =
    unfold rotation find_first pick_loop in
    record {
      after = g;
      chosen = none;
      result = ap (λ (l : List ℕ). pick_loop (length l) (active_tier g) exclude g) e;
      index = sym (
          ap
            (λ (l : List ℕ).
              find_first (eligible_at (active_tier g) exclude g)
                (rotation (length l) (length l) g.lb_index))
            e);
      entry = tt;
      turns = DifferInTurns-refl g;
      ready = inl e;
    }
get_load_balancer-Picks g exclude (inr h) =
    pick_loop-Picks (length g.lb_list) (active_tier g) exclude g h

-- A call in range that hands out `(a, i)` hands out an entry: `a` stands at `i`, `i` is not
-- excluded, and `a` is up with the least metric of all that are up, unless none is up.
pub get_load_balancer_sound :
    (g : Fleet) (exclude : Exclude) {h : Fleet} {a i : ℕ}
    → IsReady g
    → get_load_balancer g exclude ≡ returns (h, some (a, i))
    → (get_elem? g.lb_list i ≡ some a) × (is_excluded exclude i ≡ false) × IsActive g a
get_load_balancer_sound g exclude {h} {a} {i} ready e =
    let p = get_load_balancer-Picks g exclude ready in
    let c : p.chosen ≡ some (a, i) = cc (p.result, e) in
    let entry : get_elem? g.lb_list i ≡ some a = subst (IsEntry g) c p.entry in
    let ok : eligible (active_tier g) exclude (g.cells a) i ≡ true =
      sym (eligible_at-entry (active_tier g) exclude g i entry)
      ∙ find_first-some _ (turn_order g) (sym p.index ∙ ap index_of c) in
    let test = sym (eligible_parts (active_tier g) exclude (g.cells a) i) ∙ ok in
    (entry, ground (arith, test), in_tier-IsActive g a (ground (arith, test)))

-- A call in range that hands out nothing has every active backend excluded.
pub get_load_balancer_exhausted :
    (g : Fleet) (exclude : Exclude) {h : Fleet} (i a : ℕ)
    → IsReady g
    → get_load_balancer g exclude ≡ returns (h, none)
    → get_elem? g.lb_list i ≡ some a
    → IsActive g a
    → is_excluded exclude i ≡ true
get_load_balancer_exhausted g exclude i a (inl empty) e entry active = ground (arith, empty, entry)
get_load_balancer_exhausted g exclude i a (inr lt) e entry active =
    let p = get_load_balancer-Picks g exclude (inr lt) in
    let c : p.chosen ≡ none = cc (p.result, e) in
    let missed =
      find_first-none_full (eligible_at (active_tier g) exclude g) (length g.lb_list) g.lb_index i
        lt (lt_length_of_get_elem? g.lb_list i entry) (sym p.index ∙ ap index_of c) in
    let test =
      sym (eligible_parts (active_tier g) exclude (g.cells a) i)
      ∙ sym (eligible_at-entry (active_tier g) exclude g i entry)
      ∙ missed in
    ground (arith, test, IsActive-in_tier g i a entry active)

some-IsActive :
    (g : Fleet)
    → 0 < length g.lb_list
    → (i : ℕ) × (a : ℕ) × (get_elem? g.lb_list i ≡ some a) × IsActive g a
some-IsActive g h = elim (Bool-cases (active_tier g).all_down) [
  | inl d ↦ let (a, e) = get_elem?-lt_length g.lb_list 0 h in (0, a, e, inl (all_down-AllDown g d))
  | inr d ↦
      let (i, a, e, u, m) = active_tier_attains g d in
      (i, a, e, inr (u, λ j b e' u'. rw m (active_tier_covers g j e' u').1))
]

-- A listener with a backend never refuses a first attempt: with `lb_index` in range and no index
-- excluded some backend is handed out, also when every backend is down.
pub get_load_balancer_serves :
    (g : Fleet) (exclude : Exclude)
    → g.lb_index < length g.lb_list
    → ((i : ℕ) → is_excluded exclude i ≡ false)
    → (h : Fleet) × (a i : ℕ) × (get_load_balancer g exclude ≡ returns (h, some (a, i)))
get_load_balancer_serves g exclude lt open_all = serve p.chosen p.result
  where
    p :
        Picks g
          (find_first (eligible_at (active_tier g) exclude g) (turn_order g))
          (get_load_balancer g exclude)
    p = get_load_balancer-Picks g exclude (inr lt)

    serve :
        (c : Option (ℕ × ℕ))
        → get_load_balancer g exclude ≡ returns (p.after, c)
        → (h : Fleet) × (a i : ℕ) × (get_load_balancer g exclude ≡ returns (h, some (a, i)))
    serve none e =
        let (i, a, entry, active) = some-IsActive g (omega arith) in
        cc (get_load_balancer_exhausted g exclude i a (inr lt) e entry active, open_all i)
    serve (some (a, i)) e = (p.after, a, i, e)

-- The code hands out the backend at `lb_index` if it is active and not excluded.
pub active-eligible :
    (g : Fleet) (exclude : Exclude) (i a : ℕ)
    → get_elem? g.lb_list i ≡ some a
    → IsActive g a
    → is_excluded exclude i ≡ false
    → eligible (active_tier g) exclude (g.cells a) i ≡ true
active-eligible g exclude i a entry active free =
    eligible_parts (active_tier g) exclude (g.cells a) i
    ∙ ground (arith, IsActive-in_tier g i a entry active)
