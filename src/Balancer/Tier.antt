-- ===== src/Balancer/Tier.antt =====
-- The first loop of `get_load_balancer` finds the least metric among the backends that are up.
use luci_app_gowan.Common.{
  ℕ, zero, suc, ◌≡◌, refl, ◌⊎◌, inl, inr, ◌≤ℤ◌, true, false, some, List, [], ◌∷◌, arith, get_elem?,
  if◌then◌else◌, ltb_ℤ, ◌||◌,
}
use luci_app_gowan.Balancer.{Backend, Fleet, ActiveTier, scan_tier, active_tier}

-- The body of the loop.
abbrev visit : ActiveTier → Backend → ActiveTier
visit t lb =
    if lb.up
    then record {
      all_down = false;
      active_metric =
          if t.all_down || ltb_ℤ lb.metric t.active_metric then lb.metric else t.active_metric;
    }
    else t

-- A tier at least as good as another: it knows of a backend that is up, and of one no worse.
abbrev Improves : ActiveTier → ActiveTier → Type 0
Improves u t = t.all_down ≡ false → (u.all_down ≡ false) × (u.active_metric ≤ℤ t.active_metric)

visit-Improves : (t : ActiveTier) (lb : Backend) → Improves (visit t lb) t
visit-Improves t lb h = ground arith

scan_tier-Improves :
    (cells : ℕ → Backend) (l : List ℕ) (t : ActiveTier) → Improves (scan_tier cells l t) t
unfolding scan_tier
scan_tier-Improves cells [] t h = ground arith
scan_tier-Improves cells (a ∷ l) t h =
    let (d, m) = visit-Improves t (cells a) h in
    let (d', m') = scan_tier-Improves cells l (visit t (cells a)) d in (d', omega arith)

visit_covers :
    (t : ActiveTier) (lb : Backend)
    → lb.up ≡ true
    → ((visit t lb).all_down ≡ false) × ((visit t lb).active_metric ≤ℤ lb.metric)
visit_covers t lb h = ground arith

scan_tier_covers :
    (cells : ℕ → Backend) (l : List ℕ) (t : ActiveTier) (i : ℕ) {a : ℕ}
    → get_elem? l i ≡ some a
    → (cells a).up ≡ true
    → ((scan_tier cells l t).all_down ≡ false)
      × ((scan_tier cells l t).active_metric ≤ℤ (cells a).metric)
unfolding scan_tier
scan_tier_covers cells [] t i e h = ground arith
scan_tier_covers cells (b ∷ l) t zero {a} e h =
    let (d, m) = visit_covers t (cells b) (ground arith) in
    let (d', m') = scan_tier-Improves cells l (visit t (cells b)) d in
    let same : (cells b).metric ≡ (cells a).metric = ground arith in (d', rw (← same) (omega arith))
scan_tier_covers cells (b ∷ l) t (suc i) e h = scan_tier_covers cells l (visit t (cells b)) i e h

-- The metric of a scan that met a backend that is up is the metric of such a backend.
abbrev Attains : (ℕ → Backend) → List ℕ → ActiveTier → Type 0
Attains cells l u =
    (i : ℕ) × (a : ℕ) × (get_elem? l i ≡ some a)
    × ((cells a).up ≡ true)
    × ((cells a).metric ≡ u.active_metric)

visit_attains :
    (t : ActiveTier) (lb : Backend)
    → (visit t lb ≡ t)
      ⊎ ((lb.up ≡ true) × (lb.metric ≡ (visit t lb).active_metric))
      ⊎ ((lb.up ≡ true) × (t.all_down ≡ false) × ((visit t lb).active_metric ≡ t.active_metric))
visit_attains t lb = ground arith

scan_tier-Attains :
    (cells : ℕ → Backend) (l : List ℕ) (t : ActiveTier)
    → (scan_tier cells l t).all_down ≡ false
    → ((t.all_down ≡ false) × ((scan_tier cells l t).active_metric ≡ t.active_metric))
      ⊎ Attains cells l (scan_tier cells l t)
unfolding scan_tier
scan_tier-Attains cells [] t h = inl (h, refl)
scan_tier-Attains cells (b ∷ l) t h = elim (scan_tier-Attains cells l (visit t (cells b)) h) [
  | inl (d, m) ↦ elim (visit_attains t (cells b)) [
    | inl same ↦ inl (ground arith, ground arith)
    | inr (inl (u, n)) ↦ inr (0, b, refl, u, ground arith)
    | inr (inr (u, d', n)) ↦ inl (d', ground arith)
  ]
  | inr (i, a, e, u, m) ↦ inr (suc i, a, e, u, m)
]

-- A backend that is up makes the tier not all down, and the tier's metric is no worse than its.
pub active_tier_covers :
    (g : Fleet) (i : ℕ) {a : ℕ}
    → get_elem? g.lb_list i ≡ some a
    → (g.cells a).up ≡ true
    → ((active_tier g).all_down ≡ false) × ((active_tier g).active_metric ≤ℤ (g.cells a).metric)
unfolding active_tier
active_tier_covers g i e h = scan_tier_covers g.cells g.lb_list _ i e h

-- If the tier is not all down, some backend that is up has its metric.
pub active_tier_attains :
    (g : Fleet)
    → (active_tier g).all_down ≡ false
    → (i : ℕ) × (a : ℕ) × (get_elem? g.lb_list i ≡ some a)
      × ((g.cells a).up ≡ true)
      × ((g.cells a).metric ≡ (active_tier g).active_metric)
unfolding active_tier
active_tier_attains g h = elim (scan_tier-Attains g.cells g.lb_list _ h) [
  | inl (d, m) ↦ cc
  | inr found ↦ found
]
