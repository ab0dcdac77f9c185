-- ===== src/Reload/Survivors.antt =====
-- What a reload keeps: the health and the counters of every backend, and the place in memory of
-- those whose host survives.
use luci_app_gowan.Common.{
  ℕ, zero, suc, ◌+◌, ◌≤◌, ◌<◌, ℤ, ◌≡◌, refl, ap, subst, ◌∙◌, ◌⊎◌, inl, inr, false, some, List, [],
  ◌∷◌, ◌++◌, arith, Bytes, is_blank, text_eq, text_eq_iff, Dict, lookup, insert, lookup-insert,
  length, get_elem?, length-append, Bool-cases, Option-cases, if◌then◌else◌, ◌==◌, ==_iff,
}
use luci_app_gowan.Balancer.{Backend, Fleet}
use luci_app_gowan.Reload.{Candidate, backend_ip, old_backends, refit, place, place_all}

-- The health and the counters of a backend are what they were.
pub record Keeps (lb after : Backend) : Type 0 where
  pub address : after.address ≡ lb.address
  pub up : after.up ≡ lb.up
  pub status_since : after.status_since ≡ lb.status_since
  pub checks_ok : after.checks_ok ≡ lb.checks_ok
  pub checks_failed : after.checks_failed ≡ lb.checks_failed
  pub total_conns : after.total_conns ≡ lb.total_conns
  pub active_conns : after.active_conns ≡ lb.active_conns

Keeps-refl : (lb : Backend) → Keeps lb lb
Keeps-refl lb = record {
  address = refl;
  up = refl;
  status_since = refl;
  checks_ok = refl;
  checks_failed = refl;
  total_conns = refl;
  active_conns = refl;
}

Keeps-trans : {a b c : Backend} → Keeps a b → Keeps b c → Keeps a c
Keeps-trans p q = record {
  address = q.address ∙ p.address;
  up = q.up ∙ p.up;
  status_since = q.status_since ∙ p.status_since;
  checks_ok = q.checks_ok ∙ p.checks_ok;
  checks_failed = q.checks_failed ∙ p.checks_failed;
  total_conns = q.total_conns ∙ p.total_conns;
  active_conns = q.active_conns ∙ p.active_conns;
}

refit-Keeps : (c : Candidate) (lb : Backend) → Keeps lb (refit c lb)
unfolding refit
refit-Keeps c lb = elim (Bool-cases (is_blank c.bj.name)) [
  | inl blank ↦ rw blank (record {
    address = refl;
    up = refl;
    status_since = refl;
    checks_ok = refl;
    checks_failed = refl;
    total_conns = refl;
    active_conns = refl;
  })
  | inr named ↦ rw named (record {
    address = refl;
    up = refl;
    status_since = refl;
    checks_ok = refl;
    checks_failed = refl;
    total_conns = refl;
    active_conns = refl;
  })
]

get_elem?-append_left :
    (xs ys : List ℕ) (i : ℕ) {x : ℕ} → get_elem? xs i ≡ some x → get_elem? (xs ++ ys) i ≡ some x
get_elem?-append_left [] ys i e = cc
get_elem?-append_left (x ∷ xs) ys zero e = e
get_elem?-append_left (x ∷ xs) ys (suc i) e = get_elem?-append_left xs ys i e

get_elem?-snoc : (xs : List ℕ) (x : ℕ) → get_elem? (xs ++ x ∷ []) (length xs) ≡ some x
get_elem?-snoc [] x = refl
get_elem?-snoc (y ∷ xs) x = get_elem?-snoc xs x

-- One candidate placed: what it adds to the fleet.
pub record Adds (g h : Fleet) : Type 0 where
  pub fresh : g.fresh ≤ h.fresh
  pub kept : (a : ℕ) → a < g.fresh → Keeps (g.cells a) (h.cells a)
  pub before : (i x : ℕ) → get_elem? g.lb_list i ≡ some x → get_elem? h.lb_list i ≡ some x

Adds-trans : {g h f : Fleet} → Adds g h → Adds h f → Adds g f
Adds-trans {g} {h} {f} p q = record {
  fresh = omega (arith, p.fresh, q.fresh);
  kept = λ a lt. Keeps-trans (p.kept a lt) (q.kept a (omega (arith, p.fresh)));
  before = λ i x e. q.before i x (p.before i x e);
}

other_address : {a b : ℕ} → a < b → (a == b) ≡ false
other_address lt = ground arith

module _ (old : Dict ℕ) (now : ℤ) where
  place-Adds : (g : Fleet) (c : Candidate) → Adds g (place old now g c)
  unfolding place
  place-Adds g c = elim (Option-cases (lookup c.bj.ip old)) [
    | inl e ↦
        rw (e, place)
          (record {
            fresh = omega arith;
            kept = λ a lt. rw (other_address lt) (Keeps-refl (g.cells a));
            before = λ i x. get_elem?-append_left g.lb_list _ i;
          })
    | inr (b, e) ↦
        rw (e, place)
          (record {
            fresh = omega arith;
            kept = λ a lt. elim (Bool-cases (a == b)) [
              | inl same ↦ rw same (rw ((==_iff a b).0 same) (refit-Keeps c (g.cells b)))
              | inr other ↦ rw other (Keeps-refl (g.cells a))
            ];
            before = λ i x. get_elem?-append_left g.lb_list _ i;
          })
  ]

  place-length :
      (g : Fleet) (c : Candidate) → length (place old now g c).lb_list ≡ suc (length g.lb_list)
  unfolding place
  place-length g c = elim (Option-cases (lookup c.bj.ip old)) [
    | inl e ↦ rw (e, place) (omega (arith, length-append g.lb_list (g.fresh ∷ [])))
    | inr (b, e) ↦ rw (e, place) (omega (arith, length-append g.lb_list (b ∷ [])))
  ]

  pub place_all-Adds : (g : Fleet) (cands : List Candidate) → Adds g (place_all old now g cands)
  unfolding place_all
  place_all-Adds g [] = record {
    fresh = omega arith;
    kept = λ a lt. Keeps-refl (g.cells a);
    before = λ i x e. e;
  }
  place_all-Adds g (c ∷ cands) =
      Adds-trans (place-Adds g c) (place_all-Adds (place old now g c) cands)

  pub length-place_all :
      (g : Fleet) (cands : List Candidate)
      → length (place_all old now g cands).lb_list ≡ length g.lb_list + length cands
  unfolding place_all
  length-place_all g [] = omega arith
  length-place_all g (c ∷ cands) =
      omega (arith, place-length g c, length-place_all (place old now g c) cands)

  place-here :
      (g : Fleet) (c : Candidate) {a : ℕ}
      → lookup c.bj.ip old ≡ some a
      → get_elem? (place old now g c).lb_list (length g.lb_list) ≡ some a
  unfolding place
  place-here g c {a} e = rw (e, place) (get_elem?-snoc g.lb_list a)

  -- A candidate whose host is known gets the backend of that host.
  pub place_all-known :
      (g : Fleet) (cands : List Candidate) (k : ℕ) {c : Candidate} {a : ℕ}
      → get_elem? cands k ≡ some c
      → lookup c.bj.ip old ≡ some a
      → get_elem? (place_all old now g cands).lb_list (length g.lb_list + k) ≡ some a
  unfolding place_all
  place_all-known g [] k e l = cc
  place_all-known g (d ∷ cands) zero {c} {a} e l =
      let same : d ≡ c = cc e in
      let end : length g.lb_list + 0 ≡ length g.lb_list = omega arith in
      rw end (
        (place_all-Adds (place old now g d) cands).before (length g.lb_list) a
          (place-here g d (rw same l)))
  place_all-known g (d ∷ cands) (suc k) {c} {a} e l =
      subst (λ i. get_elem? (place_all old now (place old now g d) cands).lb_list i ≡ some a)
        (omega (arith, place-length g d)) (place_all-known (place old now g d) cands k e l)

-- The map `old` has the backend of a host that one backend alone has.
pub old_backends-entry :
    (cells : ℕ → Backend) (ip : Bytes) (a : ℕ) (l : List ℕ) (m : Dict ℕ)
    → ((j b : ℕ) → get_elem? l j ≡ some b → backend_ip (cells b) ≡ ip → b ≡ a)
    → (lookup ip m ≡ some a) ⊎ ((i : ℕ) × (get_elem? l i ≡ some a) × (backend_ip (cells a) ≡ ip))
    → lookup ip (old_backends cells l m) ≡ some a
unfolding old_backends
old_backends-entry cells ip a [] m only (inl e) = e
old_backends-entry cells ip a [] m only (inr (i, e, q)) = cc
old_backends-entry cells ip a (c ∷ l) m only h =
    old_backends-entry cells ip a l (insert (backend_ip (cells c)) c m)
      (λ j b e q. only (suc j) b e q) (next h)
  where
    here :
        lookup ip (insert (backend_ip (cells c)) c m)
        ≡ (if text_eq (backend_ip (cells c)) ip then some c else lookup ip m)
    here = lookup-insert (backend_ip (cells c)) ip c m

    next :
        (lookup ip m ≡ some a)
          ⊎ ((i : ℕ) × (get_elem? (c ∷ l) i ≡ some a) × (backend_ip (cells a) ≡ ip))
        → (lookup ip (insert (backend_ip (cells c)) c m) ≡ some a)
          ⊎ ((i : ℕ) × (get_elem? l i ≡ some a) × (backend_ip (cells a) ≡ ip))
    next o = elim (Bool-cases (text_eq (backend_ip (cells c)) ip)) [
      | inl same ↦ inl (
          here ∙ rw same (ap some (only 0 c refl ((text_eq_iff (backend_ip (cells c)) ip).0 same))))
      | inr other ↦ elim o [
        | inl e ↦ inl (here ∙ rw other e)
        | inr (zero, e, q) ↦
            let c≡a : c ≡ a = cc e in
            cc (
              other,
              (text_eq_iff (backend_ip (cells c)) ip).1 (ap (λ x. backend_ip (cells x)) c≡a ∙ q),
            )
        | inr (suc i, e, q) ↦ inr (i, e, q)
      ]
    ]
