-- ===== src/Reload/Outcome.antt =====
-- What `apply_backends` comes to.
use luci_app_gowan.Common.{
  ℕ, ◌+◌, ◌<◌, ℤ, ◌≡◌, refl, subst, ◌∙◌, ◌≢◌, ◌⊎◌, inl, inr, Option, none, some, List, [], ◌∷◌,
  arith, Bytes, length, get_elem?, Bool-cases,
}
use luci_app_gowan.Balancer.{Fleet}
use luci_app_gowan.Checkers.{
  CheckConfig, Watch, is_checked, add_checker, add_checkers, start_health_checks,
}
use luci_app_gowan.Reload.{
  BackendJson, Candidate, candidates, backend_ip, old_backends, new_fleet, apply_backends,
}
use luci_app_gowan.Reload.Survivors.{
  Keeps, place_all-Adds, length-place_all, place_all-known, old_backends-entry,
}

-- The listed backend `a` alone has the host `ip`.
abbrev pub IsSoleHost : Fleet → Bytes → ℕ → Type 0
IsSoleHost g ip a =
    ((i : ℕ) × (get_elem? g.lb_list i ≡ some a) × (backend_ip (g.cells a) ≡ ip))
    × ((j b : ℕ) → get_elem? g.lb_list j ≡ some b → backend_ip (g.cells b) ≡ ip → b ≡ a)

-- A fleet `h` that replaces `g` with the candidates `cands`.
pub record Reloads (g : Fleet) (cands : List Candidate) (h : Fleet) : Type 0 where
  pub count : length h.lb_list ≡ length cands
  pub index : h.lb_index ≡ 0
  pub kept : (a : ℕ) → a < g.fresh → Keeps (g.cells a) (h.cells a)
  pub survives :
      (k a : ℕ) {c : Candidate}
      → get_elem? cands k ≡ some c
      → IsSoleHost g c.bj.ip a
      → get_elem? h.lb_list k ≡ some a

new_fleet-Reloads :
    (now : ℤ) (g : Fleet) (cands : List Candidate) → Reloads g cands (new_fleet now g cands)
unfolding new_fleet
new_fleet-Reloads now g cands =
    let old = old_backends g.cells g.lb_list [] in
    let adds = place_all-Adds old now (record g { lb_list = [] }) cands in
    record {
      count = omega (arith, length-place_all old now (record g { lb_list = [] }) cands);
      index = refl;
      kept = adds.kept;
      survives = λ k a e (entry, only).
          let shift : 0 + k ≡ k = omega arith in
          subst (λ i. get_elem? (new_fleet now g cands).lb_list i ≡ some a) shift
            (place_all-known old now (record g { lb_list = [] }) cands k e
              (old_backends-entry g.cells _ a g.lb_list [] only (inr entry)));
    }

add_checker-fleet :
    (w : Watch) (a : ℕ) (o : Option CheckConfig) → (add_checker w a o).fleet ≡ w.fleet
unfolding add_checker
add_checker-fleet w a none = refl
add_checker-fleet w a (some c) = elim (Bool-cases (is_checked c)) [
  | inl on ↦ rw on refl
  | inr off ↦ rw off refl
]

add_checkers-fleet :
    (w : Watch) (l : List ℕ) (cfgs : List CheckConfig) → (add_checkers w l cfgs).fleet ≡ w.fleet
unfolding add_checkers
add_checkers-fleet w [] cfgs = refl
add_checkers-fleet w (a ∷ l) [] =
    add_checkers-fleet (add_checker w a none) l [] ∙ add_checker-fleet w a none
add_checkers-fleet w (a ∷ l) (c ∷ cfgs) =
    add_checkers-fleet (add_checker w a (some c)) l cfgs ∙ add_checker-fleet w a (some c)

pub start_health_checks-fleet :
    (w : Watch) (cfgs : List CheckConfig) → (start_health_checks w cfgs).fleet ≡ w.fleet
unfolding start_health_checks
start_health_checks-fleet w cfgs =
    add_checkers-fleet (record w { checkers = [] }) w.fleet.lb_list cfgs

-- A reload with no usable entry changes nothing and returns 0. Any other returns the number of its
-- usable entries, which is not 0, lists as many backends with `lb_index` at 0, and keeps the verdict
-- and the counters of every backend that was there, listed or not; an entry whose host a single
-- listed backend has goes on with that backend, at the entry's place.
pub apply_backends-Reloads :
    (iface_of : Bytes → Bytes) (global : CheckConfig) (now : ℤ) (w : Watch)
    (list : List BackendJson)
    → ((candidates iface_of list ≡ []) × (apply_backends iface_of global now w list ≡ (w, 0)))
      ⊎ (((apply_backends iface_of global now w list).1 ≢ 0)
          × ((apply_backends iface_of global now w list).1 ≡ length (candidates iface_of list))
          × Reloads w.fleet
              (candidates iface_of list)
              (apply_backends iface_of global now w list).0.fleet)
unfolding apply_backends
apply_backends-Reloads iface_of global now w list = by_candidates (candidates iface_of list) refl
  where
    by_candidates :
        (cands : List Candidate)
        → candidates iface_of list ≡ cands
        → ((candidates iface_of list ≡ []) × (apply_backends iface_of global now w list ≡ (w, 0)))
          ⊎ (((apply_backends iface_of global now w list).1 ≢ 0)
              × ((apply_backends iface_of global now w list).1 ≡ length (candidates iface_of list))
              × Reloads w.fleet
                  (candidates iface_of list)
                  (apply_backends iface_of global now w list).0.fleet)
    by_candidates [] e = inl (e, rw (e, apply_backends) refl)
    by_candidates (c ∷ cands) e =
        let r = new_fleet-Reloads now w.fleet (c ∷ cands) in
        rw (e, apply_backends)
          (inr (λ z. ground (arith, r.count, z), r.count, rw (start_health_checks-fleet _ _) r))
