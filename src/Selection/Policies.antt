-- ===== src/Selection/Policies.antt =====
-- Policy rules come before sticky sessions and round robin.
use luci_app_gowan.Common.{
  ℕ, ◌≡◌, refl, ap, ◌∙◌, true, false, some, List, [], ◌∷◌, ◌++◌, All, Bytes, get_elem?, is_blank,
}
use luci_app_gowan.Balancer.{returns}
use luci_app_gowan.Policy.{PolicyRule, Flow, matches, policy_wan}
use luci_app_gowan.Selection.{
  World, Request, Readings, request_flow, policy_backend, healthy_named, after_policy, pick_backend,
}
use luci_app_gowan.Selection.Found.{OnlyNamed, healthy_named_entry}

policy_wan-append :
    (before : List PolicyRule) (p : PolicyRule) (behind : List PolicyRule) (f : Flow)
    → All (λ q. matches q f ≡ false) before
    → matches p f ≡ true
    → policy_wan (before ++ (p ∷ behind)) f ≡ p.wan
unfolding policy_wan
policy_wan-append [] p behind f all m = rw m refl
policy_wan-append (q ∷ before) p behind f all m =
    rw all.0 (policy_wan-append before p behind f all.1 m)

policy_backend-named :
    (w : World) (f : Flow) (name : Bytes) {c : ℕ × ℕ}
    → policy_wan w.policy_rules f ≡ name
    → is_blank name ≡ false
    → healthy_named w.fleet name ≡ some c
    → policy_backend w f ≡ some c
unfolding policy_backend
policy_backend-named w f name e n h = rw (e, n) h

-- On a first attempt the first rule that matches pins the connection: if the backend that it names
-- is up, and no other entry has its name, that backend is handed out, and nothing changes, neither
-- the turns of the round robin nor the client's sticky mapping.
pub policy_pins :
    (w : World) (r : Request) (t : Readings) (before : List PolicyRule) (p : PolicyRule)
    (behind : List PolicyRule) (i a : ℕ)
    → w.policy_rules ≡ before ++ (p ∷ behind)
    → All (λ q. matches q (request_flow r) ≡ false) before
    → matches p (request_flow r) ≡ true
    → is_blank p.wan ≡ false
    → OnlyNamed w.fleet p.wan i
    → get_elem? w.fleet.lb_list i ≡ some a
    → (w.fleet.cells a).name ≡ p.wan
    → (w.fleet.cells a).up ≡ true
    → pick_backend w r [] t ≡ returns (w, some (a, i))
unfolding pick_backend
policy_pins w r t before p behind i a rules none_before m named only entry name up =
    let wan : policy_wan w.policy_rules (request_flow r) ≡ p.wan =
      ap (λ rs. policy_wan rs (request_flow r)) rules
      ∙ policy_wan-append before p behind (request_flow r) none_before m in
    let healthy : healthy_named w.fleet p.wan ≡ some (a, i) =
      rw (← name) (healthy_named_entry w.fleet i a (rw name only) entry up) in
    rw (policy_backend-named w (request_flow r) p.wan wan named healthy, after_policy) refl
