-- ===== src/Tests/Selection.antt =====
-- Picks for one client.
use luci_app_gowan.Common.{
  ℕ, ℤ, zero, suc, ◌≡◌, refl, inr, pos, true, false, some, [], ◌∷◌, arith, codes, ltb_ℤ, text_eq,
  lookup, insert, ap, sym, ◌∙◌, ◌+ℤ◌,
}
use luci_app_gowan.Balancer.{
  Backend, returns, get_load_balancer, pick_loop, active_tier, scan_tier, eligible, hand_out,
}
use luci_app_gowan.Balancer.Pick.{hand_out-DifferInTurns}
use luci_app_gowan.Policy.{PolicyRule, matches, rule_type, port_in, policy_wan}
use luci_app_gowan.Selection.{
  World, request_flow, policy_backend, round_robin_pick, sticky_lookup, sticky_remember,
  pick_backend,
}
use luci_app_gowan.Selection.Found.{OnlyNamed}
use luci_app_gowan.Selection.Sound.{Picked}
use luci_app_gowan.Selection.Picks.{pick_backend-Picked}
use luci_app_gowan.Selection.Affinity.{LastsUntil}
use luci_app_gowan.Selection.Recall.{sticky_affinity}
use luci_app_gowan.Selection.Policies.{policy_pins}
use luci_app_gowan.Tests.Sample.{two_wans, two_cells, world, at_time, from_client}

pick_backend-Picked_example :
    Picked (world []) (0 ∷ []) (pick_backend (world []) from_client (0 ∷ []) (at_time 5))
pick_backend-Picked_example =
    pick_backend-Picked (world []) from_client (0 ∷ []) (at_time 5) (inr (omega arith))

only_wan1 : OnlyNamed two_wans (codes "wan1") 0
only_wan1 zero b e n = refl
only_wan1 (suc zero) b e n = ground arith
only_wan1 (suc (suc j)) b e n = cc

only_wan2 : OnlyNamed two_wans (codes "wan2") 1
only_wan2 zero b e n = ground arith
only_wan2 (suc zero) b e n = refl
only_wan2 (suc (suc j)) b e n = cc

abbrev web : PolicyRule
web = record {
  ptype = codes "port";
  wan = codes "wan2";
  nets = [];
  ips = [];
  ports = record { lo = pos 443; hi = pos 443 } ∷ [];
  doms = [];
}

web-matches : matches web (request_flow from_client) ≡ true
unfolding matches rule_type port_in text_eq
web-matches = refl

policy_pins_example :
    pick_backend (world (web ∷ [])) from_client [] (at_time 5)
    ≡ returns (world (web ∷ []), some (1, 1))
policy_pins_example =
    policy_pins (world (web ∷ [])) from_client (at_time 5) [] web [] 1 1 refl tt web-matches refl
      only_wan2 refl refl refl

-- The world behind a first pick, at time 5, that hands out "wan1".
abbrev afterwards : World
afterwards = record (world []) {
  fleet = hand_out two_wans 0;
  sticky_map = (from_client.client_ip, record { name = codes "wan1"; expires = pos 305 }) ∷ [];
}

first_pick : pick_backend (world []) from_client [] (at_time 5) ≡ returns (afterwards, some (0, 0))
unfolding pick_backend policy_backend sticky_lookup lookup round_robin_pick get_load_balancer
    pick_loop active_tier scan_tier eligible sticky_remember insert policy_wan hand_out ◌+ℤ◌
first_pick = refl

only_afterwards : OnlyNamed afterwards.fleet (afterwards.fleet.cells 0).name 0
only_afterwards j b e n =
    let t = hand_out-DifferInTurns two_wans 0 in
    let same_name : (c : ℕ) → (afterwards.fleet.cells c).name ≡ (two_cells c).name =
      λ c. ap (λ (lb : Backend). lb.name) (t.same_cells c) in
    only_wan1 j b (rw t.same_list at e) (sym (same_name b) ∙ n ∙ same_name 0)

sticky_affinity_example :
    (x : World) × (pick_backend afterwards from_client [] (at_time 100) ≡ returns (x, some (0, 0)))
unfolding hand_out policy_backend policy_wan ◌+ℤ◌
sticky_affinity_example =
    sticky_affinity (world []) from_client (at_time 5) (inr (omega arith)) refl refl refl refl
      first_pick afterwards from_client (at_time 100) 0 refl refl refl refl lasts only_afterwards
      refl refl refl
  where
    lasts : (e : ℤ) → LastsUntil (world []) (at_time 5) e → ltb_ℤ e (pos 100) ≡ false
    lasts e h = ground (arith, h)
