-- ===== src/Selection/Recall.antt =====
-- Sticky sessions: the next connection of a client goes where its last one went.
use luci_app_gowan.Common.{
  ℕ, ℤ, ◌≡◌, refl, ap, true, false, Option, none, some, [], Bytes, get_elem?, ltb_ℤ, lookup,
  is_blank,
}
use luci_app_gowan.Balancer.{returns}
use luci_app_gowan.Balancer.Choice.{IsReady}
use luci_app_gowan.Selection.{
  World, Request, Readings, StickyEntry, request_flow, policy_backend, sticky_lookup, healthy_named,
  check_mapping, use_mapping, remember_name, after_lookup, after_policy, pick_backend,
}
use luci_app_gowan.Selection.Found.{OnlyNamed, healthy_named_entry}
use luci_app_gowan.Selection.Affinity.{LastsUntil, pick_backend-MapsTo}

-- A mapping that lasts, to a backend that is up, decides.
sticky_lookup_hit :
    (u : World) (client : Bytes) (t : Readings) {s : StickyEntry} {c : ℕ × ℕ}
    → is_blank client ≡ false
    → u.sticky_enabled ≡ true
    → lookup client u.sticky_map ≡ some s
    → ltb_ℤ s.expires t.at_check ≡ false
    → healthy_named u.fleet s.name ≡ some c
    → sticky_lookup u client t ≡ (remember_name u client s.name t.at_refresh, some c)
unfolding sticky_lookup check_mapping use_mapping
sticky_lookup_hit u client t {s} known on e valid h =
    rw (known, on, e) (rw (valid) (rw (h, use_mapping) refl))

pick_backend_hit :
    (u : World) (r : Request) (t : Readings) {s : StickyEntry} {c : ℕ × ℕ}
    → policy_backend u (request_flow r) ≡ none
    → is_blank r.client_ip ≡ false
    → u.sticky_enabled ≡ true
    → lookup r.client_ip u.sticky_map ≡ some s
    → ltb_ℤ s.expires t.at_check ≡ false
    → healthy_named u.fleet s.name ≡ some c
    → pick_backend u r [] t ≡ returns (remember_name u r.client_ip s.name t.at_refresh, some c)
unfolding pick_backend after_policy after_lookup
pick_backend_hit u r t no_policy known on e valid h =
    rw (no_policy, after_policy)
      (ap (λ (p : World × Option (ℕ × ℕ)). after_lookup p r.client_ip t)
        (sticky_lookup_hit u r.client_ip t known on e valid h))

-- Session affinity. Let a first pick for a client hand out the backend `a`, with sticky sessions on,
-- no policy that decides, and names for the client and the backend. Let a later pick for the client
-- see the mappings that the first one left and read the clock before the mapping that it made
-- expires. If no policy decides then either, and `a` stands at the index `j` of the list of that
-- time, is up and has its old name, which no other entry has, the later pick hands out `a` at `j`.
pub sticky_affinity :
    (w : World) (r : Request) (t : Readings) {v : World} {a i : ℕ}
    → IsReady w.fleet
    → policy_backend w (request_flow r) ≡ none
    → is_blank r.client_ip ≡ false
    → w.sticky_enabled ≡ true
    → is_blank (w.fleet.cells a).name ≡ false
    → pick_backend w r [] t ≡ returns (v, some (a, i))
    → (u : World) (q : Request) (t' : Readings) (j : ℕ) → q.client_ip ≡ r.client_ip
    → u.sticky_map ≡ v.sticky_map
    → u.sticky_enabled ≡ true
    → policy_backend u (request_flow q) ≡ none
    → ((e : ℤ) → LastsUntil w t e → ltb_ℤ e t'.at_check ≡ false)
    → OnlyNamed u.fleet (u.fleet.cells a).name j
    → get_elem? u.fleet.lb_list j ≡ some a
    → (u.fleet.cells a).up ≡ true
    → (u.fleet.cells a).name ≡ (w.fleet.cells a).name
    → (x : World) × (pick_backend u q [] t' ≡ returns (x, some (a, j)))
sticky_affinity w r t {v} {a} ready no_policy known on named run u q t' j same_client same_map on'
      no_policy' lasts only entry up same_name =
    let (e, until, m) = pick_backend-MapsTo w r t ready no_policy known on named run in
    let s : StickyEntry = record { name = (w.fleet.cells a).name; expires = e } in
    let found : lookup q.client_ip u.sticky_map ≡ some s = rw (same_client, same_map) m in
    let healthy : healthy_named u.fleet s.name ≡ some (a, j) =
      rw (← same_name) (healthy_named_entry u.fleet j a only entry up) in
    (
      remember_name u q.client_ip s.name t'.at_refresh,
      pick_backend_hit u q t' {s = s} no_policy' (rw same_client known) on' found (lasts e until)
          healthy,
    )
