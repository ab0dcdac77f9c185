-- ===== src/Selection.antt =====
-- Backend selection of gowan/src/selection.go: `policy_backend`, the sticky sessions
-- (`configure_sticky`, `sticky_lookup`, `sticky_remember`) and `pick_backend`, which layers both
-- over the round robin. A call is one step; each reading of the clock is an argument.
pub mod Found
pub mod Sound
pub mod Lookups
pub mod Picks
pub mod Affinity
pub mod Recall
pub mod Policies
use luci_app_gowan.Common.{
  ℕ, suc, ℤ, ◌+ℤ◌, Bool, true, false, not, ◌&&◌, ◌||◌, Option, none, some, List, [], ◌∷◌, Bytes,
  text_eq, Dict, lookup, insert, delete, ltb_ℤ, if◌then◌else◌, get_elem?, is_blank,
}
use luci_app_gowan.Net.{parse_ip}
use luci_app_gowan.Policy.{PolicyRule, Flow, policy_wan}
use luci_app_gowan.Balancer.{Backend, Fleet, Run, panics, returns, get_load_balancer}

pub record StickyEntry : Type 0 where
  pub name : Bytes
  pub expires : ℤ

-- The package's variables that selection reads and writes.
pub record World : Type 0 where
  pub fleet : Fleet
  pub policy_rules : List PolicyRule
  pub sticky_enabled : Bool
  pub sticky_ttl : ℤ
  pub sticky_map : Dict StickyEntry

-- What `time.Now()` gives where a call reads it: the check for expiry, the refresh of a mapping in
-- use, and the mapping that is remembered.
pub record Readings : Type 0 where
  pub at_check : ℤ
  pub at_refresh : ℤ
  pub at_remember : ℤ

-- The first backend of the given name that is up, with its index; `i` counts the entries passed.
unfoldable pub find_named : (ℕ → Backend) → Bytes → ℕ → List ℕ → Option (ℕ × ℕ)
find_named cells name i [] = none
find_named cells name i (a ∷ rest) =
    let later = find_named cells name (suc i) rest in
    if text_eq (cells a).name name && (cells a).up then some (a, i) else later

abbrev pub healthy_named : Fleet → Bytes → Option (ℕ × ℕ)
healthy_named g name = find_named g.cells name 0 g.lb_list

-- The flow that the rules see: addresses are parsed, and are nil where the text is no address.
abbrev pub flow_of : Bytes → Bytes → Bytes → ℤ → Flow
flow_of client dest host port = record {
  client = parse_ip client;
  dest = parse_ip dest;
  host = host;
  dest_port = port;
}

unfoldable pub policy_backend : World → Flow → Option (ℕ × ℕ)
policy_backend w f =
    let wan = policy_wan w.policy_rules f in
    if is_blank wan then none else healthy_named w.fleet wan

unfoldable pub configure_sticky : World → Bool → ℤ → World
configure_sticky w enabled ttl = record w {
  sticky_enabled = enabled;
  sticky_ttl = ttl;
  sticky_map = if enabled then w.sticky_map else [];
}

remember_name : World → Bytes → Bytes → ℤ → World
remember_name w client name now = record w {
  sticky_map = insert client (record { name = name; expires = now +ℤ w.sticky_ttl }) w.sticky_map;
}

-- A mapping that has not expired: use it if its backend is up, and refresh it then.
use_mapping : World → Bytes → Bytes → ℤ → Option (ℕ × ℕ) → World × Option (ℕ × ℕ)
unfolding remember_name
use_mapping w client name now none = (w, none)
use_mapping w client name now (some c) = (remember_name w client name now, some c)

check_mapping : World → Bytes → Readings → Option StickyEntry → World × Option (ℕ × ℕ)
unfolding use_mapping
check_mapping w client t none = (w, none)
check_mapping w client t (some e) =
    if ltb_ℤ e.expires t.at_check
    then (record w { sticky_map = delete client w.sticky_map }, none)
    else use_mapping w client e.name t.at_refresh (healthy_named w.fleet e.name)

unfoldable pub sticky_lookup : World → Bytes → Readings → World × Option (ℕ × ℕ)
unfolding check_mapping
sticky_lookup w client t =
    if is_blank client || not w.sticky_enabled
    then (w, none)
    else check_mapping w client t (lookup client w.sticky_map)

-- The name of the backend at an index; empty out of range.
abbrev pub name_at : Fleet → ℕ → Bytes
name_at g i = elim (get_elem? g.lb_list i) [ none ↦ [] | some a ↦ (g.cells a).name ]

unfoldable pub sticky_remember : World → Bytes → ℕ → ℤ → World
unfolding remember_name
sticky_remember w client i now =
    if is_blank client || not w.sticky_enabled || is_blank (name_at w.fleet i)
    then w
    else remember_name w client (name_at w.fleet i) now

-- `get_load_balancer(tried)` on the fleet of a world.
unfoldable pub round_robin_pick : World → List ℕ → Run (World × Option (ℕ × ℕ))
round_robin_pick w tried = elim (get_load_balancer w.fleet (some tried)) [
  | panics ↦ panics
  | returns (g, c) ↦ returns (record w { fleet = g }, c)
]

-- Round robin, with the choice remembered for the client.
pick_and_remember : World → Bytes → ℤ → Run (World × Option (ℕ × ℕ))
unfolding round_robin_pick sticky_remember
pick_and_remember w client now = elim (round_robin_pick w []) [
  | panics ↦ panics
  | returns (v, none) ↦ returns (v, none)
  | returns (v, some (a, i)) ↦ returns (sticky_remember v client i now, some (a, i))
]

after_lookup : World × Option (ℕ × ℕ) → Bytes → Readings → Run (World × Option (ℕ × ℕ))
unfolding pick_and_remember
after_lookup (w, some c) client t = returns (w, some c)
after_lookup (w, none) client t = pick_and_remember w client t.at_remember

after_policy : Option (ℕ × ℕ) → World → Bytes → Readings → Run (World × Option (ℕ × ℕ))
unfolding after_lookup sticky_lookup
after_policy (some c) w client t = returns (w, some c)
after_policy none w client t = after_lookup (sticky_lookup w client t) client t

-- The arguments of a call of `pick_backend` that stay the same while a connection is dialled.
pub record Request : Type 0 where
  pub client_ip : Bytes
  pub dest_ip : Bytes
  pub dest_host : Bytes
  pub dest_port : ℤ

abbrev pub request_flow : Request → Flow
request_flow r = flow_of r.client_ip r.dest_ip r.dest_host r.dest_port

unfoldable pub pick_backend : World → Request → List ℕ → Readings → Run (World × Option (ℕ × ℕ))
unfolding round_robin_pick policy_backend after_policy
pick_backend w r (i ∷ is) t = round_robin_pick w (i ∷ is)
pick_backend w r [] t = after_policy (policy_backend w (request_flow r)) w r.client_ip t
