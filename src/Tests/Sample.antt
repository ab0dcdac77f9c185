-- ===== src/Tests/Sample.antt =====
-- Two backends, "wan1" with weight 2 and "wan2" with weight 1, and a world around them.
use luci_app_gowan.Common.{ℕ, ℤ, pos, Bool, true, Bytes, codes, List, [], ◌∷◌, ◌==◌, if◌then◌else◌}
use luci_app_gowan.Balancer.{Backend, Fleet}
use luci_app_gowan.Policy.{PolicyRule}
use luci_app_gowan.Selection.{World, Readings, Request}

abbrev pub backend : Bytes → Bytes → Bytes → ℤ → Bool → Backend
backend name address iface ratio up = record {
  name = name;
  address = address;
  iface = iface;
  contention_ratio = ratio;
  metric = pos 0;
  current_connections = pos 0;
  up = up;
  status_since = pos 0;
  checks_ok = 0;
  checks_failed = 0;
  total_conns = 0;
  active_conns = pos 0;
}

abbrev pub wan1 : Backend
wan1 = backend (codes "wan1") (codes "10.0.1.51:0") (codes "eth1") (pos 2) true

abbrev pub wan2 : Backend
wan2 = backend (codes "wan2") (codes "10.0.2.52:0") (codes "eth2") (pos 1) true

abbrev pub two_cells : ℕ → Backend
two_cells a = if a == 0 then wan1 else wan2

abbrev pub two_wans : Fleet
two_wans = record { cells = two_cells; fresh = 2; lb_list = 0 ∷ 1 ∷ []; lb_index = 0 }

abbrev pub world : List PolicyRule → World
world rules = record {
  fleet = two_wans;
  policy_rules = rules;
  sticky_enabled = true;
  sticky_ttl = pos 300;
  sticky_map = [];
}

abbrev pub at_time : ℕ → Readings
at_time t = record { at_check = pos t; at_refresh = pos t; at_remember = pos t }

abbrev pub from_client : Request
from_client = record {
  client_ip = codes "10.0.1.100";
  dest_ip = codes "203.0.113.9";
  dest_host = [];
  dest_port = pos 443;
}
