-- ===== src/Tests/Startup.antt =====
-- A start with two backends on the command line.
use luci_app_gowan.Common.{
  ◌≡◌, refl, pos, true, false, none, some, [], ◌∷◌, map, arith, codes, length, itoa, emit, text_eq,
  split, decimal,
}
use luci_app_gowan.Net.{parse_ip, is_ipv4}
use luci_app_gowan.Net.Print.{quad}
use luci_app_gowan.Balancer.Fairness.{IsRoundStart}
use luci_app_gowan.Checkers.{HealthChecker, Watch}
use luci_app_gowan.Startup.{Flags, Given, Program, flags_ok, start_up}
use luci_app_gowan.Startup.Args.{v4, Interface, get_iface_from_ip}
use luci_app_gowan.Startup.Backends.{Spec, spelled, IsSpec}
use luci_app_gowan.Startup.Ready.{start_up-IsRoundStart}
use luci_app_gowan.Tests.Sample.{world, two_cells}

abbrev flags : Flags
flags = record {
  lhost = codes "127.0.0.1";
  lport = pos 8080;
  tunnel = false;
  check_type = codes "tcp";
  check_target = codes "8.8.8.8:53";
  check_interval = pos 30;
  check_timeout = pos 5;
  check_fail = pos 3;
  check_rise = pos 2;
  transparent_port = pos 0;
  transparent_udp_port = pos 0;
  backends_path = [];
  policy_path = [];
  sticky = true;
  sticky_timeout = pos 300;
  auth_u = [];
  auth_p = [];
}

abbrev wan1 : Spec
wan1 = record { a = 10; b = 0; c = 1; d = 51; weight = 2 }

abbrev wan2 : Spec
wan2 = record { a = 10; b = 0; c = 2; d = 52; weight = 1 }

abbrev eth1 : Interface
eth1 = record { name = codes "eth1"; is_up = true; is_loopback = false; addrs = v4 10 0 1 51 ∷ [] }

abbrev eth2 : Interface
eth2 = record { name = codes "eth2"; is_up = true; is_loopback = false; addrs = v4 10 0 2 52 ∷ [] }

abbrev given : Given
given = record {
  args = map spelled (wan1 ∷ wan2 ∷ []);
  ifaces = eth1 ∷ eth2 ∷ [];
  clock = λ k. pos 100;
  backends_file = none;
  policy_file = none;
}

abbrev no_checker : HealthChecker
no_checker = record {
  lb = 0;
  cfg = record {
    ctype = [];
    target = [];
    interval = pos 0;
    timeout = pos 0;
    fail = pos 1;
    rise = pos 1;
  };
  state = record {
    fail_threshold = pos 1;
    rise_threshold = pos 1;
    up = true;
    consec_fail = pos 0;
    consec_ok = pos 0;
  };
  stopped = true;
}

abbrev watch : Watch
watch = record {
  fleet = record { cells = two_cells; fresh = 2; lb_list = []; lb_index = 0 };
  checker_cells = λ h. no_checker;
  fresh_checker = 0;
  checkers = [];
}

flags_pass : flags_ok flags ≡ true
unfolding flags_ok is_ipv4 parse_ip text_eq split decimal
flags_pass = refl

wan1-IsSpec : IsSpec given.ifaces wan1
unfolding get_iface_from_ip quad itoa emit text_eq
wan1-IsSpec = record {
  a_ok = omega arith;
  b_ok = omega arith;
  c_ok = omega arith;
  d_ok = omega arith;
  positive = omega arith;
  small = omega arith;
  local = refl;
}

wan2-IsSpec : IsSpec given.ifaces wan2
unfolding get_iface_from_ip quad itoa emit text_eq
wan2-IsSpec = record {
  a_ok = omega arith;
  b_ok = omega arith;
  c_ok = omega arith;
  d_ok = omega arith;
  positive = omega arith;
  small = omega arith;
  local = refl;
}

start_up-IsRoundStart_example :
    (p : Program) × (start_up flags given watch (world []) ≡ some p)
    × (length p.world.fleet.lb_list ≡ 2)
    × (p.world.fleet.lb_index ≡ 0)
    × IsRoundStart p.world.fleet
    × (p.watch.fleet ≡ p.world.fleet)
start_up-IsRoundStart_example =
    start_up-IsRoundStart flags given watch (world []) wan1 (wan2 ∷ []) flags_pass refl refl refl
      (wan1-IsSpec, (wan2-IsSpec, tt)) refl
