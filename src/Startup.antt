-- ===== src/Startup.antt =====
-- The start of the program in gowan/src/main.go: of `main`, the checks of the flags and the order in
-- which the parts are set up, with `reload_policies` of gowan/src/reload.go. `log.Fatal` ends the
-- program and is none. The interfaces, the files' contents and the clock are given.
pub mod Args
pub mod Backends
pub mod Ready
use luci_app_gowan.Common.{
  ℕ, suc, ◌+◌, ◌-◌, ◌*◌, ◌%◌, ℤ, pos, negsuc, negate, leb_ℤ, ltb_ℤ, eq_ℤ, leb, u64, int_max, Bool,
  true, false, not, ◌&&◌, ◌||◌, Option, none, some, List, [], ◌∷◌, ◌++◌, map, Bytes, codes,
  is_blank, text_eq, split, atoi, ◌==◌, if◌then◌else◌,
}
use luci_app_gowan.Net.{is_ipv4}
use luci_app_gowan.Net.Print.{quad, host_port}
use luci_app_gowan.Balancer.{Backend, Fleet, update}
use luci_app_gowan.Policy.{PolicyJson, PolicyRule, set_policies}
use luci_app_gowan.Selection.{World, configure_sticky}
use luci_app_gowan.Checkers.{CheckConfig, Watch, start_health_checks}
use luci_app_gowan.Reload.{BackendJson, seconds, apply_backends}
use luci_app_gowan.Reload.Signal.{load_backends_file, reload_policies}
use luci_app_gowan.Socks.{Credentials}
use luci_app_gowan.Startup.Args.{Interface, get_iface_from_ip, parse_load_balancers}

-- The flags that the parts below depend on.
pub record Flags : Type 0 where
  pub lhost : Bytes
  pub lport : ℤ
  pub tunnel : Bool
  pub check_type : Bytes
  pub check_target : Bytes
  pub check_interval : ℤ
  pub check_timeout : ℤ
  pub check_fail : ℤ
  pub check_rise : ℤ
  pub transparent_port : ℤ
  pub transparent_udp_port : ℤ
  pub backends_path : Bytes
  pub policy_path : Bytes
  pub sticky : Bool
  pub sticky_timeout : ℤ
  pub auth_u : Bytes
  pub auth_p : Bytes

abbrev is_port : ℤ → Bool
is_port p = leb_ℤ (pos 0) p && leb_ℤ p (pos 65535)

abbrev known_check : Bytes → Bool
known_check t = text_eq t (codes "none") || text_eq t (codes "tcp") || text_eq t (codes "http")

-- No check of the flags ends the program.
unfoldable pub flags_ok : Flags → Bool
flags_ok f =
    is_ipv4 f.lhost
    && leb_ℤ (pos 1) f.lport
    && leb_ℤ f.lport (pos 65535)
    && is_port f.transparent_port
    && not (eq_ℤ f.transparent_port f.lport)
    && (eq_ℤ f.transparent_port (pos 0) || not f.tunnel)
    && is_port f.transparent_udp_port
    && (eq_ℤ f.transparent_udp_port (pos 0) || not f.tunnel)
    && known_check f.check_type
    && (is_blank f.backends_path || not f.tunnel)

-- `time.Duration(n) * time.Second`, in nanoseconds, with int64's wrap.
unfoldable pub duration : ℤ → ℤ
unfolding seconds
duration (pos n) = seconds n
duration (negsuc n) =
    let m = (suc n * 1000000000) % u64 in if leb m (suc int_max) then negate m else pos (u64 - m)

-- Health checks are off in tunnel mode.
unfoldable pub global_check_cfg : Flags → CheckConfig
unfolding duration
global_check_cfg f = record {
  ctype = if f.tunnel then codes "none" else f.check_type;
  target = f.check_target;
  interval = duration f.check_interval;
  timeout = duration f.check_timeout;
  fail = f.check_fail;
  rise = f.check_rise;
}

-- What is read from outside. Of a file it is what was decoded, none for an error.
pub record Given : Type 0 where
  pub args : List Bytes
  pub ifaces : List Interface
  pub clock : ℕ → ℤ
  pub backends_file : Option (List BackendJson)
  pub policy_file : Option (List PolicyJson)

backends_from_file : Flags → Given → Watch → Option (List BackendJson) → Option Watch
backends_from_file f x w none = none
backends_from_file f x w (some list) =
    let (v, n) =
      apply_backends (get_iface_from_ip x.ifaces) (global_check_cfg f) (x.clock 0) w list in
    if n == 0 then none else some v

backends_from_args : Flags → Given → Watch → Option Fleet → Option Watch
backends_from_args f x w none = none
backends_from_args f x w (some g) =
    some (start_health_checks (record w { fleet = g }) (map (λ _. global_check_cfg f) g.lb_list))

unfoldable pub start_backends : Flags → Given → Watch → Option Watch
unfolding backends_from_file backends_from_args parse_load_balancers global_check_cfg
    load_backends_file
start_backends f x w =
    if is_blank f.backends_path
    then backends_from_args f x w (parse_load_balancers x.args f.tunnel x.ifaces x.clock w.fleet)
    else backends_from_file f x w (load_backends_file x.backends_file)

-- The variables of the program once it is set up.
pub record Program : Type 0 where
  pub watch : Watch
  pub world : World
  pub auth : Credentials

set_up : Flags → Given → World → Watch → Program
unfolding reload_policies
set_up f x w watch = record {
  watch = watch;
  world =
      let v =
        configure_sticky (record w { fleet = watch.fleet }) f.sticky (duration f.sticky_timeout) in
      record v { policy_rules = reload_policies f.policy_path x.policy_file v.policy_rules };
  auth = record { user = f.auth_u; pass = f.auth_p };
}

unfoldable pub start_up : Flags → Given → Watch → World → Option Program
unfolding start_backends flags_ok set_up
start_up f x watch w =
    if not (flags_ok f)
    then none
    else elim (start_backends f x watch) [ none ↦ none | some v ↦ some (set_up f x w v) ]
