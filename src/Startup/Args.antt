-- ===== src/Startup/Args.antt =====
-- The backends of the command line in gowan/src/main.go: `get_iface_from_ip` and
-- `parse_load_balancers`. `log.Fatal` ends the program and is none. The interfaces and the clock are
-- given.
use luci_app_gowan.Common.{
  ℕ, suc, ℤ, pos, negsuc, leb_ℤ, ltb_ℤ, int_max, Bool, true, false, not, ◌&&◌, ◌||◌, Option, none,
  some, List, [], ◌∷◌, ◌++◌, Bytes, is_blank, text_eq, split, atoi, ◌==◌, if◌then◌else◌,
}
use luci_app_gowan.Net.{is_ipv4}
use luci_app_gowan.Net.Print.{quad, host_port}
use luci_app_gowan.Balancer.{Backend, Fleet, update}

-- An address of an interface: an IPv4 network's, or anything else.
pub data Addr : Type 0 where
  v4 : (a b c d : ℕ) → Addr
  other : Addr

pub record Interface : Type 0 where
  pub name : Bytes
  pub is_up : Bool
  pub is_loopback : Bool
  pub addrs : List Addr

-- The address is not a loopback address, and its text is `ip`.
has_text : Bytes → Addr → Bool
has_text ip other = false
has_text ip (v4 a b c d) = not (a == 127) && text_eq (quad a b c d) ip

any_has_text : Bytes → List Addr → Bool
unfolding has_text
any_has_text ip [] = false
any_has_text ip (x ∷ addrs) = has_text ip x || any_has_text ip addrs

unfoldable pub get_iface_from_ip : List Interface → Bytes → Bytes
unfolding any_has_text
get_iface_from_ip [] ip = []
get_iface_from_ip (i ∷ ifaces) ip =
    let rest = get_iface_from_ip ifaces ip in
    if i.is_up && not i.is_loopback && any_has_text ip i.addrs then i.name else rest

-- `err != nil || n <= 0 || n > most`
in_range : ℤ → Option ℤ → Option ℤ
in_range most none = none
in_range most (some n) = if leb_ℤ n (pos 0) || ltb_ℤ most n then none else some n

unfoldable pub contention_ratio_of : List Bytes → Option ℤ
unfolding in_range
contention_ratio_of [] = some (pos 1)
contention_ratio_of (r ∷ rest) = in_range (pos int_max) (atoi r)

-- In tunnel mode: a host and a port, and no interface.
tunnel_address : List Bytes → Option (Bytes × Bytes × ℤ)
unfolding in_range
tunnel_address (host ∷ port ∷ []) = elim (in_range (pos 65535) (atoi port)) [
  | none ↦ none
  | some p ↦ some (host, [], p)
]
tunnel_address [] = none
tunnel_address (host ∷ []) = none
tunnel_address (host ∷ port ∷ more ∷ rest) = none

-- Else an IPv4 address of an interface.
local_address : List Interface → Bytes → Option (Bytes × Bytes × ℤ)
unfolding get_iface_from_ip
local_address ifaces ip =
    if not (is_ipv4 ip) || is_blank (get_iface_from_ip ifaces ip)
    then none
    else some (ip, get_iface_from_ip ifaces ip, pos 0)

-- `fmt.Sprintf("%s:%d", …)` of a port, which is not negative.
abbrev address_text : Bytes → ℤ → Bytes
address_text host (pos p) = host_port host p
address_text host (negsuc p) = host

backend_at : Option (Bytes × Bytes × ℤ) → Option ℤ → ℤ → Option Backend
backend_at none ratio now = none
backend_at (some x) none now = none
backend_at (some (host, iface, port)) (some ratio) now = some (record {
  name = host;
  address = address_text host port;
  iface = iface;
  contention_ratio = ratio;
  metric = pos 0;
  current_connections = pos 0;
  up = true;
  status_since = now;
  checks_ok = 0;
  checks_failed = 0;
  total_conns = 0;
  active_conns = pos 0;
})

-- One argument, split at "@"; `strings.Split` gives at least one part.
unfoldable pub parse_parts : Bool → List Interface → ℤ → List Bytes → Option Backend
unfolding tunnel_address local_address contention_ratio_of backend_at
parse_parts tunnel ifaces now [] = none
parse_parts tunnel ifaces now (spec ∷ rest) =
    backend_at (if tunnel then tunnel_address (split b':' spec) else local_address ifaces spec)
      (contention_ratio_of rest) now

append_backend : Option Backend → Option (List Backend) → Option (List Backend)
append_backend none bs = none
append_backend (some b) none = none
append_backend (some b) (some bs) = some (b ∷ bs)

-- The loop over the arguments from the index `k` on.
unfoldable pub parse_all : Bool → List Interface → (ℕ → ℤ) → ℕ → List Bytes → Option (List Backend)
unfolding parse_parts append_backend
parse_all tunnel ifaces clock k [] = some []
parse_all tunnel ifaces clock k (a ∷ args) =
    append_backend (parse_parts tunnel ifaces (clock k) (split b'@' a))
      (parse_all tunnel ifaces clock (suc k) args)

unfoldable pub allocate : Fleet → List Backend → Fleet
allocate g [] = g
allocate g (b ∷ bs) =
    allocate
      (record g {
        cells = update g.cells g.fresh b;
        fresh = suc g.fresh;
        lb_list = g.lb_list ++ g.fresh ∷ [];
      })
      bs

unfoldable pub parse_load_balancers :
    List Bytes → Bool → List Interface → (ℕ → ℤ) → Fleet → Option Fleet
unfolding parse_all allocate
parse_load_balancers [] tunnel ifaces clock g = none
parse_load_balancers (a ∷ args) tunnel ifaces clock g =
    elim (parse_all tunnel ifaces clock 0 (a ∷ args)) [
      | none ↦ none
      | some bs ↦ some (allocate (record g { lb_list = [] }) bs)
    ]
