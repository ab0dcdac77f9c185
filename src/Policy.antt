-- ===== src/Policy.antt =====
-- The policy rules of gowan/src/selection.go: `policy_rule`, `set_policies`, `parse_port_range`,
-- `ip_in`, `domain_match`, `matches`, and the choice of a rule in `policy_backend`.
pub mod Domain
pub mod Tokens
pub mod Rules
use luci_app_gowan.Common.{
  ℕ, ℤ, pos, Bool, true, false, not, ◌&&◌, ◌||◌, Option, none, some, List, [], ◌∷◌, ◌++◌, map,
  Bytes, codes, text_eq, split, trim_space, to_lower, trim_suffix, trim_prefix, has_suffix, atoi,
  leb_ℤ, ltb_ℤ, ◌==◌, if◌then◌else◌, is_blank,
}
use luci_app_gowan.Net.{IpNet, parse_ip, parse_cidr, net_contains}

pub record PolicyJson : Type 0 where
  pub ptype : Bytes
  pub match : Bytes
  pub wan : Bytes

pub record PortRange : Type 0 where
  pub lo : ℤ
  pub hi : ℤ

pub record PolicyRule : Type 0 where
  pub ptype : Bytes
  pub wan : Bytes
  pub nets : List IpNet
  pub ips : List ℕ
  pub ports : List PortRange
  pub doms : List Bytes

-- The cases of the `switch` over a rule's type.
pub data RuleType : Type 0 where
  client_ip dest_ip port domain unknown : RuleType

unfoldable pub rule_type : Bytes → RuleType
rule_type t =
    if text_eq t (codes "client_ip")
    then client_ip
    else if text_eq t (codes "dest_ip")
    then dest_ip
    else if text_eq t (codes "port")
    then port
    else if text_eq t (codes "domain")
    then domain
    else unknown

-- The text before the first ':' or '-', and the text behind it.
unfoldable pub cut_range : Bytes → Option (Bytes × Bytes)
cut_range [] = none
cut_range (c ∷ s) =
    let rest = cut_range s in
    if c == b':' || c == b'-'
    then some ([], s)
    else elim rest [ none ↦ none | some (before, behind) ↦ some (c ∷ before, behind) ]

single_port : Option ℤ → Option PortRange
single_port none = none
single_port (some n) =
    if ltb_ℤ (pos 0) n && ltb_ℤ n (pos 65536) then some (record { lo = n; hi = n }) else none

bounded_range : Option ℤ → Option ℤ → Option PortRange
bounded_range none hi = none
bounded_range (some lo) none = none
bounded_range (some lo) (some hi) =
    if ltb_ℤ lo (pos 1) || ltb_ℤ (pos 65535) hi || ltb_ℤ hi lo
    then none
    else some (record { lo = lo; hi = hi })

unfoldable pub parse_port_range : Bytes → Option PortRange
unfolding single_port bounded_range
parse_port_range tok = elim (cut_range tok) [
  | none ↦ single_port (atoi tok)
  | some (before, behind) ↦ bounded_range (atoi before) (atoi behind)
]

add_address : PolicyRule → Bytes → Option IpNet → Option ℕ → PolicyRule × Bool
add_address r tok (some net) ip = (record r { nets = r.nets ++ net ∷ [] }, true)
add_address r tok none (some ip) = (record r { ips = r.ips ++ ip ∷ [] }, true)
add_address r tok none none = (r, false)

add_ports : PolicyRule → Option PortRange → PolicyRule × Bool
add_ports r (some pr) = (record r { ports = r.ports ++ pr ∷ [] }, true)
add_ports r none = (r, false)

-- What one token adds to a rule of the given type, and whether it was valid.
unfoldable pub add_token : RuleType → PolicyRule → Bytes → PolicyRule × Bool
unfolding add_address add_ports
add_token client_ip r tok = add_address r tok (parse_cidr tok) (parse_ip tok)
add_token dest_ip r tok = add_address r tok (parse_cidr tok) (parse_ip tok)
add_token port r tok = add_ports r (parse_port_range tok)
add_token domain r tok = (record r { doms = r.doms ++ to_lower tok ∷ [] }, true)
add_token unknown r tok = (r, false)

-- The body of the loop over the tokens, with the flag `ok`: an empty token is passed over.
unfoldable pub read_token : RuleType → PolicyRule × Bool → Bytes → PolicyRule × Bool
unfolding add_token
read_token t (r, ok) raw =
    let tok = trim_space raw in
    let (r', valid) = add_token t r tok in if is_blank tok then (r, ok) else (r', ok || valid)

unfoldable pub add_tokens : RuleType → List Bytes → PolicyRule × Bool → PolicyRule × Bool
unfolding read_token
add_tokens t [] acc = acc
add_tokens t (raw ∷ toks) acc = add_tokens t toks (read_token t acc raw)

abbrev blank_rule : PolicyJson → PolicyRule
blank_rule p = record { ptype = p.ptype; wan = p.wan; nets = []; ips = []; ports = []; doms = [] }

unfoldable pub compile_rule : PolicyJson → PolicyRule × Bool
unfolding add_tokens
compile_rule p = add_tokens (rule_type p.ptype) (split b',' p.match) (blank_rule p, false)

-- The rules that `set_policies` makes active: those with a valid match, in order.
unfoldable pub set_policies : List PolicyJson → List PolicyRule
unfolding compile_rule
set_policies [] = []
set_policies (p ∷ ps) =
    let (r, ok) = compile_rule p in let rest = set_policies ps in if ok then r ∷ rest else rest

any_net : ℕ → List IpNet → Bool
any_net ip [] = false
any_net ip (n ∷ ns) = net_contains n ip || any_net ip ns

any_ip : ℕ → List ℕ → Bool
any_ip ip [] = false
any_ip ip (x ∷ xs) = x == ip || any_ip ip xs

unfoldable pub ip_in : ℕ → PolicyRule → Bool
unfolding any_net any_ip
ip_in ip r = any_net ip r.nets || any_ip ip r.ips

-- `host` is lower-cased and has lost one trailing dot.
unfoldable pub domain_matches : Bytes → List Bytes → Bool
domain_matches host [] = false
domain_matches host (p ∷ ps) =
    let base = trim_prefix p (codes "*.") in
    text_eq host base || has_suffix host (codes "." ++ base) || domain_matches host ps

unfoldable pub domain_match : Bytes → List Bytes → Bool
domain_match host doms = domain_matches (to_lower (trim_suffix host (codes "."))) doms

unfoldable pub port_in : ℤ → List PortRange → Bool
port_in p [] = false
port_in p (pr ∷ prs) = leb_ℤ pr.lo p && leb_ℤ p pr.hi || port_in p prs

-- What a connection offers to the rules; `none` is a nil address.
pub record Flow : Type 0 where
  pub client : Option ℕ
  pub dest : Option ℕ
  pub host : Bytes
  pub dest_port : ℤ

abbrev known_in : Option ℕ → PolicyRule → Bool
known_in none r = false
known_in (some ip) r = ip_in ip r

matches_type : RuleType → PolicyRule → Flow → Bool
matches_type client_ip r f = known_in f.client r
matches_type dest_ip r f = known_in f.dest r
matches_type port r f = port_in f.dest_port r.ports
matches_type domain r f = not (is_blank f.host) && domain_match f.host r.doms
matches_type unknown r f = false

unfoldable pub matches : PolicyRule → Flow → Bool
unfolding matches_type
matches r f = matches_type (rule_type r.ptype) r f

-- The `wan` of the first rule that matches; empty if none does.
unfoldable pub policy_wan : List PolicyRule → Flow → Bytes
policy_wan [] f = []
policy_wan (r ∷ rs) f = let rest = policy_wan rs f in if matches r f then r.wan else rest
