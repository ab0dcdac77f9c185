-- ===== src/Net.antt =====
-- The addresses of the package `net`, as far as the program uses them: `net.ParseIP`,
-- `net.ParseCIDR`, `IP.Equal`, `IP.To4` and `IPNet.Contains`. An address is its 16-byte form, read
-- as one number; an IPv4 address has the prefix ::ffff:0:0/96.
mod Parse
mod Tests
pub mod Print
unfoldable pub use Parse.{parse_ip4, parse_ip6, parse_ip, parse_cidr, v4_prefix, octet, ip_kind}
pub use Parse.{IpNet}
use luci_app_gowan.Common.{
  ℕ, ◌+◌, ◌-◌, ◌*◌, ◌/◌, ◌%◌, ◌^◌, Bool, true, false, ◌&&◌, ◌||◌, List, [], ◌∷◌, cut, not, ◌==◌,
  if◌then◌else◌, Bytes, Option, none, some,
}

-- `ip.To4() != nil`
abbrev pub is_v4 : ℕ → Bool
is_v4 ip = (ip / 2 ^ 32) == 0xffff

-- Go compares networks of IPv4 addresses as 4 bytes, and one of IPv6 addresses has no IPv4 member.
unfoldable pub net_contains : IpNet → ℕ → Bool
net_contains n ip =
    if is_v4 n.base
    then is_v4 ip && ((ip % 2 ^ 32) / 2 ^ n.host_bits == (n.base % 2 ^ 32) / 2 ^ n.host_bits)
    else not (is_v4 ip) && (ip / 2 ^ n.host_bits == n.base / 2 ^ n.host_bits)

-- `net.ParseIP(s).To4() != nil`
unfoldable pub is_ipv4 : Bytes → Bool
is_ipv4 s = elim (parse_ip s) [ none ↦ false | some ip ↦ is_v4 ip ]

-- The text before the last separator, and the text behind it.
unfoldable pub cut_last : ℕ → Bytes → Option (Bytes × Bytes)
cut_last sep [] = none
cut_last sep (c ∷ s) = elim (cut_last sep s) [
  | some (before, behind) ↦ some (c ∷ before, behind)
  | none ↦ if c == sep then some ([], s) else none
]

abbrev pub has_byte : ℕ → Bytes → Bool
has_byte b [] = false
has_byte b (c ∷ s) = c == b || has_byte b s

-- "[host]:port", where `rest` stands behind the opening bracket.
bracketed : Bytes → Option (Bytes × Bytes)
bracketed rest = elim (cut b']' rest) [
  | none ↦ none
  | some (host, behind) ↦ elim behind [
    | [] ↦ none
    | c ∷ port ↦
        if not (c == b':') || has_byte b':' port || has_byte b'[' rest || has_byte b']' port
        then none
        else some (host, port)
  ]
]

unfoldable pub plain : Bytes → Option (Bytes × Bytes)
unfolding cut_last
plain s = elim (cut_last b':' s) [
  | none ↦ none
  | some (host, port) ↦
      if has_byte b':' host || has_byte b'[' s || has_byte b']' s then none else some (host, port)
]

-- `net.SplitHostPort`
unfoldable pub split_host_port : Bytes → Option (Bytes × Bytes)
unfolding bracketed plain
split_host_port [] = none
split_host_port (c ∷ s) = if c == b'[' then bracketed s else plain (c ∷ s)
