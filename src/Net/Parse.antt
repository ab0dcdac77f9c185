-- ===== src/Net/Parse.antt =====
-- The text forms of addresses, after Go's `netip.ParseAddr` and `net.ParseCIDR`.
use luci_app_gowan.Common.{
  ℕ, zero, suc, ◌+◌, ◌-◌, ◌*◌, ◌/◌, ◌^◌, Bool, true, false, ◌&&◌, ◌||◌, Option, none, some, List,
  [], ◌∷◌, ◌++◌, Bytes, split, cut, decimal, digits, leb, ltb, ◌==◌, if◌then◌else◌, length,
  replicate, is_digit,
}

-- `none` is a parse error.
infixl 5 ◌>>=◌
abbrev ◌>>=◌ : {A B : Type 0} → Option A → (A → Option B) → Option B
none >>= f = none
some a >>= f = f a

abbrev check {ℓ} : {A : Type ℓ} → Bool → Option A → Option A
check true r = r
check false r = none

-- One field of a dotted quad: digits with no leading zero, at most 255.
unfoldable pub octet : Bytes → Option ℕ
octet [] = none
octet (c ∷ s) = do
  v ← decimal 0 (c ∷ s)
  check ((ltb (length s) 1 || ltb b'0' c) && leb v 255) (some v)

four_octets : List Bytes → Option ℕ
unfolding octet
four_octets (a ∷ b ∷ c ∷ d ∷ []) = do
  w ← octet a
  x ← octet b
  y ← octet c
  z ← octet d
  some (((w * 256 + x) * 256 + y) * 256 + z)
four_octets _ = none

-- The 32-bit value of a dotted quad.
unfoldable pub parse_ip4 : Bytes → Option ℕ
unfolding four_octets
parse_ip4 s = four_octets (split b'.' s)

abbrev pub v4_prefix : ℕ
v4_prefix = 0xffff * 2 ^ 32

abbrev hex_value : ℕ → Option ℕ
hex_value c =
    if is_digit c
    then some (c - 48)
    else if leb b'a' c && leb c b'f'
    then some (c - 87)
    else if leb b'A' c && leb c b'F'
    then some (c - 55)
    else none

-- The longest run of hexadecimal digits: how many, their value, and what follows.
hex_run : ℕ → ℕ → Bytes → ℕ × ℕ × Bytes
hex_run count acc [] = (count, acc, [])
hex_run count acc (c ∷ s) = elim (hex_value c) [
  | none ↦ (count, acc, c ∷ s)
  | some d ↦ hex_run (suc count) (acc * 16 + d) s
]

abbrev starts : ℕ → Bytes → Bool
starts c [] = false
starts c (d ∷ s) = d == c

abbrev tail : Bytes → Bytes
tail [] = []
tail (c ∷ s) = s

-- The 16-bit groups read so far, the place of "::" among them, and the text that is left.
record Groups : Type 0 where
  groups : List ℕ
  ellipsis : Option ℕ
  left : Bytes

-- The body of the loop has read a group and ended; `k` is the next round.
behind_group : Groups → (Groups → Option Groups) → Option Groups
behind_group g k = elim g.left [
  | [] ↦ some g
  | c ∷ s ↦ check (c == b':') (elim s [
    | [] ↦ none
    | d ∷ r ↦
        if d == b':'
        then elim g.ellipsis [
          | some _ ↦ none
          | none ↦
              let h = record g { ellipsis = some (length g.groups); left = r } in
              elim r [ [] ↦ some h | _ ↦ k h ]
        ]
        else k (record g { left = d ∷ r })
  ])
]

abbrev is_none : Option ℕ → Bool
is_none none = true
is_none (some _) = false

-- A dotted quad may take the place of the last two groups.
embed_ip4 : Groups → Option Groups
embed_ip4 g = do
  v ← parse_ip4 g.left
  check ((length g.groups == 6 || (ltb (length g.groups) 6 && not_none g.ellipsis))) (
      some
        (record g { groups = g.groups ++ (v / 65536) ∷ (v - v / 65536 * 65536) ∷ []; left = [] }))
  where
    not_none : Option ℕ → Bool
    not_none none = false
    not_none (some _) = true

-- The loop of `parseIPv6`, over the groups that may still come.
read_groups : ℕ → Groups → Option Groups
unfolding hex_run behind_group embed_ip4
read_groups zero g = some g
read_groups (suc n) g =
    let (count, v, after) = hex_run 0 0 g.left in
    let next =
      behind_group (record g { groups = g.groups ++ v ∷ []; left = after }) (read_groups n) in
    check (ltb 0 count && leb count 4) (if starts b'.' after then embed_ip4 g else next)

abbrev joined : ℕ → List ℕ → ℕ
joined acc [] = acc
joined acc (v ∷ vs) = joined (acc * 65536 + v) vs

abbrev take_groups : ℕ → List ℕ → List ℕ
take_groups zero vs = []
take_groups (suc n) [] = []
take_groups (suc n) (v ∷ vs) = v ∷ take_groups n vs

abbrev drop_groups : ℕ → List ℕ → List ℕ
drop_groups zero vs = vs
drop_groups (suc n) [] = []
drop_groups (suc n) (v ∷ vs) = drop_groups n vs

-- The end of `parseIPv6`: zeros in place of "::", which stands for one group at least.
fill : Groups → Option ℕ
fill g = elim g.left [
  | c ∷ s ↦ none
  | [] ↦ elim g.ellipsis [
    | none ↦ check (length g.groups == 8) (some (joined 0 g.groups))
    | some e ↦ check (ltb (length g.groups) 8) (
        some (
          joined 0 (
            take_groups e g.groups
            ++ (replicate (8 - length g.groups) 0 ++ drop_groups e g.groups))))
  ]
]

unfoldable pub parse_ip6 : Bytes → Option ℕ
unfolding read_groups fill
parse_ip6 s = do
  g ←
      if starts b':' s && starts b':' (tail s)
      then elim (tail (tail s)) [
        | [] ↦ some (record { groups = []; ellipsis = some 0; left = [] })
        | c ∷ r ↦ read_groups 8 (record { groups = []; ellipsis = some 0; left = c ∷ r })
      ]
      else read_groups 8 (record { groups = []; ellipsis = none; left = s })
  fill g

-- The first of '.', ':' and '%' decides. An address with a zone is refused by the callers.
abbrev pub ip_kind : Bytes → Option Bool
ip_kind [] = none
ip_kind (c ∷ s) =
    if c == b'.'
    then some true
    else if c == b':'
    then some false
    else if c == b'%'
    then none
    else ip_kind s

unfoldable pub parse_ip : Bytes → Option ℕ
unfolding parse_ip4 parse_ip6
parse_ip s = elim (ip_kind s) [
  | none ↦ none
  | some true ↦ elim (parse_ip4 s) [ none ↦ none | some v ↦ some (v4_prefix + v) ]
  | some false ↦ parse_ip6 s
]

-- A network: an address in it, and how many of the low bits are free.
pub record IpNet : Type 0 where
  pub base : ℕ
  pub host_bits : ℕ

-- `ip.Mask(m)` for a mask that leaves the low bits free.
abbrev masked : ℕ → ℕ → ℕ
masked ip free = ip / 2 ^ free * 2 ^ free

-- `net.ParseCIDR`, which gives the network alone.
unfoldable pub parse_cidr : Bytes → Option IpNet
unfolding parse_ip decimal
parse_cidr s = do
  parts ← cut b'/' s
  ip ← parse_ip parts.0
  n ← digits parts.1
  let bits = elim (ip_kind parts.0) as (λ _. ℕ) [ some true ↦ 32 | _ ↦ 128 ]
  check (leb n bits) (some (record { base = masked ip (bits - n); host_bits = bits - n }))
