-- ===== src/Sniff/Http.antt =====
-- The Host header of gowan/src/sniff.go: `parse_http_host`. Case folding and white space are those of
-- ASCII.
use luci_app_gowan.Common.{
  ℕ, ◌≤◌, ◌≡◌, ◌≢◌, refl, sym, ap, ◌∙◌, Bool, true, false, not, ◌&&◌, Option, none, some, List, [],
  ◌∷◌, ◌++◌, arith, Bytes, codes, is_blank, text_eq, length, take, drop, leb, to_lower, lower,
  trim_space, if◌then◌else◌, ◌==◌, itoa, All, IsSolid, IsSpace, IsDigit, is_space, trim_space_solid,
  text_eq_iff, take-append, drop-append, length-append,
}
use luci_app_gowan.Net.{cut_last, has_byte}
use luci_app_gowan.Net.Print.{
  Without, All-append, All-map, IsPlain, cut_last_free, cut_last_colon, has_byte_free, itoa-IsPlain,
  itoa-IsDigit, host_port,
}

grow : ℕ → List Bytes → List Bytes
grow c [] = (c ∷ []) ∷ []
grow c (l ∷ ls) = (c ∷ l) ∷ ls

-- `strings.Split(s, "\r\n")`
unfoldable pub lines : Bytes → List Bytes
unfolding grow
lines [] = [] ∷ []
lines (c ∷ []) = (c ∷ []) ∷ []
lines (c ∷ d ∷ s) =
    let behind = lines s in
    let rest = lines (d ∷ s) in if c == 13 && d == 10 then [] ∷ behind else grow c rest

-- `len(ln) >= 5 && strings.EqualFold(ln[:5], "host:")`
unfoldable pub is_host_line : Bytes → Bool
is_host_line ln = leb 5 (length ln) && text_eq (to_lower (take 5 ln)) (codes "host:")

-- A port is taken off, behind a colon that is not the first byte and has no bracket behind it.
unfoldable pub strip_port : Bytes → Bytes
strip_port h = elim (cut_last b':' h) [
  | none ↦ h
  | some (before, behind) ↦
      if not (is_blank before) && not (has_byte b']' behind) then before else h
]

unfoldable pub host_line : List Bytes → Bytes
unfolding is_host_line strip_port
host_line [] = []
host_line (ln ∷ lns) =
    let rest = host_line lns in
    if is_blank ln
    then []
    else if is_host_line ln
    then to_lower (strip_port (trim_space (drop 5 ln)))
    else rest

unfoldable pub parse_http_host : Bytes → Bytes
unfolding lines host_line
parse_http_host b = host_line (lines b)

-- Lines, each with its end, in front of what follows.
abbrev pub joined : List Bytes → Bytes → Bytes
joined [] r = r
joined (l ∷ ls) r = l ++ (13 ∷ 10 ∷ joined ls r)

lines_step : (c : ℕ) (s : Bytes) → c ≢ 13 → is_blank s ≡ false → lines (c ∷ s) ≡ grow c (lines s)
unfolding lines
lines_step c [] n e = cc
lines_step c (d ∷ s) n e = let other : (c == 13) ≡ false = ground (arith, n) in rw other refl

append_shown : (x : Bytes) (c : ℕ) (y : Bytes) → is_blank (x ++ (c ∷ y)) ≡ false
append_shown [] c y = refl
append_shown (d ∷ x) c y = refl

lines-append : (l r : Bytes) → Without 13 l → lines (l ++ (13 ∷ 10 ∷ r)) ≡ l ∷ lines r
unfolding lines grow
lines-append [] r h = refl
lines-append (c ∷ l) r h =
    lines_step c (l ++ (13 ∷ 10 ∷ r)) h.0 (append_shown l 13 (10 ∷ r))
    ∙ ap (grow c) (lines-append l r h.1)

-- A header line that names no host.
abbrev pub IsOtherLine : Bytes → Type 0
IsOtherLine l = Without 13 l × (is_blank l ≡ false) × (is_host_line l ≡ false)

host_line-joined :
    (ls : List Bytes) (r : Bytes)
    → All IsOtherLine ls
    → host_line (lines (joined ls r)) ≡ host_line (lines r)
unfolding host_line
host_line-joined [] r h = refl
host_line-joined (l ∷ ls) r ((whole, shown, other), h) =
    ap host_line (lines-append l (joined ls r) whole) ∙ rw (shown, other) (host_line-joined ls r h)

-- A byte of a host name: ASCII, no colon, no bracket, and no white space.
abbrev pub IsHostByte : ℕ → Type 0
IsHostByte c = IsPlain c × (is_space c ≡ false) × (c ≤ 127)

-- White space that ends no line.
abbrev pub IsPadding : ℕ → Type 0
IsPadding c = IsSpace c × (c ≢ 13)

-- A port behind a host name, or none.
abbrev pub with_port : Bytes → Option ℕ → Bytes
with_port name none = name
with_port name (some port) = host_port name port

strip_port-with_port :
    (name : Bytes) (port : Option ℕ)
    → All IsHostByte name
    → is_blank name ≡ false
    → strip_port (with_port name port) ≡ name
unfolding strip_port host_port
strip_port-with_port name none h shown =
    rw (cut_last_free name (All-map {P = IsHostByte} name (λ c q. q.0) h), strip_port) refl
strip_port-with_port name (some port) h shown =
    let no_bracket =
      has_byte_free b']' (itoa port)
        (All-map {P = IsPlain} (itoa port) (λ x q. q.2) (itoa-IsPlain port)) in
    rw (cut_last_colon name (itoa port) (itoa-IsPlain port), strip_port)
      (rw (shown, no_bracket) refl)

digit-IsSolid : (c : ℕ) → IsDigit c → IsSolid c
digit-IsSolid c d = ground (arith, d.0, d.1)

with_port-IsSolid :
    (name : Bytes) (port : Option ℕ) → All IsHostByte name → All IsSolid (with_port name port)
unfolding host_port
with_port-IsSolid name none h = All-map {P = IsHostByte} name (λ c q. q.1) h
with_port-IsSolid name (some port) h =
    All-append IsSolid name _ (All-map {P = IsHostByte} name (λ c q. q.1) h)
      (refl, All-map (itoa port) digit-IsSolid (itoa-IsDigit port))

-- Five bytes that spell "host:" in any case.
abbrev pub spells_host : Bytes → Bool
spells_host field = text_eq (to_lower field) (codes "host:")

Without-of_lower : (s t : Bytes) → to_lower s ≡ t → Without 13 t → Without 13 s
Without-of_lower [] t e h = tt
Without-of_lower (c ∷ s) [] e h = cc e
Without-of_lower (c ∷ s) (d ∷ t) e h =
    let head : lower c ≡ d = cc e in
    (λ same. h.0 (sym head ∙ ap lower same), Without-of_lower s t (cc e) h.1)

shown_front : (x y : Bytes) → is_blank x ≡ false → is_blank (x ++ y) ≡ false
shown_front [] y e = cc e
shown_front (c ∷ x) y e = refl

with_port_shown :
    (name : Bytes) (port : Option ℕ)
    → is_blank name ≡ false
    → is_blank (with_port name port) ≡ false
unfolding host_port
with_port_shown name none n = n
with_port_shown name (some port) n = shown_front name _ n

five_shown : (x y : Bytes) → length x ≡ 5 → is_blank (x ++ y) ≡ false
five_shown [] y e = absurd (omega (arith, e))
five_shown (c ∷ x) y e = refl

-- No byte of "host:" ends a line.
field_whole : (field : Bytes) → spells_host field ≡ true → Without 13 field
field_whole field spelt =
    Without-of_lower field (codes "host:") ((text_eq_iff (to_lower field) (codes "host:")).0 spelt)
      (
        λ e. omega (arith, e),
        (
          λ e. omega (arith, e),
          (λ e. omega (arith, e), (λ e. omega (arith, e), (λ e. omega (arith, e), tt))),
        ),
      )

-- The value of a header line, with white space around it.
abbrev pub padded : Bytes → Bytes → Bytes → Bytes
padded lead value trail = lead ++ (value ++ trail)

padded_whole :
    (lead value trail : Bytes)
    → All IsPadding lead
    → All IsSolid value
    → All IsPadding trail
    → Without 13 (padded lead value trail)
padded_whole lead value trail pads solid pads' =
    All-append (λ c. c ≢ 13) lead _ (All-map {P = IsPadding} lead (λ c q. q.1) pads)
      (All-append (λ c. c ≢ 13) value trail
        (All-map {P = IsSolid} value (λ c q e. cc (rw e at q)) solid)
        (All-map {P = IsPadding} trail (λ c q. q.1) pads'))

-- The Host header of a request is found behind header lines of any other kind, whatever the case of
-- its field, with any white space or none around its value, and whatever follows its line: the result
-- is the name in lower case, with a port behind it taken off. The name is not empty, is ASCII and has
-- no colon, bracket or white space, and the white space has no carriage return.
pub parse_http_host-joined :
    (before : List Bytes) (field lead name : Bytes) (port : Option ℕ) (trail behind : Bytes)
    → All IsOtherLine before
    → length field ≡ 5
    → spells_host field ≡ true
    → All IsPadding lead
    → All IsHostByte name
    → is_blank name ≡ false
    → All IsPadding trail
    → parse_http_host
        (joined before ((field ++ padded lead (with_port name port) trail) ++ (13 ∷ 10 ∷ behind)))
      ≡ to_lower name
unfolding parse_http_host
parse_http_host-joined before field lead name port trail behind others five spelt pads plain shown
      pads' =
    let value = with_port name port in
    let rest = padded lead value trail in
    let ln : Bytes = field ++ rest in
    let solid = with_port-IsSolid name port plain in
    let whole : Without 13 ln =
      All-append (λ c. c ≢ 13) field rest (field_whole field spelt)
        (padded_whole lead value trail pads solid pads') in
    let first : take 5 ln ≡ field = ap (λ n. take n ln) (sym five) ∙ take-append field rest in
    let last : drop 5 ln ≡ rest = ap (λ n. drop n ln) (sym five) ∙ drop-append field rest in
    let host : is_host_line ln ≡ true =
      rw (is_host_line, first, spelt) (ground (arith, length-append field rest, five)) in
    let trimmed : trim_space rest ≡ value =
      trim_space_solid lead value trail (All-map {P = IsPadding} lead (λ c q. q.0) pads) solid
        (with_port_shown name port shown) (All-map {P = IsPadding} trail (λ c q. q.0) pads') in
    host_line-joined before (ln ++ (13 ∷ 10 ∷ behind)) others
    ∙ ap host_line (lines-append ln behind whole)
    ∙ rw (five_shown field rest five, host)
        (ap (λ v. to_lower (strip_port (trim_space v))) last
          ∙ ap (λ v. to_lower (strip_port v)) trimmed
          ∙ ap to_lower (strip_port-with_port name port plain shown))
