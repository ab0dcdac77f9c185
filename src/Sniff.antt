-- ===== src/Sniff.antt =====
-- The sniffing of a TLS server name of gowan/src/sniff.go: `parse_tls_sni`. A read or a slice out of
-- range is a panic; two bytes are joined as `hi * 256 + lo`.
pub mod Safety
pub mod Http
pub mod Buffer
pub mod Hello
use luci_app_gowan.Common.{
  ℕ, zero, suc, ◌+◌, ◌-◌, ◌*◌, Bool, true, false, not, ◌&&◌, ◌||◌, Option, none, some, List, [],
  ◌∷◌, Bytes, to_lower, length, get_elem?, take, drop, leb, ltb, ◌==◌, if◌then◌else◌,
}
use luci_app_gowan.Balancer.{Run, panics, returns}

-- `b[p]`
unfoldable pub byte : Bytes → ℕ → Run ℕ
byte b p = elim (get_elem? b p) [ none ↦ panics | some c ↦ returns c ]

unfoldable pub and_then : {A B : Type 0} → Run A → (A → Run B) → Run B
and_then panics k = panics
and_then (returns a) k = k a

-- `int(b[p])<<8 | int(b[p+1])`
unfoldable pub word : Bytes → ℕ → Run ℕ
unfolding byte and_then
word b p = and_then (byte b p) λ hi. and_then (byte b (p + 1)) λ lo. returns (hi * 256 + lo)

-- `b[lo:hi]`
unfoldable pub slice : Bytes → ℕ → ℕ → Run Bytes
slice b lo hi =
    if leb lo hi && leb hi (length b) then returns (take (hi - lo) (drop lo b)) else panics

-- The extension `server_name`.
unfoldable pub server_name : Bytes → Run Bytes
unfolding word slice
server_name e =
    if ltb (length e) 5
    then returns []
    else and_then (byte e 2) λ kind.
      if not (kind == 0)
      then returns []
      else and_then (word e 3) λ name_len.
        if ltb (length e) (5 + name_len)
        then returns []
        else and_then (slice e 5 (5 + name_len)) λ name. returns (to_lower name)

-- The run of the parser; none if the fuel of its loop runs out.
unfoldable pub then_go : {A : Type 0} → Run A → (A → Option (Run Bytes)) → Option (Run Bytes)
then_go panics k = some panics
then_go (returns a) k = k a

-- The loop over the extensions.
unfoldable pub extensions : ℕ → Bytes → ℕ → ℕ → Option (Run Bytes)
unfolding server_name then_go
extensions zero b ext_end p = none
extensions (suc fuel) b ext_end p =
    if ltb ext_end (p + 4)
    then some (returns [])
    else then_go (word b p) λ etype. then_go (word b (p + 2)) λ elen.
      if ltb ext_end (p + 4 + elen) then some (returns []) else elim (etype == 0) [
        | true ↦ some (and_then (slice b (p + 4) (p + 4 + elen)) server_name)
        | false ↦ extensions fuel b ext_end (p + 4 + elen)
      ]

-- From the length of all extensions on.
unfoldable pub after_compression : Bytes → ℕ → Option (Run Bytes)
unfolding extensions
after_compression b p =
    if ltb (length b) (p + 2)
    then some (returns [])
    else then_go (word b p) λ len.
      let ext_end = p + 2 + len in
      extensions (suc (length b)) b (if ltb (length b) ext_end then length b else ext_end) (p + 2)

unfoldable pub after_ciphers : Bytes → ℕ → Option (Run Bytes)
unfolding after_compression
after_ciphers b p =
    if ltb (length b) (p + 1)
    then some (returns [])
    else then_go (byte b p) λ len. after_compression b (p + (1 + len))

unfoldable pub after_session : Bytes → ℕ → Option (Run Bytes)
unfolding after_ciphers
after_session b p =
    if ltb (length b) (p + 2)
    then some (returns [])
    else then_go (word b p) λ len. after_ciphers b (p + (2 + len))

-- From the length of the session id on.
unfoldable pub after_random : Bytes → ℕ → Option (Run Bytes)
unfolding after_session
after_random b p =
    if ltb (length b) (p + 1)
    then some (returns [])
    else then_go (byte b p) λ len. after_session b (p + (1 + len))

unfoldable pub after_record : Bytes → ℕ → Option (Run Bytes)
unfolding after_random
after_record b p =
    if ltb (length b) (p + 4)
    then some (returns [])
    else then_go (byte b p)
        λ kind. if not (kind == 1) then some (returns []) else after_random b (p + 4 + 2 + 32)

unfoldable pub parse_tls_sni : Bytes → Option (Run Bytes)
unfolding after_record
parse_tls_sni b =
    if ltb (length b) 5
    then some (returns [])
    else then_go (byte b 0)
        λ kind. if not (kind == 0x16) then some (returns []) else after_record b 5
