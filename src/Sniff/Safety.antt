-- ===== src/Sniff/Safety.antt =====
-- The parser reads within its buffer, and its loop ends.
use luci_app_gowan.Common.{
  ℕ, zero, suc, ◌+◌, ◌-◌, ◌*◌, ◌≤◌, ◌<◌, ◌≡◌, refl, ap, Bool, true, false, not, Option, some, [],
  arith, Bytes, to_lower, length, take, drop, leb, ltb, ◌==◌, if◌then◌else◌, get_elem?-lt_length,
  ◌&&◌,
}
use luci_app_gowan.Balancer.{Run, returns}
use luci_app_gowan.Sniff.{
  byte, and_then, word, slice, server_name, then_go, extensions, after_compression, after_ciphers,
  after_session, after_random, after_record, parse_tls_sni,
}

-- A value comes out, not a panic.
abbrev Yields : {A : Type 0} → Run A → Type 0
Yields {A} r = (a : A) × (r ≡ returns a)

abbrev pub Ends : Option (Run Bytes) → Type 0
Ends o = (s : Bytes) × (o ≡ some (returns s))

byte-Yields : (b : Bytes) (p : ℕ) → p < length b → Yields (byte b p)
unfolding byte
byte-Yields b p h = let (c, e) = get_elem?-lt_length b p h in (c, rw (e, byte) refl)

and_then-Yields :
    {A B : Type 0} (r : Run A) (k : A → Run B)
    → Yields r
    → ((a : A) → Yields (k a))
    → Yields (and_then r k)
unfolding and_then
and_then-Yields r k (a, e) h = rw (e, and_then) (h a)

word-Yields : (b : Bytes) (p : ℕ) → p + 1 < length b → Yields (word b p)
unfolding word
word-Yields b p h =
    and_then-Yields (byte b p) _ (byte-Yields b p (omega arith))
      λ hi. and_then-Yields (byte b (p + 1)) _ (byte-Yields b (p + 1) h) λ lo. (hi * 256 + lo, refl)

slice-Yields : (b : Bytes) (lo hi : ℕ) → lo ≤ hi → hi ≤ length b → Yields (slice b lo hi)
unfolding slice
slice-Yields b lo hi p q =
    let inside : (leb lo hi && leb hi (length b)) ≡ true = ground arith in
    (take (hi - lo) (drop lo b), rw inside refl)

-- A guard that returns early.
guard-Yields :
    (c : Bool) (r : Run Bytes) → (c ≡ false → Yields r) → Yields (if c then returns [] else r)
guard-Yields true r h = ([], refl)
guard-Yields false r h = h refl

server_name-Yields : (e : Bytes) → Yields (server_name e)
unfolding server_name
server_name-Yields e = guard-Yields (ltb (length e) 5) _ λ long.
    and_then-Yields (byte e 2) _ (byte-Yields e 2 (ground (arith, long))) λ kind.
      guard-Yields (not (kind == 0)) _ λ host.
        and_then-Yields (word e 3) _ (word-Yields e 3 (ground (arith, long))) λ n.
          guard-Yields (ltb (length e) (5 + n)) _ λ fits.
            and_then-Yields (slice e 5 (5 + n)) _
              (slice-Yields e 5 (5 + n) (omega arith) (ground (arith, fits)))
              λ name. (to_lower name, refl)

guard-Ends :
    (c : Bool) (o : Option (Run Bytes))
    → (c ≡ false → Ends o)
    → Ends (if c then some (returns []) else o)
guard-Ends true o h = ([], refl)
guard-Ends false o h = h refl

then_go-Ends :
    {A : Type 0} (r : Run A) (k : A → Option (Run Bytes))
    → Yields r
    → ((a : A) → Ends (k a))
    → Ends (then_go r k)
unfolding then_go
then_go-Ends r k (a, e) h = rw (e, then_go) (h a)

-- The case of one extension: the server name, or what `rest` makes of the others.
extension-Ends :
    (b : Bytes) (lo hi : ℕ) (found : Bool) (rest : Option (Run Bytes))
    → lo ≤ hi
    → hi ≤ length b
    → Ends rest
    → Ends (elim found [ true ↦ some (and_then (slice b lo hi) server_name) | false ↦ rest ])
extension-Ends b lo hi true rest p q r =
    let (s, e) =
      and_then-Yields (slice b lo hi) server_name (slice-Yields b lo hi p q) server_name-Yields in
    (s, ap some e)
extension-Ends b lo hi false rest p q r = r

extensions-Ends :
    (fuel : ℕ) (b : Bytes) (ext_end p : ℕ)
    → ext_end ≤ length b
    → p ≤ ext_end
    → ext_end < fuel + p
    → Ends (extensions fuel b ext_end p)
unfolding extensions
extensions-Ends zero b ext_end p h l f = absurd (omega arith)
extensions-Ends (suc fuel) b ext_end p h l f = guard-Ends (ltb ext_end (p + 4)) _ λ room.
    then_go-Ends (word b p) _ (word-Yields b p (ground (arith, room))) λ etype.
      then_go-Ends (word b (p + 2)) _ (word-Yields b (p + 2) (ground (arith, room))) λ elen.
        guard-Ends (ltb ext_end (p + 4 + elen)) _ λ fits.
          let inside : p + 4 + elen ≤ ext_end = ground (arith, fits) in
          extension-Ends b (p + 4) (p + 4 + elen) (etype == 0) _ (omega arith) (omega arith)
            (extensions-Ends fuel b ext_end (p + 4 + elen) h inside (omega arith))

after_compression-Ends : (b : Bytes) (p : ℕ) → Ends (after_compression b p)
unfolding after_compression
after_compression-Ends b p = guard-Ends (ltb (length b) (p + 2)) _ λ room.
    let enough : p + 2 ≤ length b = ground (arith, room) in
    then_go-Ends (word b p) _ (word-Yields b p (omega arith)) λ len.
      extensions-Ends (suc (length b)) b _ (p + 2) (ground arith) (ground (arith, enough))
        (ground (arith, enough))

after_ciphers-Ends : (b : Bytes) (p : ℕ) → Ends (after_ciphers b p)
unfolding after_ciphers
after_ciphers-Ends b p = guard-Ends (ltb (length b) (p + 1)) _ λ room.
    then_go-Ends (byte b p) _ (byte-Yields b p (ground (arith, room)))
      λ len. after_compression-Ends b (p + (1 + len))

after_session-Ends : (b : Bytes) (p : ℕ) → Ends (after_session b p)
unfolding after_session
after_session-Ends b p = guard-Ends (ltb (length b) (p + 2)) _ λ room.
    then_go-Ends (word b p) _ (word-Yields b p (ground (arith, room)))
      λ len. after_ciphers-Ends b (p + (2 + len))

after_random-Ends : (b : Bytes) (p : ℕ) → Ends (after_random b p)
unfolding after_random
after_random-Ends b p = guard-Ends (ltb (length b) (p + 1)) _ λ room.
    then_go-Ends (byte b p) _ (byte-Yields b p (ground (arith, room)))
      λ len. after_session-Ends b (p + (1 + len))

after_record-Ends : (b : Bytes) (p : ℕ) → Ends (after_record b p)
unfolding after_record
after_record-Ends b p = guard-Ends (ltb (length b) (p + 4)) _ λ room.
    then_go-Ends (byte b p) _ (byte-Yields b p (ground (arith, room)))
      λ kind. guard-Ends (not (kind == 1)) _ λ hello. after_random-Ends b (p + 4 + 2 + 32)

-- Whatever bytes a client sends, `parse_tls_sni` ends with a text: no read and no slice is out of
-- range, and its loop takes at most a round more than there are bytes.
pub parse_tls_sni-Ends : (b : Bytes) → Ends (parse_tls_sni b)
unfolding parse_tls_sni
parse_tls_sni-Ends b = guard-Ends (ltb (length b) 5) _ λ room.
    then_go-Ends (byte b 0) _ (byte-Yields b 0 (ground (arith, room)))
      λ kind. guard-Ends (not (kind == 0x16)) _ λ handshake. after_record-Ends b 5
