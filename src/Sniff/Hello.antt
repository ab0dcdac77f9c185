-- ===== src/Sniff/Hello.antt =====
-- A ClientHello of TLS with a server name, and what the parser makes of it.
use luci_app_gowan.Common.{
  ℕ, suc, ◌+◌, ◌≤◌, ◌≡◌, refl, ap, subst, ◌∙◌, false, some, List, [], ◌∷◌, ◌++◌, arith, Bytes,
  to_lower, length, length-append, ltb, if◌then◌else◌, All,
}
use mathlib.Core.List.{append_assoc}
use luci_app_gowan.Balancer.{returns}
use luci_app_gowan.Sniff.{
  then_go, extensions, after_compression, after_ciphers, after_session, after_random, after_record,
  parse_tls_sni,
}
use luci_app_gowan.Sniff.Buffer.{
  Rest, Rest-append, byte_at, word_at, two_bytes_of, whole_Rest, name_entry, server_name-name_entry,
  Extension, extension_bytes, all_bytes, IsOther, extensions_found,
}

-- The parts of a ClientHello, of which the lengths are written before them.
pub record ClientHello : Type 0 where
  pub record_head : Bytes  -- version and length of the record
  pub hello_head : Bytes  -- length and version of the message, and 32 random bytes
  pub session : Bytes
  pub ciphers : Bytes
  pub compressions : Bytes
  pub others : List Extension
  pub list_len : ℕ
  pub name : Bytes
  pub more : Bytes
  pub later : List Extension

abbrev pub name_body : ClientHello → Bytes
name_body h = name_entry h.list_len h.name h.more

abbrev pub extension_part : ClientHello → Bytes
extension_part h =
    all_bytes h.others
    ++ (extension_bytes (record { kind = 0; body = name_body h }) ++ all_bytes h.later)

abbrev pub after_hello : ClientHello → Bytes → Bytes
after_hello h trail =
    (length h.session ∷ h.session)
    ++ ((two_bytes_of (length h.ciphers) ++ h.ciphers)
        ++ ((length h.compressions ∷ h.compressions)
            ++ (two_bytes_of (length (extension_part h)) ++ (extension_part h ++ trail))))

abbrev pub hello_bytes : ClientHello → Bytes → Bytes
hello_bytes h trail = 0x16 ∷ (h.record_head ++ (1 ∷ (h.hello_head ++ after_hello h trail)))

module _ (h : ClientHello) (trail : Bytes) (b : Bytes) where
  length-others : (xs : List Extension) → length xs ≤ length (all_bytes xs)
  length-others [] = omega arith
  length-others (x ∷ xs) =
      omega (arith, length-others xs, length-append (extension_bytes x) (all_bytes xs))

  after_compression_found :
      (p : ℕ)
      → All IsOther h.others
      → Rest b p (two_bytes_of (length (extension_part h)) ++ (extension_part h ++ trail))
      → after_compression b p ≡ some (returns (to_lower h.name))
  unfolding after_compression then_go
  after_compression_found p o r =
      let body = name_body h in
      let named = extension_bytes (record { kind = 0; body = body }) in
      let inner =
        Rest-append p 2 (two_bytes_of (length (extension_part h))) (extension_part h ++ trail) refl
          r in
      let n = length-append (extension_part h) trail in
      let n1 = length-append (all_bytes h.others) (named ++ all_bytes h.later) in
      let n2 = length-append named (all_bytes h.later) in
      let room : ltb (length b) (p + 2) ≡ false = ground (arith, inner.room) in
      let stop : ltb (length b) (p + 2 + length (extension_part h)) ≡ false =
        ground (arith, inner.room, n) in
      let same_stop : (if ltb (length b) (p + 2 + length (extension_part h))
            then length b
            else p + 2 + length (extension_part h))
          ≡ p + 2 + length (extension_part h) =
        rw stop refl in
      rw (room, word_at p (length (extension_part h)) (extension_part h ++ trail) r)
        (ap (λ q. extensions (suc (length b)) b q (p + 2)) same_stop
          ∙ extensions_found (suc (length b)) h.others (p + 2) (p + 2 + length (extension_part h))
              body (to_lower h.name) (all_bytes h.later ++ trail) o
              (omega (arith, length-others h.others, inner.room, n, n1)) (omega (arith, n1, n2))
              (server_name-name_entry h.list_len h.name h.more)
              (subst (Rest b (p + 2))
                (append_assoc (all_bytes h.others) (named ++ all_bytes h.later) trail
                  ∙ ap (◌++◌ (all_bytes h.others)) (append_assoc named (all_bytes h.later) trail))
                inner))

  after_ciphers_found :
      (p : ℕ)
      → All IsOther h.others
      → Rest b p (
          (length h.compressions ∷ h.compressions)
          ++ (two_bytes_of (length (extension_part h)) ++ (extension_part h ++ trail)))
      → after_ciphers b p ≡ some (returns (to_lower h.name))
  unfolding after_ciphers then_go
  after_ciphers_found p o r =
      let rest = two_bytes_of (length (extension_part h)) ++ (extension_part h ++ trail) in
      let room : ltb (length b) (p + 1) ≡ false = ground (arith, r.room) in
      rw (room, byte_at p (length h.compressions) (h.compressions ++ rest) r)
        (after_compression_found (p + (1 + length h.compressions)) o (
          Rest-append p (1 + length h.compressions) (length h.compressions ∷ h.compressions) rest
            (omega arith) r))

  after_session_found :
      (p : ℕ)
      → All IsOther h.others
      → Rest b p (
          (two_bytes_of (length h.ciphers) ++ h.ciphers)
          ++ ((length h.compressions ∷ h.compressions)
              ++ (two_bytes_of (length (extension_part h)) ++ (extension_part h ++ trail))))
      → after_session b p ≡ some (returns (to_lower h.name))
  unfolding after_session then_go
  after_session_found p o r =
      let rest =
        (length h.compressions ∷ h.compressions)
        ++ (two_bytes_of (length (extension_part h)) ++ (extension_part h ++ trail)) in
      let room : ltb (length b) (p + 2) ≡ false = ground (arith, r.room) in
      rw (room, word_at p (length h.ciphers) (h.ciphers ++ rest) r)
        (after_ciphers_found (p + (2 + length h.ciphers)) o (
          Rest-append p (2 + length h.ciphers) (two_bytes_of (length h.ciphers) ++ h.ciphers) rest
            (omega arith) r))

  after_random_found :
      (p : ℕ)
      → All IsOther h.others
      → Rest b p (after_hello h trail)
      → after_random b p ≡ some (returns (to_lower h.name))
  unfolding after_random then_go
  after_random_found p o r =
      let rest =
        (two_bytes_of (length h.ciphers) ++ h.ciphers)
        ++ ((length h.compressions ∷ h.compressions)
            ++ (two_bytes_of (length (extension_part h)) ++ (extension_part h ++ trail))) in
      let room : ltb (length b) (p + 1) ≡ false = ground (arith, r.room) in
      rw (room, byte_at p (length h.session) (h.session ++ rest) r)
        (after_session_found (p + (1 + length h.session)) o (
          Rest-append p (1 + length h.session) (length h.session ∷ h.session) rest (omega arith) r))

  after_record_found :
      (p : ℕ)
      → All IsOther h.others
      → length h.hello_head ≡ 37
      → Rest b p (1 ∷ (h.hello_head ++ after_hello h trail))
      → after_record b p ≡ some (returns (to_lower h.name))
  unfolding after_record then_go
  after_record_found p o wide r =
      let room : ltb (length b) (p + 4) ≡ false =
        ground (arith, r.room, length-append h.hello_head (after_hello h trail), wide) in
      rw (room, byte_at p 1 (h.hello_head ++ after_hello h trail) r)
        (after_random_found (p + 4 + 2 + 32) o (
          subst (λ q. Rest b q (after_hello h trail)) (wide_head p)
            (Rest-append p 38 (1 ∷ h.hello_head) (after_hello h trail) (omega (arith, wide)) r)))
    where
      wide_head : (p : ℕ) → p + 38 ≡ p + 4 + 2 + 32
      wide_head p = omega arith

  parse_found :
      All IsOther h.others
      → length h.record_head ≡ 4
      → length h.hello_head ≡ 37
      → Rest b 0 (hello_bytes h trail)
      → parse_tls_sni b ≡ some (returns (to_lower h.name))
  unfolding parse_tls_sni then_go
  parse_found o four wide r =
      let rest = 1 ∷ (h.hello_head ++ after_hello h trail) in
      let room : ltb (length b) 5 ≡ false =
        ground (arith, r.room, length-append h.record_head rest, four) in
      rw (room, byte_at 0 0x16 (h.record_head ++ rest) r)
        (after_record_found 5 o wide
          (Rest-append 0 5 (0x16 ∷ h.record_head) rest (omega (arith, four)) r))

-- The server name of a ClientHello is found behind any session id, cipher suites, compression
-- methods and other extensions, with any extensions and bytes behind it: the result is the name in
-- lower case. The record's version and length take 4 bytes, and the message's length, version and
-- random bytes 37; no extension before the server name's has its type.
pub parse_tls_sni-hello_bytes :
    (h : ClientHello) (trail : Bytes)
    → length h.record_head ≡ 4
    → length h.hello_head ≡ 37
    → All IsOther h.others
    → parse_tls_sni (hello_bytes h trail) ≡ some (returns (to_lower h.name))
parse_tls_sni-hello_bytes h trail four wide o =
    parse_found h trail (hello_bytes h trail) o four wide (whole_Rest (hello_bytes h trail))
