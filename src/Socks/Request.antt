-- ===== src/Socks/Request.antt =====
-- What a client must have sent for its request to be read, and the text of its destination.
use luci_app_gowan.Common.{
  ℕ, ◌+◌, ◌*◌, ◌≡◌, refl, sym, subst, ap, ◌∙◌, inl, inr, [], ◌∷◌, ◌++◌, Bytes, length, ◌==◌, ==_iff,
  Bool-cases,
}
use luci_app_gowan.Net.Print.{quad, host_port}
use luci_app_gowan.Socks.Conn.{
  unsupported_version, unsupported_command, unsupported_address, request_failed, Result, ok, err,
  Connection, Action, ◌>>=◌, pure, read_full,
}
use luci_app_gowan.Socks.{
  at, read_request, ipv4_address, domain_address, request_address, request_of_header,
  client_connection_request, big_endian, ipv4, domain_name, connect, or_refuse, server_failure,
  command_not_supported, address_not_supported,
}
use luci_app_gowan.Socks.Reads.{
  stream, bind_ok, read_full_ok, Takes, Takes-trans, one_byte, two_bytes, four_bytes, refuse_not_ok,
}

-- The destination of a request: an address of four bytes or a host name, and the port's two bytes.
pub data Target : Type 0 where
  ip : (a b c d hi lo : ℕ) → Target
  host : (name : Bytes) (hi lo : ℕ) → Target

abbrev pub target_bytes : Target → Bytes
target_bytes (ip a b c d hi lo) = 1 ∷ a ∷ b ∷ c ∷ d ∷ hi ∷ lo ∷ []
target_bytes (host name hi lo) = 3 ∷ length name ∷ (name ++ (hi ∷ lo ∷ []))

abbrev pub target_text : Target → Bytes
target_text (ip a b c d hi lo) = host_port (quad a b c d) (hi * 256 + lo)
target_text (host name hi lo) = host_port name (hi * 256 + lo)

abbrev pub request_bytes : ℕ → Target → Bytes
request_bytes reserved t = 5 ∷ 1 ∷ reserved ∷ target_bytes t

read_request_ok :
    (n : ℕ) (c : Connection) {b : Bytes} {d : Connection}
    → read_request n c ≡ (ok b, d)
    → (length b ≡ n) × Takes c d b
unfolding read_request
read_request_ok n c {b} {d} e =
    by_result (read_full n request_failed c).0 (read_full n request_failed c).1 refl e
  where
    by_result :
        (r : Result Bytes) (x : Connection)
        → read_full n request_failed c ≡ (r, x)
        → or_refuse r x ≡ (ok b, d)
        → (length b ≡ n) × Takes c d b
    by_result (ok a) x p q = read_full_ok n request_failed c (p ∙ q)
    by_result (err y) x p q = absurd (refuse_not_ok server_failure request_failed x q)

-- What the rest of a request took off the stream behind the type of its address.
abbrev Addressed : ℕ → Connection → Connection → Bytes → Type 0
Addressed kind c d t =
    (tg : Target) × (t ≡ target_text tg)
    × (kind ∷ stream c.segments ≡ target_bytes tg ++ stream d.segments)

abbrev after_ip : Bytes → Action Bytes
after_ip a = do
  port ← read_request 2
  pure (host_port (quad (at a 0) (at a 1) (at a 2) (at a 3)) (big_endian port))

ipv4_address_ok :
    (c : Connection) {t : Bytes} {d : Connection} → ipv4_address c ≡ (ok t, d) → Addressed 1 c d t
unfolding ipv4_address
ipv4_address_ok c {t} {d} e =
    let (a, c1, e1, k1) = bind_ok (read_request 4) after_ip c e in
    let (l1, s1) = read_request_ok 4 c e1 in
    let (port, c2, e2, k2) =
      bind_ok (read_request 2)
        (λ port. pure (host_port (quad (at a 0) (at a 1) (at a 2) (at a 3)) (big_endian port))) c1
        k1 in
    let (l2, s2) = read_request_ok 2 c1 e2 in
    let same : c2 ≡ d = cc k2 in
    let bytes : a ++ port ≡ at a 0 ∷ at a 1 ∷ at a 2 ∷ at a 3 ∷ at port 0 ∷ at port 1 ∷ [] =
      ap (λ x. x ++ port) (four_bytes a l1)
      ∙ ap (λ x. at a 0 ∷ at a 1 ∷ at a 2 ∷ at a 3 ∷ x) (two_bytes port l2) in
    (
      ip (at a 0) (at a 1) (at a 2) (at a 3) (at port 0) (at port 1),
      cc k2,
      ap (◌∷◌ 1) (
          Takes-trans c c1 c2 a port s1 s2
          ∙ ap (λ b. b ++ stream c2.segments) bytes
          ∙ ap
              (λ (x : Connection).
                at a 0 ∷ at a 1 ∷ at a 2 ∷ at a 3 ∷ at port 0 ∷ at port 1 ∷ stream x.segments)
              same),
    )

abbrev after_name : Bytes → Action Bytes
after_name name = do port ← read_request 2; pure (host_port name (big_endian port))

domain_address_ok :
    (c : Connection) {t : Bytes} {d : Connection} → domain_address c ≡ (ok t, d) → Addressed 3 c d t
unfolding domain_address
domain_address_ok c {t} {d} e =
    let (len, c1, e1, k1) =
      bind_ok (read_request 1) (λ len. read_request (at len 0) >>= after_name) c e in
    let (l1, s1) = read_request_ok 1 c e1 in
    let (name, c2, e2, k2) = bind_ok (read_request (at len 0)) after_name c1 k1 in
    let (l2, s2) = read_request_ok (at len 0) c1 e2 in
    let (port, c3, e3, k3) =
      bind_ok (read_request 2) (λ port. pure (host_port name (big_endian port))) c2 k2 in
    let (l3, s3) = read_request_ok 2 c2 e3 in
    let same : c3 ≡ d = cc k3 in
    let bytes : len ++ (name ++ port) ≡ length name ∷ (name ++ (at port 0 ∷ at port 1 ∷ [])) =
      ap (λ x. x ++ (name ++ port)) (one_byte len l1 ∙ ap (λ n. n ∷ []) (sym l2))
      ∙ ap (λ x. length name ∷ (name ++ x)) (two_bytes port l3) in
    (
      host name (at port 0) (at port 1),
      cc k3,
      ap (◌∷◌ 3) (
          Takes-trans c c1 c3 len (name ++ port) s1 (Takes-trans c1 c2 c3 name port s2 s3)
          ∙ ap (λ b. b ++ stream c3.segments) bytes
          ∙ ap
              (λ (x : Connection).
                (length name ∷ (name ++ (at port 0 ∷ at port 1 ∷ []))) ++ stream x.segments)
              same),
    )

request_address_ok :
    (kind : ℕ) (c : Connection) {t : Bytes} {d : Connection}
    → request_address kind c ≡ (ok t, d)
    → Addressed kind c d t
unfolding request_address
request_address_ok kind c {t} {d} e = elim (Bool-cases (kind == ipv4)) [
  | inl v4 ↦
      subst (λ k. Addressed k c d t) (sym ((==_iff kind ipv4).0 v4))
        (ipv4_address_ok c (rw v4 at e))
  | inr not_v4 ↦ elim (Bool-cases (kind == domain_name)) [
    | inl named ↦
        subst (λ k. Addressed k c d t) (sym ((==_iff kind domain_name).0 named))
          (domain_address_ok c (rw (not_v4, named) at e))
    | inr other ↦
        absurd (refuse_not_ok address_not_supported unsupported_address c (rw (not_v4, other) at e))
  ]
]

pub client_connection_request_ok :
    (c : Connection) {t : Bytes} {d : Connection}
    → client_connection_request c ≡ (ok t, d)
    → (reserved : ℕ) × (tg : Target) × (t ≡ target_text tg) × Takes c d (request_bytes reserved tg)
unfolding client_connection_request request_of_header
client_connection_request_ok c {t} {d} e =
    let (header, c1, e1, k1) = bind_ok (read_request 4) request_of_header c e in
    let (l1, s1) = read_request_ok 4 c e1 in
    elim (Bool-cases (at header 0 == 5)) [
      | inr wrong ↦ absurd (refuse_not_ok server_failure unsupported_version c1 (rw wrong at k1))
      | inl v5 ↦ elim (Bool-cases (at header 1 == connect)) [
        | inr other ↦
            absurd
              (refuse_not_ok command_not_supported unsupported_command c1 (rw (v5, other) at k1))
        | inl conn ↦
            let (tg, text, bytes) = request_address_ok (at header 3) c1 (rw (v5, conn) at k1) in
            let h : header ≡ 5 ∷ 1 ∷ at header 2 ∷ at header 3 ∷ [] =
              four_bytes header l1
              ∙ ap (λ x. x ∷ at header 1 ∷ at header 2 ∷ at header 3 ∷ [])
                  ((==_iff (at header 0) 5).0 v5)
              ∙ ap (λ x. 5 ∷ x ∷ at header 2 ∷ at header 3 ∷ [])
                  ((==_iff (at header 1) 1).0 conn) in
            (
              at header 2,
              tg,
              text,
              s1 ∙ ap (λ b. b ++ stream c1.segments) h ∙ ap (λ b. 5 ∷ 1 ∷ at header 2 ∷ b) bytes,
            )
      ]
    ]
