-- ===== src/Relay/Keys.antt =====
-- The key of a flow tells its client and its destination.
use luci_app_gowan.Common.{
  ℕ, zero, suc, ◌≤◌, ◌≡◌, ◌≢◌, sym, ap, ◌∙◌, inl, some, [], ◌∷◌, ◌++◌, arith, Bytes, All, cut,
  split, itoa, length,
}
use luci_app_gowan.Net.{split_host_port}
use luci_app_gowan.Net.Print.{
  quad, host_port, Without, All-append, itoa-Without, split-quad, itoa_inj, quad-IsPlain,
  split_host_port-host_port,
}
use luci_app_gowan.Server.Served.{quad_shown}
use luci_app_gowan.Socks.{at}
use luci_app_gowan.Socks.Reads.{four_bytes}
use luci_app_gowan.Relay.{SockaddrInet4, sa_ip, sa_string, flow_key}

abbrev pub IsByte : ℕ → Type 0
IsByte c = c ≤ 255

-- Four bytes, and a port.
abbrev pub IsSockaddr : SockaddrInet4 → Type 0
IsSockaddr sa = (length sa.addr ≡ 4) × All IsByte sa.addr × (sa.port ≤ 65535)

octet_bound : (b : Bytes) (i : ℕ) → All IsByte b → at b i ≤ 65535
octet_bound [] i h = omega arith
octet_bound (c ∷ b) zero h = omega (arith, h.0)
octet_bound (c ∷ b) (suc i) h = octet_bound b i h.1

quad_inj :
    (s t : Bytes)
    → length s ≡ 4
    → length t ≡ 4
    → All IsByte s
    → All IsByte t
    → quad (at s 0) (at s 1) (at s 2) (at s 3) ≡ quad (at t 0) (at t 1) (at t 2) (at t 3)
    → s ≡ t
quad_inj s t ls lt hs ht e =
    let parts =
      sym (split-quad (at s 0) (at s 1) (at s 2) (at s 3))
      ∙ ap (split b'.') e
      ∙ split-quad (at t 0) (at t 1) (at t 2) (at t 3) in
    let p0 = itoa_inj (at s 0) (at t 0) (octet_bound s 0 hs) (octet_bound t 0 ht) (cc parts) in
    let p1 = itoa_inj (at s 1) (at t 1) (octet_bound s 1 hs) (octet_bound t 1 ht) (cc parts) in
    let p2 = itoa_inj (at s 2) (at t 2) (octet_bound s 2 hs) (octet_bound t 2 ht) (cc parts) in
    let p3 = itoa_inj (at s 3) (at t 3) (octet_bound s 3 hs) (octet_bound t 3 ht) (cc parts) in
    four_bytes s ls
    ∙ ap (λ x. x ∷ at s 1 ∷ at s 2 ∷ at s 3 ∷ []) p0
    ∙ ap (λ x. at t 0 ∷ x ∷ at s 2 ∷ at s 3 ∷ []) p1
    ∙ ap (λ x. at t 0 ∷ at t 1 ∷ x ∷ at s 3 ∷ []) p2
    ∙ ap (λ x. at t 0 ∷ at t 1 ∷ at t 2 ∷ x ∷ []) p3
    ∙ sym (four_bytes t lt)

split_sa_string :
    (sa : SockaddrInet4) → split_host_port (sa_string sa) ≡ some (sa_ip sa, itoa sa.port)
unfolding sa_string sa_ip
split_sa_string sa =
    split_host_port-host_port (quad (at sa.addr 0) (at sa.addr 1) (at sa.addr 2) (at sa.addr 3))
      sa.port (quad-IsPlain (at sa.addr 0) (at sa.addr 1) (at sa.addr 2) (at sa.addr 3))
      (quad_shown (at sa.addr 0) (at sa.addr 1) (at sa.addr 2) (at sa.addr 3))

sa_string_inj :
    (s t : SockaddrInet4) → IsSockaddr s → IsSockaddr t → sa_string s ≡ sa_string t → s ≡ t
unfolding sa_ip
sa_string_inj s t (ls, hs, ks) (lt, ht, kt) e =
    let parts = sym (split_sa_string s) ∙ ap split_host_port e ∙ split_sa_string t in
    let ips : sa_ip s ≡ sa_ip t = cc parts in
    let ports : itoa s.port ≡ itoa t.port = cc parts in
    let p : s.addr ≡ t.addr = quad_inj s.addr t.addr ls lt hs ht ips in
    let q : s.port ≡ t.port = itoa_inj s.port t.port ks kt ports in
    ap (λ (x : Bytes). record { port = s.port; addr = x }) p
    ∙ ap (λ (x : ℕ). record { port = x; addr = t.addr }) q

cut-append : (sep : ℕ) (x r : Bytes) → Without sep x → cut sep (x ++ (sep ∷ r)) ≡ some (x, r)
unfolding cut
cut-append sep [] r h = ground arith
cut-append sep (c ∷ x) r h = rw (cut-append sep x r h.1, cut) (ground (arith, h.0))

sa_string-Without : (sa : SockaddrInet4) → Without b'-' (sa_string sa)
unfolding sa_string sa_ip quad host_port
sa_string-Without sa =
    let dashless : (n : ℕ) → Without b'-' (itoa n) = λ n. itoa-Without b'-' n (inl (omega arith)) in
    let app : (x y : Bytes) → Without b'-' x → Without b'-' y → Without b'-' (x ++ y) =
      λ x y. All-append (λ c. c ≢ b'-') x y in
    app _ _
      (app _ _ (dashless (at sa.addr 0)) (
        (λ e. cc e),
        app _ _ (dashless (at sa.addr 1))
            ((λ e. cc e), app _ _ (dashless (at sa.addr 2)) ((λ e. cc e), dashless (at sa.addr 3))),
      ))
      ((λ e. cc e), dashless sa.port)

-- Two flows of one key have one client and one destination.
pub flow_key_inj :
    (c d c' d' : SockaddrInet4)
    → IsSockaddr c
    → IsSockaddr d
    → IsSockaddr c'
    → IsSockaddr d'
    → flow_key c d ≡ flow_key c' d'
    → (c ≡ c') × (d ≡ d')
unfolding flow_key
flow_key_inj c d c' d' hc hd hc' hd' e =
    let parts =
      sym (cut-append b'-' (sa_string c) (b'>' ∷ sa_string d) (sa_string-Without c))
      ∙ ap (cut b'-') e
      ∙ cut-append b'-' (sa_string c') (b'>' ∷ sa_string d') (sa_string-Without c') in
    (sa_string_inj c c' hc hc' (cc parts), sa_string_inj d d' hd hd' (cc parts))
