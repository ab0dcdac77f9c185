-- ===== src/Transparent/Destination.antt =====
-- Where a redirected connection is sent.
use luci_app_gowan.Common.{
  ℕ, zero, suc, ◌+◌, ◌*◌, ◌≤◌, ◌≡◌, ◌≢◌, refl, ap, ◌∙◌, ◌⊎◌, inl, inr, pos, true, false, Bool, ◌||◌,
  Option, none, some, [], ◌∷◌, arith, Bytes, codes, text_eq, text_eq_iff, take, itoa, length, All,
  Bool-cases, if◌then◌else◌,
}
use luci_app_gowan.Net.Print.{quad, quad-IsPlain, split_host_port-host_port, itoa_inj}
use luci_app_gowan.Balancer.{Run, returns}
use luci_app_gowan.Balancer.Choice.{IsReady}
use luci_app_gowan.Selection.{World, Request}
use luci_app_gowan.Dispatch.{Env, Dispatched, map_run, client_ip_of, request_of}
use luci_app_gowan.Dispatch.Attempts.{IsSteady}
use luci_app_gowan.Dispatch.Replies.{IsDialledFor, dispatch_for}
use luci_app_gowan.Socks.{at}
use luci_app_gowan.Server.Served.{request_of-quad, quad_shown}
use luci_app_gowan.Sniff.Safety.{parse_tls_sni-Ends}
use luci_app_gowan.Sniff.Http.{parse_http_host}
use luci_app_gowan.Transparent.{
  Accepted, orig_dst_from_bytes, get_original_dst, port_of, sniffed, sniff_dest, Outcome, dropped,
  dispatched, dispatch_sniffed, handle_original, handle_transparent_connection,
}

-- The port of a `sockaddr_in`.
abbrev pub recorded_port : Bytes → ℕ
recorded_port m = at m 2 * 256 + at m 3

abbrev pub IsByte : ℕ → Type 0
IsByte c = c ≤ 255

at-IsByte : (m : Bytes) (i : ℕ) → All IsByte m → at m i ≤ 255
at-IsByte [] i h = omega arith
at-IsByte (c ∷ m) zero h = h.0
at-IsByte (c ∷ m) (suc i) h = at-IsByte m i h.1

port_of-orig_dst : (m : Bytes) → port_of (orig_dst_from_bytes m) ≡ itoa (recorded_port m)
unfolding orig_dst_from_bytes
port_of-orig_dst m = ap port_part (
    split_host_port-host_port (quad (at m 4) (at m 5) (at m 6) (at m 7)) (recorded_port m)
      (quad-IsPlain (at m 4) (at m 5) (at m 6) (at m 7))
      (quad_shown (at m 4) (at m 5) (at m 6) (at m 7)))
  where
    port_part : Option (Bytes × Bytes) → Bytes
    port_part none = []
    port_part (some (host, port)) = port

abbrev pub is_sniffed : Bytes → Bool
is_sniffed port = text_eq port (codes "443") || text_eq port (codes "80")

-- What is sniffed, a name, and the bytes read ahead: on the ports 443 and 80 all that the first read
-- gave, on others none.
abbrev pub Sniffed : Bytes → Bytes → Bytes → Bytes → Type 0
Sniffed first_read port host prebuf =
    (sniff_dest first_read port ≡ some (returns (host, prebuf)))
    × (prebuf ≡ (if is_sniffed port then take 4096 first_read else []))

sniffed-some :
    (port buf : Bytes)
    → (host : Bytes) × (prebuf : Bytes) × (sniffed port buf ≡ some (returns (host, prebuf)))
      × (prebuf ≡ buf)
unfolding sniffed
sniffed-some port [] = ([], [], refl, refl)
sniffed-some port (c ∷ buf) = elim (Bool-cases (text_eq port (codes "443"))) [
  | inl tls ↦
      let (host, e) = parse_tls_sni-Ends (c ∷ buf) in (host, c ∷ buf, rw (tls, e) refl, refl)
  | inr http ↦ (parse_http_host (c ∷ buf), c ∷ buf, rw http refl, refl)
]

sniff_dest-Sniffed :
    (first_read port : Bytes)
    → (host : Bytes) × (prebuf : Bytes) × Sniffed first_read port host prebuf
unfolding sniff_dest
sniff_dest-Sniffed first_read port = elim (Bool-cases (text_eq port (codes "443"))) [
  | inl tls ↦
      let (host, prebuf, e, all) = sniffed-some port (take 4096 first_read) in
      (host, prebuf, (rw tls e, rw tls all))
  | inr plain ↦ elim (Bool-cases (text_eq port (codes "80"))) [
    | inl http ↦
        let (host, prebuf, e, all) = sniffed-some port (take 4096 first_read) in
        (host, prebuf, (rw (plain, http) e, rw (plain, http) all))
    | inr other ↦ ([], [], (rw (plain, other) refl, rw (plain, other) refl))
  ]
]

-- The request for a recorded destination whose sniffed name is `host`.
abbrev pub redirected : Bytes → Bytes → Bytes → Request
redirected peer m host = record {
  client_ip = client_ip_of peer;
  dest_ip = quad (at m 4) (at m 5) (at m 6) (at m 7);
  dest_host = host;
  dest_port = pos (recorded_port m);
}

request_of-orig_dst :
    (peer m host : Bytes)
    → All IsByte m
    → request_of peer (orig_dst_from_bytes m) host ≡ redirected peer m host
unfolding orig_dst_from_bytes
request_of-orig_dst peer m host h =
    request_of-quad peer host (at m 4) (at m 5) (at m 6) (at m 7) (recorded_port m)
      (at-IsByte m 4 h) (at-IsByte m 5 h) (at-IsByte m 6 h) (at-IsByte m 7 h)
      (omega (arith, at-IsByte m 2 h, at-IsByte m 3 h))

-- The sniffed connection is dispatched to its destination.
abbrev pub IsRelayed : Env → World → Bytes → Bytes → Bytes → Option (Run Outcome) → Type 0
IsRelayed env w peer m first_read o =
    (host : Bytes) × (prebuf : Bytes) × (x : Dispatched) × Sniffed first_read
      (itoa (recorded_port m)) host prebuf
    × (o ≡ some (returns (dispatched x)))
    × IsDialledFor env w (redirected peer m host) false prebuf x

module _ (env : Env) (w : World) (peer m first_read : Bytes) (bytes : All IsByte m)
    (ready : IsReady w.fleet) (steady : IsSteady env (length w.fleet.lb_list)) where
  dispatch_sniffed-IsRelayed : IsRelayed env w peer m first_read (
      dispatch_sniffed env w peer
        (orig_dst_from_bytes m)
        (sniff_dest first_read (itoa (recorded_port m))))
  unfolding dispatch_sniffed
  dispatch_sniffed-IsRelayed =
      let (host, prebuf, s) = sniff_dest-Sniffed first_read (itoa (recorded_port m)) in
      let (x, e, dialled) =
        dispatch_for env w peer (orig_dst_from_bytes m) host false prebuf
          (request_of-orig_dst peer m host bytes) ready steady in
      (host, prebuf, x, s, rw (s.0, dispatch_sniffed) (ap (map_run dispatched) e), dialled)

-- An accepted TCP connection with its recorded destination.
abbrev pub recorded : Bytes → Bytes → Accepted
recorded m first_read = record { is_tcp = true; original = some m; first_read = first_read }

handle_recorded :
    (env : Env) (w : World) (peer m first_read : Bytes) (lport : ℕ)
    → handle_transparent_connection env w peer (recorded m first_read) lport ≡ (
        if text_eq (itoa (recorded_port m)) (itoa lport)
        then some (returns dropped)
        else dispatch_sniffed env w peer
            (orig_dst_from_bytes m)
            (sniff_dest first_read (itoa (recorded_port m))))
unfolding handle_transparent_connection handle_original get_original_dst
handle_recorded env w peer m first_read lport = ap after_port (port_of-orig_dst m)
  where
    after_port : Bytes → Option (Run Outcome)
    after_port port =
        if text_eq port (itoa lport)
        then some (returns dropped)
        else dispatch_sniffed env w peer (orig_dst_from_bytes m) (sniff_dest first_read port)

-- A redirected connection is dropped exactly where its recorded port is the listener's own; else
-- backends are picked for the recorded address and port, with the host name that was sniffed, and
-- dialled until one answers or all that are active have failed; where the recorded port is 443 or 80,
-- the first read, of up to 4096 bytes, goes to the backend that answers, and otherwise nothing was
-- read; no byte of the program's goes to the client.
-- The recorded bytes are bytes, the listener's port is one, and `lb_index` is in range and kept so.
pub handle_transparent_connection-IsRelayed :
    (env : Env) (w : World) (peer m first_read : Bytes) (lport : ℕ)
    → All IsByte m
    → lport ≤ 65535
    → IsReady w.fleet
    → IsSteady env (length w.fleet.lb_list)
    → ((recorded_port m ≡ lport)
        × (handle_transparent_connection env w peer (recorded m first_read) lport
            ≡ some (returns dropped)))
      ⊎ ((recorded_port m ≢ lport)
          × IsRelayed env w peer m first_read
              (handle_transparent_connection env w peer (recorded m first_read) lport))
handle_transparent_connection-IsRelayed env w peer m first_read lport bytes small ready steady =
    let run = handle_recorded env w peer m first_read lport in
    elim (Bool-cases (text_eq (itoa (recorded_port m)) (itoa lport))) [
      | inl own ↦ inl (
        itoa_inj (recorded_port m) lport (omega (arith, at-IsByte m 2 bytes, at-IsByte m 3 bytes))
            small ((text_eq_iff (itoa (recorded_port m)) (itoa lport)).0 own),
        rw own at run,
      )
      | inr other ↦
          let (host, prebuf, x, s, e, dialled) =
            dispatch_sniffed-IsRelayed env w peer m first_read bytes ready steady in
          inr (
            λ same.
                cc (other, (text_eq_iff (itoa (recorded_port m)) (itoa lport)).1 (ap itoa same)),
            (host, prebuf, x, s, (rw other at run) ∙ e, dialled),
          )
    ]
