-- ===== src/Transparent.antt =====
-- Redirected TCP connections of gowan/src/transparent.go: `orig_dst_from_bytes`,
-- `get_original_dst`, `sniff_dest` and `handle_transparent_connection`. What the kernel recorded and
-- what the client sends first are given.
pub mod Destination
use luci_app_gowan.Common.{
  ℕ, ◌+◌, ◌*◌, Bool, true, false, not, ◌&&◌, Option, none, some, List, [], ◌∷◌, Bytes, codes,
  text_eq, is_blank, take, itoa, if◌then◌else◌,
}
use luci_app_gowan.Net.{split_host_port}
use luci_app_gowan.Net.Print.{quad, host_port}
use luci_app_gowan.Balancer.{Run, panics, returns}
use luci_app_gowan.Selection.{World}
use luci_app_gowan.Dispatch.{Env, Dispatched, map_run, dispatch}
use luci_app_gowan.Socks.{at}
use luci_app_gowan.Sniff.{parse_tls_sni}
use luci_app_gowan.Sniff.Http.{parse_http_host}

unfoldable pub orig_dst_from_bytes : Bytes → Bytes
orig_dst_from_bytes m = host_port (quad (at m 4) (at m 5) (at m 6) (at m 7)) (at m 2 * 256 + at m 3)

-- An accepted connection: whether it is a `*net.TCPConn`, the sixteen bytes that the socket option
-- gives, if it gives any, and what the first read gives, nothing if it fails.
pub record Accepted : Type 0 where
  pub is_tcp : Bool
  pub original : Option Bytes
  pub first_read : Bytes

unfoldable pub get_original_dst : Option Bytes → Option Bytes
unfolding orig_dst_from_bytes
get_original_dst none = none
get_original_dst (some m) = some (orig_dst_from_bytes m)

-- `fmt.Sprint(port)` of a port in the text "host:port"; empty if there is none.
abbrev pub port_of : Bytes → Bytes
port_of dst = elim (split_host_port dst) [ none ↦ [] | some (host, port) ↦ port ]

sniffed : Bytes → Bytes → Option (Run (Bytes × Bytes))
unfolding parse_tls_sni parse_http_host
sniffed port [] = some (returns ([], []))
sniffed port (c ∷ buf) =
    if text_eq port (codes "443")
    then map_run (λ host. (host, c ∷ buf)) (parse_tls_sni (c ∷ buf))
    else some (returns (parse_http_host (c ∷ buf), c ∷ buf))

-- The host name, and the bytes to replay. The buffer has 4096 bytes.
unfoldable pub sniff_dest : Bytes → Bytes → Option (Run (Bytes × Bytes))
unfolding sniffed
sniff_dest first_read port =
    if not (text_eq port (codes "443")) && not (text_eq port (codes "80"))
    then some (returns ([], []))
    else sniffed port (take 4096 first_read)

-- A connection is closed, or dispatched.
pub data Outcome : Type 0 where
  dropped : Outcome
  dispatched : Dispatched → Outcome

unfoldable pub dispatch_sniffed :
    Env → World → Bytes → Bytes → Option (Run (Bytes × Bytes)) → Option (Run Outcome)
unfolding dispatch
dispatch_sniffed env w peer dst none = none
dispatch_sniffed env w peer dst (some panics) = some panics
dispatch_sniffed env w peer dst (some (returns (host, prebuf))) =
    map_run dispatched (dispatch env w peer dst host false prebuf)

unfoldable pub handle_original :
    Env → World → Bytes → Bytes → ℕ → Option Bytes → Option (Run Outcome)
unfolding sniff_dest dispatch_sniffed
handle_original env w peer first_read lport none = some (returns dropped)
handle_original env w peer first_read lport (some dst) =
    if text_eq (port_of dst) (itoa lport)
    then some (returns dropped)
    else dispatch_sniffed env w peer dst (sniff_dest first_read (port_of dst))

unfoldable pub handle_transparent_connection :
    Env → World → Bytes → Accepted → ℕ → Option (Run Outcome)
unfolding get_original_dst handle_original
handle_transparent_connection env w peer conn lport =
    if not conn.is_tcp
    then some (returns dropped)
    else handle_original env w peer conn.first_read lport (get_original_dst conn.original)
