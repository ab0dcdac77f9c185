-- ===== src/Tests/Sniff.antt =====
-- A ClientHello with a server name.
use luci_app_gowan.Common.{
  ◌≡◌, refl, some, [], ◌∷◌, ◌++◌, Bytes, codes, replicate, arith, All, text_eq,
}
use luci_app_gowan.Balancer.{returns}
use luci_app_gowan.Sniff.{
  byte, and_then, word, slice, server_name, then_go, extensions, after_compression, after_ciphers,
  after_session, after_random, after_record, parse_tls_sni,
}
use luci_app_gowan.Net.Print.{Without}
use luci_app_gowan.Sniff.Http.{
  is_host_line, parse_http_host, joined, with_port, IsOtherLine, IsHostByte, padded,
  parse_http_host-joined,
}
use luci_app_gowan.Sniff.Hello.{ClientHello, hello_bytes, parse_tls_sni-hello_bytes}
use luci_app_gowan.Sniff.Safety.{Ends, parse_tls_sni-Ends}

-- Empty session id, one cipher suite, one compression method, and one extension for "A.io".
abbrev client_hello : Bytes
client_hello =
    0x16 ∷ 3 ∷ 1 ∷ 0 ∷ 60 ∷ 1 ∷ 0 ∷ 0 ∷ 56 ∷ 3 ∷ 3 ∷ []
    ++ replicate 32 7
    ++ (0 ∷ 0 ∷ 2 ∷ 19 ∷ 1 ∷ 1 ∷ 0 ∷ 0 ∷ 13 ∷ 0 ∷ 0 ∷ 0 ∷ 9 ∷ 0 ∷ 7 ∷ 0 ∷ 0 ∷ 4 ∷ [])
    ++ codes "A.io"

parse_tls_sni-Ends_example : Ends (parse_tls_sni client_hello)
parse_tls_sni-Ends_example = parse_tls_sni-Ends client_hello

client_hello_name : parse_tls_sni client_hello ≡ some (returns (codes "a.io"))
unfolding byte and_then word slice server_name then_go extensions after_compression after_ciphers
    after_session after_random after_record parse_tls_sni
client_hello_name = refl

abbrev request_line : Bytes
request_line = codes "GET / HTTP/1.1"

request_line-Without : Without 13 request_line
request_line-Without = (
  λ e. omega (arith, e),
  (
    λ e. omega (arith, e),
    (
      λ e. omega (arith, e),
      (
        λ e. omega (arith, e),
        (
          λ e. omega (arith, e),
          (
            λ e. omega (arith, e),
            (
              λ e. omega (arith, e),
              (
                λ e. omega (arith, e),
                (
                  λ e. omega (arith, e),
                  (
                    λ e. omega (arith, e),
                    (
                      λ e. omega (arith, e),
                      (λ e. omega (arith, e), (λ e. omega (arith, e), (λ e. omega (arith, e), tt))),
                    ),
                  ),
                ),
              ),
            ),
          ),
        ),
      ),
    ),
  ),
)

request_line-IsOtherLine : IsOtherLine request_line
unfolding is_host_line text_eq
request_line-IsOtherLine = (request_line-Without, refl, refl)

name-IsHostByte : All IsHostByte (codes "A.io")
name-IsHostByte = (
  ((λ e. omega (arith, e), λ e. omega (arith, e), λ e. omega (arith, e)), refl, omega arith),
  (
    ((λ e. omega (arith, e), λ e. omega (arith, e), λ e. omega (arith, e)), refl, omega arith),
    (
      ((λ e. omega (arith, e), λ e. omega (arith, e), λ e. omega (arith, e)), refl, omega arith),
      (
        ((λ e. omega (arith, e), λ e. omega (arith, e), λ e. omega (arith, e)), refl, omega arith),
        tt,
      ),
    ),
  ),
)

parse_http_host-joined_example :
    parse_http_host (
      joined (request_line ∷ []) (
        (codes "HOST:" ++ padded [] (with_port (codes "A.io") (some 80)) (9 ∷ []))
        ++ (13 ∷ 10 ∷ [])))
    ≡ codes "a.io"
unfolding text_eq
parse_http_host-joined_example =
    parse_http_host-joined (request_line ∷ []) (codes "HOST:") [] (codes "A.io") (some 80) (9 ∷ [])
      [] (request_line-IsOtherLine, tt) refl refl tt name-IsHostByte refl
      ((refl, λ e. omega (arith, e)), tt)

-- The ClientHello above, with a padding extension in front of the name.
abbrev padded_hello : ClientHello
padded_hello = record {
  record_head = 3 ∷ 1 ∷ 0 ∷ 60 ∷ [];
  hello_head = 0 ∷ 0 ∷ 56 ∷ 3 ∷ 3 ∷ replicate 32 7;
  session = [];
  ciphers = 19 ∷ 1 ∷ [];
  compressions = 0 ∷ [];
  others = record { kind = 21; body = 0 ∷ 0 ∷ [] } ∷ [];
  list_len = 7;
  name = codes "A.io";
  more = [];
  later = [];
}

parse_tls_sni-hello_bytes_example :
    parse_tls_sni (hello_bytes padded_hello []) ≡ some (returns (codes "a.io"))
parse_tls_sni-hello_bytes_example =
    parse_tls_sni-hello_bytes padded_hello [] refl refl (λ e. omega (arith, e), tt)
