-- ===== src/Tests/Transparent.antt =====
-- A connection that was redirected from 203.0.113.9:443, before two backends, of which the second
-- answers.
use luci_app_gowan.Common.{
  ◌≡◌, ◌≢◌, refl, inr, ◌⊎◌, some, [], ◌∷◌, arith, Bytes, codes, itoa, emit, All,
}
use luci_app_gowan.Net.Print.{quad, host_port}
use luci_app_gowan.Balancer.{returns}
use luci_app_gowan.Transparent.{orig_dst_from_bytes, dropped, handle_transparent_connection}
use luci_app_gowan.Transparent.Destination.{
  IsByte, recorded, recorded_port, IsRelayed, handle_transparent_connection-IsRelayed,
}
use luci_app_gowan.Tests.Sample.{world}
use luci_app_gowan.Tests.Dispatch.{env, env-IsSteady}

abbrev sockaddr : Bytes
sockaddr = 2 ∷ 0 ∷ 1 ∷ 187 ∷ 203 ∷ 0 ∷ 113 ∷ 9 ∷ 0 ∷ 0 ∷ 0 ∷ 0 ∷ 0 ∷ 0 ∷ 0 ∷ 0 ∷ []

sockaddr-IsByte : All IsByte sockaddr
sockaddr-IsByte = (
  omega arith,
  (
    omega arith,
    (
      omega arith,
      (
        omega arith,
        (
          omega arith,
          (
            omega arith,
            (
              omega arith,
              (
                omega arith,
                (
                  omega arith,
                  (
                    omega arith,
                    (
                      omega arith,
                      (omega arith, (omega arith, (omega arith, (omega arith, (omega arith, tt))))),
                    ),
                  ),
                ),
              ),
            ),
          ),
        ),
      ),
    ),
  ),
)

abbrev peer : Bytes
peer = codes "10.0.1.100:40000"

abbrev hello : Bytes
hello = codes "GET / HTTP/1.1"

handle_transparent_connection-IsRelayed_example :
    ((recorded_port sockaddr ≡ 8081)
      × (handle_transparent_connection env (world []) peer (recorded sockaddr hello) 8081
          ≡ some (returns dropped)))
    ⊎ ((recorded_port sockaddr ≢ 8081)
        × IsRelayed env
            (world [])
            peer
            sockaddr
            hello
            (handle_transparent_connection env (world []) peer (recorded sockaddr hello) 8081))
handle_transparent_connection-IsRelayed_example =
    handle_transparent_connection-IsRelayed env (world []) peer sockaddr hello 8081 sockaddr-IsByte
      (omega arith) (inr (omega arith)) env-IsSteady

destination : orig_dst_from_bytes sockaddr ≡ codes "203.0.113.9:443"
unfolding orig_dst_from_bytes quad host_port itoa emit
destination = refl
