-- ===== src/Tests/Relay.antt =====
-- The client 10.0.1.100:40000 and the server 203.0.113.9:53, before two backends.
use luci_app_gowan.Common.{
  ℕ, ◌≡◌, refl, ◌⊎◌, inl, inr, pos, true, false, Option, none, some, [], ◌∷◌, arith, Bytes, codes,
  itoa, emit, Bool-cases, ◌==◌,
}
use luci_app_gowan.Net.Print.{quad, host_port}
use luci_app_gowan.Balancer.{Run, panics, returns}
use luci_app_gowan.Flows.{UdpFlow, new_udp_table}
use luci_app_gowan.Relay.{
  SockaddrInet4, UdpSockets, Relay, Surroundings, parse_origdst, sa_ip, sa_string, flow_key,
  udp_handle_packet, reap_flows,
}
use luci_app_gowan.Relay.Keys.{IsSockaddr}
use luci_app_gowan.Relay.Routed.{Reach, start, Serves, udp_handle_packet-Serves}
use luci_app_gowan.Relay.Accounts.{IsAccounted, idle, handled, swept, Served-IsAccounted}
use luci_app_gowan.Tests.Sample.{world, at_time}

abbrev laptop : SockaddrInet4
laptop = record { port = 40000; addr = 10 ∷ 0 ∷ 1 ∷ 100 ∷ [] }

abbrev resolver : SockaddrInet4
resolver = record { port = 53; addr = 203 ∷ 0 ∷ 113 ∷ 9 ∷ [] }

laptop-IsSockaddr : IsSockaddr laptop
laptop-IsSockaddr =
    (refl, (omega arith, (omega arith, (omega arith, (omega arith, tt)))), omega arith)

resolver-IsSockaddr : IsSockaddr resolver
resolver-IsSockaddr =
    (refl, (omega arith, (omega arith, (omega arith, (omega arith, tt)))), omega arith)

abbrev nothing : UdpSockets
nothing = record { egress_lb = 0; egress_peer = []; reply_source = resolver; reply_client = laptop }

abbrev no_flow : UdpFlow
no_flow = record { lb = 0; last_seen = pos 0; closes = false }

abbrev relay : Relay
relay = record {
  world = world [];
  table = new_udp_table (λ a. no_flow) 0 (pos 60);
  sockets = λ a. nothing;
}

abbrev around : Surroundings
around = record {
  readings = at_time 10;
  dials = λ a. true;
  reply_socket = true;
  at_lookup = pos 10;
  at_touch = pos 10;
}

relay-Reach : Reach relay
unfolding new_udp_table
relay-Reach = start relay refl (inr (omega arith))

abbrev query : Bytes
query = codes "query"

udp_handle_packet-Serves_example :
    (s : Relay) × (out : Option (ℕ × Bytes)) × (udp_handle_packet relay laptop resolver query around
      ≡ returns (s, out))
    × ((out ≡ none) ⊎ ((a : ℕ) × (out ≡ some (a, query)) × Serves (s.sockets a) laptop resolver))
udp_handle_packet-Serves_example =
    udp_handle_packet-Serves relay laptop resolver query around relay-Reach laptop-IsSockaddr
      resolver-IsSockaddr

relay-IsAccounted : IsAccounted (λ a. pos 0) relay
unfolding new_udp_table
relay-IsAccounted b = elim (Bool-cases (b == 0)) [
  | inl first ↦ rw first refl
  | inr later ↦ rw later refl
]

abbrev Handled : Type 0
Handled = Run (Relay × Option (ℕ × Bytes))

abbrev relay_of : Handled → Relay
relay_of panics = relay
relay_of (returns (s, out)) = s

abbrev out_of : Handled → Option (ℕ × Bytes)
out_of panics = none
out_of (returns (s, out)) = out

abbrev after_query : Handled
after_query = udp_handle_packet relay laptop resolver query around

returned :
    (x : Handled) (s : Relay) (out : Option (ℕ × Bytes))
    → x ≡ returns (s, out)
    → x ≡ returns (relay_of x, out_of x)
returned panics s out e = cc e
returned (returns (s', out')) s out e = refl

query_returned : after_query ≡ returns (relay_of after_query, out_of after_query)
query_returned =
    let (s, out, e, sent) =
      udp_handle_packet-Serves relay laptop resolver query around relay-Reach laptop-IsSockaddr
        resolver-IsSockaddr in
    returned after_query s out e

Served-IsAccounted_example : IsAccounted (λ a. pos 0) (reap_flows (relay_of after_query) (pos 90))
Served-IsAccounted_example =
    Served-IsAccounted (λ a. pos 0) (λ b. omega arith) relay-Reach relay-IsAccounted
      (swept (pos 90) (
        handled laptop resolver query around idle laptop-IsSockaddr resolver-IsSockaddr
          query_returned))

-- A control message with the resolver's address.
resolver_parsed :
    parse_origdst (
      some
        (record { level = 0; kind = 20; contents = 2 ∷ 0 ∷ 0 ∷ 53 ∷ 203 ∷ 0 ∷ 113 ∷ 9 ∷ [] } ∷ []))
    ≡ some resolver
unfolding parse_origdst
resolver_parsed = refl

resolver_key : flow_key laptop resolver ≡ codes "10.0.1.100:40000->203.0.113.9:53"
unfolding flow_key sa_string sa_ip quad host_port itoa emit
resolver_key = refl
