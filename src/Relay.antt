-- ===== src/Relay.antt =====
-- The transparent UDP relay of gowan/src/udp_linux.go: `parse_origdst`, `sa_string`, `sa_ip`,
-- `udp_handle_packet`, `flow_egress`, `create_udp_flow`, and one round of the reaper of
-- gowan/src/udp.go. Whether the system gives a socket, and what the clock shows, are given.
pub mod Keys
pub mod Effects
pub mod Entries
pub mod Counting
pub mod Routed
pub mod Accounts
use luci_app_gowan.Common.{
  ℕ, suc, ◌+◌, ◌*◌, ℤ, pos, Bool, true, false, ◌&&◌, Option, none, some, List, [], ◌∷◌, ◌++◌, Bytes,
  length, take, drop, lookup, ltb, ◌==◌, if◌then◌else◌,
}
use luci_app_gowan.Net.Print.{quad, host_port}
use luci_app_gowan.Balancer.{Fleet, Run, panics, returns, update, conn_started, conn_finished}
use luci_app_gowan.Selection.{World, Request, Readings, pick_backend}
use luci_app_gowan.Flows.{UdpFlow, UdpTable, get_or_create, touch, reap}
use luci_app_gowan.Socks.{at}

-- `syscall.SockaddrInet4`; the address has four bytes.
pub record SockaddrInet4 : Type 0 where
  pub port : ℕ
  pub addr : Bytes

-- A control message beside a datagram.
pub record ControlMessage : Type 0 where
  pub level : ℕ
  pub kind : ℕ
  pub contents : Bytes

abbrev pub ipproto_ip : ℕ
ipproto_ip = 0

abbrev pub ip_origdstaddr : ℕ
ip_origdstaddr = 20

sockaddr_of : Bytes → Option SockaddrInet4
sockaddr_of b =
    if ltb (length b) 8
    then none
    else some (record { port = at b 2 * 256 + at b 3; addr = take 4 (drop 4 b) })

-- The loop over the messages.
origdst_among : List ControlMessage → Option SockaddrInet4
unfolding sockaddr_of
origdst_among [] = none
origdst_among (c ∷ cmsgs) =
    let rest = origdst_among cmsgs in
    if c.level == ipproto_ip && c.kind == ip_origdstaddr then sockaddr_of c.contents else rest

-- From what `syscall.ParseSocketControlMessage` gives, none for its error.
unfoldable pub parse_origdst : Option (List ControlMessage) → Option SockaddrInet4
unfolding origdst_among
parse_origdst none = none
parse_origdst (some cmsgs) = origdst_among cmsgs

unfoldable pub sa_ip : SockaddrInet4 → Bytes
sa_ip sa = quad (at sa.addr 0) (at sa.addr 1) (at sa.addr 2) (at sa.addr 3)

unfoldable pub sa_string : SockaddrInet4 → Bytes
unfolding sa_ip
sa_string sa = host_port (sa_ip sa) sa.port

unfoldable pub flow_key : SockaddrInet4 → SockaddrInet4 → Bytes
unfolding sa_string
flow_key client dst = sa_string client ++ (b'-' ∷ b'>' ∷ sa_string dst)

-- `udp_sockets`, by what they are bound and connected to: the egress socket by its backend and the
-- text of its peer, the reply socket by its own address and by the client that the pump sends to.
pub record UdpSockets : Type 0 where
  pub egress_lb : ℕ
  pub egress_peer : Bytes
  pub reply_source : SockaddrInet4
  pub reply_client : SockaddrInet4

-- The program's variables, with the sockets of each flow.
pub record Relay : Type 0 where
  pub world : World
  pub table : UdpTable
  pub sockets : ℕ → UdpSockets

-- What the surroundings give while a datagram is handled: the clock in the pick, whether the egress
-- socket through a backend and the reply socket come about, and the clock of the table's two methods.
pub record Surroundings : Type 0 where
  pub readings : Readings
  pub dials : ℕ → Bool
  pub reply_socket : Bool
  pub at_lookup : ℤ
  pub at_touch : ℤ

abbrev pub udp_request : SockaddrInet4 → SockaddrInet4 → Request
udp_request client dst = record {
  client_ip = sa_ip client;
  dest_ip = sa_ip dst;
  dest_host = [];
  dest_port = pos dst.port;
}

open_sockets :
    World → ℕ → SockaddrInet4 → SockaddrInet4 → Bool → Bool → World × Option (UdpFlow × UdpSockets)
open_sockets w a client dst false reply = (w, none)
open_sockets w a client dst true false = (w, none)
open_sockets w a client dst true true = (
  record w { fleet = conn_started w.fleet a },
  some (
    record { lb = a; last_seen = pos 0; closes = true },
    record {
      egress_lb = a;
      egress_peer = sa_string dst;
      reply_source = dst;
      reply_client = client;
    },
  ),
)

unfoldable pub create_udp_flow :
    World
    → SockaddrInet4
    → SockaddrInet4
    → Surroundings
    → Run (World × Option (UdpFlow × UdpSockets))
unfolding open_sockets
create_udp_flow w client dst o = elim (pick_backend w (udp_request client dst) [] o.readings) [
  | panics ↦ panics
  | returns (v, none) ↦ returns (v, none)
  | returns (v, some (a, i)) ↦ returns (open_sockets v a client dst (o.dials a) o.reply_socket)
]

-- The datagram is written to the egress socket of its flow, if there is a flow.
send : Relay → Bytes → Bytes → ℤ → UdpTable × Option ℕ × Bool → Relay × Option (ℕ × Bytes)
send r key payload now (t, none, created) = (record r { table = t }, none)
send r key payload now (t, some a, created) =
    (record r { table = touch t key now }, some (a, payload))

-- The sockets lie beside the flow that `get_or_create` stores.
store_new :
    Relay
    → Bytes
    → Bytes
    → Surroundings
    → World × Option (UdpFlow × UdpSockets)
    → Relay × Option (ℕ × Bytes)
unfolding send
store_new r key payload o (v, none) =
    send (record r { world = v }) key payload o.at_touch
      (get_or_create r.table key none o.at_lookup)
store_new r key payload o (v, some (f, s)) =
    send (record r { world = v; sockets = update r.sockets r.table.fresh_flow s }) key payload
      o.at_touch (get_or_create r.table key (some f) o.at_lookup)

-- Behind a datagram, and the flow through whose egress socket what is written. `create` runs where
-- the table has no flow for the key.
unfoldable pub udp_handle_packet :
    Relay → SockaddrInet4 → SockaddrInet4 → Bytes → Surroundings → Run (Relay × Option (ℕ × Bytes))
unfolding create_udp_flow store_new
udp_handle_packet r client dst payload o =
    let key = flow_key client dst in
    elim (lookup key r.table.flows) [
      | some _ ↦
          returns (send r key payload o.at_touch (get_or_create r.table key none o.at_lookup))
      | none ↦ elim (create_udp_flow r.world client dst o) [
        | panics ↦ panics
        | returns c ↦ returns (store_new r key payload o c)
      ]
    ]

-- `closefn` of each flow.
unfoldable pub close_flows : Fleet → (ℕ → UdpFlow) → List ℕ → Fleet
close_flows g cells [] = g
close_flows g cells (a ∷ dead) = close_flows (conn_finished g (cells a).lb) cells dead

unfoldable pub reap_flows : Relay → ℤ → Relay
unfolding close_flows
reap_flows r now =
    let (t, dead) = reap r.table now in
    record r {
      table = t;
      world = record r.world { fleet = close_flows r.world.fleet t.flow_cells dead };
    }
