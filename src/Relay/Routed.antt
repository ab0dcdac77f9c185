-- ===== src/Relay/Routed.antt =====
-- Where datagrams go: each through the sockets of its own client and destination.
use luci_app_gowan.Common.{
  ℕ, ◌≡◌, refl, sym, ap, subst, ◌∙◌, ◌⊎◌, inl, inr, ℤ, Option, none, some, [], Bytes, lookup,
  text_eq_refl, lookup-insert,
}
use luci_app_gowan.Balancer.{returns}
use luci_app_gowan.Balancer.Choice.{IsReady}
use luci_app_gowan.Selection.{World}
use luci_app_gowan.Relay.{
  SockaddrInet4, sa_string, flow_key, UdpSockets, Relay, Surroundings, udp_handle_packet,
  reap_flows,
}
use luci_app_gowan.Relay.Keys.{IsSockaddr, flow_key_inj}
use luci_app_gowan.Relay.Effects.{Effect, udp_handle_packet-Effect}
use luci_app_gowan.Relay.Entries.{
  IsFlow, IsRouted, All-lookup, Effect-IsRouted, reap_flows-IsRouted,
}

-- What happens to the relay: a datagram, a round of the reaper, or what others do to the world.
pub data Step (r : Relay) : Relay → Type 0 where
  packet :
      (client dst : SockaddrInet4) (payload : Bytes) (o : Surroundings) {s : Relay}
      {out : Option (ℕ × Bytes)}
      → IsSockaddr client
      → IsSockaddr dst
      → udp_handle_packet r client dst payload o ≡ returns (s, out)
      → Step r s
  reaped : (now : ℤ) → Step r (reap_flows r now)
  elsewhere : (v : World) → IsReady v.fleet → Step r (record r { world = v })

-- A relay that has been started with no flow, and run.
pub data Reach : Relay → Type 0 where
  start : (r : Relay) → r.table.flows ≡ [] → IsReady r.world.fleet → Reach r
  later : {r s : Relay} → Reach r → Step r s → Reach s

pub packet_Effect :
    (r : Relay) (client dst : SockaddrInet4) (payload : Bytes) (o : Surroundings) {s : Relay}
    {out : Option (ℕ × Bytes)}
    → IsReady r.world.fleet
    → udp_handle_packet r client dst payload o ≡ returns (s, out)
    → Effect r client dst payload s out
packet_Effect r client dst payload o {s} {out} ready e =
    let (s', out', f, effect) = udp_handle_packet-Effect r client dst payload o ready in
    let same : (s', out') ≡ (s, out) = cc (sym f ∙ e) in
    subst (λ (x : Relay × Option (ℕ × Bytes)). Effect r client dst payload x.0 x.1) same effect

Step-IsRouted : {r s : Relay} → IsRouted r → Step r s → IsRouted s
Step-IsRouted {r} {s} h (packet client dst payload o {out = out} hc hd e) =
    Effect-IsRouted r client dst payload s out hc hd h
      (packet_Effect r client dst payload o h.ready e)
Step-IsRouted {r} h (reaped now) = reap_flows-IsRouted r now h
Step-IsRouted h (elsewhere v ready) = record {
  flows = h.flows;
  distinct = h.distinct;
  ready = ready;
}

-- However the relay came about, each entry of its table is a flow whose key is that of its sockets:
-- the egress socket is connected to the destination through the flow's backend, the reply socket has
-- the destination as its address, and the flow is closed with both; no key stands twice, and
-- `lb_index` is in range, which others keep so.
pub Reach-IsRouted : {r : Relay} → Reach r → IsRouted r
Reach-IsRouted (start r e ready) = record { flows = rw e tt; distinct = rw e tt; ready = ready }
Reach-IsRouted (later h x) = Step-IsRouted (Reach-IsRouted h) x

-- The sockets of a flow serve a client and a destination.
pub record Serves (x : UdpSockets) (client dst : SockaddrInet4) : Type 0 where
  pub peer : x.egress_peer ≡ sa_string dst
  pub source : x.reply_source ≡ dst
  pub answered : x.reply_client ≡ client

entry-Serves :
    (s : Relay) (client dst : SockaddrInet4) (a : ℕ)
    → IsRouted s
    → IsSockaddr client
    → IsSockaddr dst
    → lookup (flow_key client dst) s.table.flows ≡ some a
    → Serves (s.sockets a) client dst
entry-Serves s client dst a h hc hd e =
    let p = All-lookup (IsFlow s.table s.sockets) (flow_key client dst) s.table.flows h.flows e in
    let (c, d) =
      flow_key_inj client dst (s.sockets a).reply_client (s.sockets a).reply_source hc hd
        p.client_ok p.source_ok p.keyed in
    record { peer = p.connected ∙ ap sa_string (sym d); source = sym d; answered = sym c }

-- Behind a datagram that is written, its flow stands in the table.
written-found :
    (r : Relay) (client dst : SockaddrInet4) (payload : Bytes) (s : Relay) (a : ℕ) (sent : Bytes)
    → Effect r client dst payload s (some (a, sent))
    → (sent ≡ payload) × (lookup (flow_key client dst) s.table.flows ≡ some a)
written-found r client dst payload s a sent (inl e) =
    (cc e.written, rw e.same_table.same_flows (e.found ∙ cc e.written))
written-found r client dst payload s a sent (inr (inl e)) = cc e.written
written-found r client dst payload s a sent (inr (inr e)) = (
  cc e.written,
  rw e.same_table.same_flows (
      lookup-insert (flow_key client dst) (flow_key client dst) r.table.fresh_flow r.table.flows
      ∙ rw (text_eq_refl (flow_key client dst)) (cc e.written)),
)

-- In a relay that was started and run, the handling of a datagram ends without a panic; a datagram
-- that is written is written unchanged to an egress socket that is connected to the destination of
-- this datagram; and of the flow's other socket it is recorded that its address is this destination
-- and that its replies are for this client.
pub udp_handle_packet-Serves :
    (r : Relay) (client dst : SockaddrInet4) (payload : Bytes) (o : Surroundings)
    → Reach r
    → IsSockaddr client
    → IsSockaddr dst
    → (s : Relay) × (out : Option (ℕ × Bytes)) × (udp_handle_packet r client dst payload o
        ≡ returns (s, out))
      × ((out ≡ none) ⊎ ((a : ℕ) × (out ≡ some (a, payload)) × Serves (s.sockets a) client dst))
udp_handle_packet-Serves r client dst payload o reached hc hd =
    let h = Reach-IsRouted reached in
    let (s, out, e, effect) = udp_handle_packet-Effect r client dst payload o h.ready in
    (s, out, e, by_out s out (Effect-IsRouted r client dst payload s out hc hd h effect) effect)
  where
    by_out :
        (s : Relay) (out : Option (ℕ × Bytes))
        → IsRouted s
        → Effect r client dst payload s out
        → (out ≡ none) ⊎ ((a : ℕ) × (out ≡ some (a, payload)) × Serves (s.sockets a) client dst)
    by_out s none h effect = inl refl
    by_out s (some (a, sent)) h effect =
        let (same, found) = written-found r client dst payload s a sent effect in
        inr (a, ap (λ x. some (a, x)) same, entry-Serves s client dst a h hc hd found)
