-- ===== src/Relay/Accounts.antt =====
-- The connections that backends count for the flows of the relay.
use luci_app_gowan.Common.{
  ℕ, zero, suc, ◌+◌, ◌≡◌, sym, ap, ◌∙◌, inl, inr, ℤ, incr, InInt64, true, Option, arith, Bytes,
  ◌==◌,
}
use luci_app_gowan.Balancer.{Backend, Fleet, returns}
use luci_app_gowan.Balancer.Pick.{DifferInTurns}
use luci_app_gowan.Net.Print.{All-map}
use luci_app_gowan.Flows.{UdpFlow, UdpTable, sweep, reap}
use luci_app_gowan.Relay.{
  SockaddrInet4, flow_key, Relay, Surroundings, udp_handle_packet, reap_flows,
}
use luci_app_gowan.Relay.Effects.{SameFlows, added, Effect}
use luci_app_gowan.Relay.Keys.{IsSockaddr}
use luci_app_gowan.Relay.Entries.{IsRouted}
use luci_app_gowan.Relay.Routed.{Reach, later, packet, reaped, Reach-IsRouted, packet_Effect}
use luci_app_gowan.Relay.Counting.{
  raised, one_if, users, users-same, users-added, users-sweep, with_closefn-sweep, started_count,
  close_flows-active,
}

-- Each backend counts, above what is its own count of others, its flows in the table.
abbrev pub IsAccounted : (ℕ → ℤ) → Relay → Type 0
IsAccounted base r =
    (b : ℕ)
    → (r.world.fleet.cells b).active_conns
      ≡ raised (users r.table.flow_cells b r.table.flows) (base b)

turns_active :
    {g h : Fleet}
    → DifferInTurns g h
    → (b : ℕ) → (h.cells b).active_conns ≡ (g.cells b).active_conns
turns_active d b = ap (λ (lb : Backend). lb.active_conns) (d.same_cells b)

-- A round of the reaper gives back the connections of the flows that it closes.
pub reap_flows-IsAccounted :
    (base : ℕ → ℤ) (r : Relay) (now : ℤ)
    → ((b : ℕ) → InInt64 (base b))
    → IsRouted r
    → IsAccounted base r
    → IsAccounted base (reap_flows r now)
unfolding reap_flows reap
reap_flows-IsAccounted base r now small h e b =
    let cells = r.table.flow_cells in
    let swept = sweep cells r.table.timeout now r.table.flows in
    let all =
      with_closefn-sweep cells r.table.timeout now r.table.flows
        (All-map r.table.flows (λ x p. p.closes) h.flows) in
    rw all (
      close_flows-active r.world.fleet cells swept.dead b (users cells b swept.kept) (base b)
        (small b)
        (e b ∙ ap (λ n. raised n (base b)) (users-sweep cells r.table.timeout now b r.table.flows)))

users-table :
    (t u : UdpTable) (b : ℕ)
    → SameFlows t u
    → users u.flow_cells b u.flows ≡ users t.flow_cells b t.flows
users-table t u b q =
    ap (users u.flow_cells b) q.same_flows
    ∙ users-same t.flow_cells u.flow_cells b t.flows q.same_lb

-- A datagram that opens a flow is counted once, at the backend of its flow, and any other not at all.
pub Effect-IsAccounted :
    (base : ℕ → ℤ) (r : Relay) (client dst : SockaddrInet4) (payload : Bytes) (s : Relay)
    (out : Option (ℕ × Bytes))
    → IsRouted r
    → IsAccounted base r
    → Effect r client dst payload s out
    → IsAccounted base s
Effect-IsAccounted base r client dst payload s out h acc (inl e) b =
    rw e.same_world (acc b)
    ∙ ap (λ n. raised n (base b)) (sym (users-table r.table s.table b e.same_table))
Effect-IsAccounted base r client dst payload s out h acc (inr (inl e)) b =
    turns_active e.turns b
    ∙ acc b
    ∙ ap (λ (t : UdpTable). raised (users t.flow_cells b t.flows) (base b)) (sym e.same_table)
Effect-IsAccounted base r client dst payload s out h acc (inr (inr e)) b =
    let f : UdpFlow = record { lb = e.lb; last_seen = e.now; closes = true } in
    ap (λ (g : Fleet). (g.cells b).active_conns) e.counted
    ∙ started_count e.picked e.lb b
    ∙ ap (raised (one_if (b == e.lb))) (turns_active e.turns b ∙ acc b)
    ∙ raised-more (one_if (b == e.lb)) (users r.table.flow_cells b r.table.flows) (base b)
    ∙ ap (λ n. raised n (base b))
        (sym (
          users-table (added r.table (flow_key client dst) f) s.table b e.same_table
          ∙ users-added r.table (flow_key client dst) f b
              (All-map r.table.flows (λ x p. p.stored) h.flows) e.absent))
  where
    raised-more : (m n : ℕ) (z : ℤ) → raised m (raised n z) ≡ raised (m + n) z
    raised-more zero n z = ap (λ k. raised k z) (none_more n)
      where
        none_more : (n : ℕ) → n ≡ 0 + n
        none_more n = omega arith
    raised-more (suc m) n z = ap incr (raised-more m n z) ∙ ap (λ k. raised k z) (one_more m n)
      where
        one_more : (m n : ℕ) → suc (m + n) ≡ suc m + n
        one_more m n = omega arith

-- The relay after datagrams and rounds of the reaper.
pub data Served (r : Relay) : Relay → Type 0 where
  idle : Served r r
  handled :
      {s t : Relay} (client dst : SockaddrInet4) (payload : Bytes) (o : Surroundings)
      {out : Option (ℕ × Bytes)}
      → Served r s
      → IsSockaddr client
      → IsSockaddr dst
      → udp_handle_packet s client dst payload o ≡ returns (t, out)
      → Served r t
  swept : {s : Relay} (now : ℤ) → Served r s → Served r (reap_flows s now)

Served-Reach : {r s : Relay} → Reach r → Served r s → Reach s
Served-Reach h idle = h
Served-Reach h (handled client dst payload o x hc hd e) =
    later (Served-Reach h x) (packet client dst payload o hc hd e)
Served-Reach h (swept now x) = later (Served-Reach h x) (reaped now)

-- Whatever datagrams a relay handles and whenever the reaper comes round, each backend counts as
-- active, above the connections of others, exactly the flows of the table that are relayed through
-- it, if it did before; so a flow that is closed is given back at the backend that it was counted at,
-- once. The count of others is an int64, and stays while this happens.
pub Served-IsAccounted :
    (base : ℕ → ℤ) {r s : Relay}
    → ((b : ℕ) → InInt64 (base b))
    → Reach r
    → IsAccounted base r
    → Served r s
    → IsAccounted base s
Served-IsAccounted base small h acc idle = acc
Served-IsAccounted base small h acc
      (handled {s = s} {t = t} client dst payload o {out = out} x hc hd e) =
    let routed = Reach-IsRouted (Served-Reach h x) in
    Effect-IsAccounted base s client dst payload t out routed
      (Served-IsAccounted base small h acc x) (packet_Effect s client dst payload o routed.ready e)
Served-IsAccounted base small h acc (swept {s = s} now x) =
    reap_flows-IsAccounted base s now small (Reach-IsRouted (Served-Reach h x))
      (Served-IsAccounted base small h acc x)
