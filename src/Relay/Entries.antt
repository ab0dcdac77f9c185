-- ===== src/Relay/Entries.antt =====
-- The entries of the table of flows, and that every step keeps them in order.
use luci_app_gowan.Common.{
  ℕ, ◌<◌, ◌≡◌, refl, sym, subst, ◌∙◌, inl, inr, ℤ, true, false, Option, none, some, List, [], ◌∷◌,
  arith, Bytes, Dict, lookup, insert, text_eq, text_eq_iff, lookup-insert, All, ◌==◌, ==_iff,
  Bool-cases,
}
use luci_app_gowan.Net.Print.{All-map}
use luci_app_gowan.Balancer.{Fleet, update, conn_started, conn_finished}
use luci_app_gowan.Balancer.Choice.{IsReady}
use luci_app_gowan.Flows.{UdpFlow, UdpTable, is_idle, sweep, reap}
use luci_app_gowan.Flows.Lifetime.{DistinctKeys, sweep-absent}
use luci_app_gowan.Relay.{
  SockaddrInet4, sa_string, flow_key, UdpSockets, Relay, reap_flows, close_flows,
}
use luci_app_gowan.Relay.Keys.{IsSockaddr}
use luci_app_gowan.Relay.Effects.{SameFlows, added, Effect}

-- An entry of the table: its key is that of the sockets' client and destination, the egress socket is
-- connected to the destination through the flow's backend, and the flow is closed with its sockets.
pub record IsFlow (t : UdpTable) (sockets : ℕ → UdpSockets) (e : Bytes × ℕ) : Type 0 where
  pub stored : e.1 < t.fresh_flow
  pub keyed : e.0 ≡ flow_key (sockets e.1).reply_client (sockets e.1).reply_source
  pub client_ok : IsSockaddr (sockets e.1).reply_client
  pub source_ok : IsSockaddr (sockets e.1).reply_source
  pub connected : (sockets e.1).egress_peer ≡ sa_string (sockets e.1).reply_source
  pub bound : (sockets e.1).egress_lb ≡ (t.flow_cells e.1).lb
  pub closes : (t.flow_cells e.1).closes ≡ true

pub record IsRouted (r : Relay) : Type 0 where
  pub flows : All (IsFlow r.table r.sockets) r.table.flows
  pub distinct : DistinctKeys r.table.flows
  pub ready : IsReady r.world.fleet

pub All-lookup :
    (P : Bytes × ℕ → Type 0) (key : Bytes) (m : Dict ℕ) {a : ℕ}
    → All P m
    → lookup key m ≡ some a
    → P (key, a)
unfolding lookup
All-lookup P key [] h e = cc e
All-lookup P key ((j, b) ∷ m) {a} h e = elim (Bool-cases (text_eq j key)) [
  | inl hit ↦
      let p : (j, b) ≡ (key, a) = cc ((text_eq_iff j key).0 hit, rw hit at e) in subst P p h.0
  | inr miss ↦ All-lookup P key m h.1 (rw miss at e)
]

All-insert :
    (P : Bytes × ℕ → Type 0) (key : Bytes) (a : ℕ) (m : Dict ℕ)
    → P (key, a)
    → All P m
    → All P (insert key a m)
unfolding insert
All-insert P key a [] p h = (p, tt)
All-insert P key a ((j, b) ∷ m) p h = elim (Bool-cases (text_eq j key)) [
  | inl hit ↦ rw hit (p, h.1)
  | inr miss ↦ rw miss (h.0, All-insert P key a m p h.1)
]

insert-DistinctKeys :
    (key : Bytes) (a : ℕ) (m : Dict ℕ) → DistinctKeys m → DistinctKeys (insert key a m)
unfolding insert
insert-DistinctKeys key a [] d = (unfold lookup in refl, tt)
insert-DistinctKeys key a ((j, b) ∷ m) (n, d) = elim (Bool-cases (text_eq j key)) [
  | inl hit ↦ rw hit (subst (λ k. lookup k m ≡ none) ((text_eq_iff j key).0 hit) n, d)
  | inr miss ↦ rw miss (
    lookup-insert key j a m ∙ ground (arith, text_eq_iff key j, text_eq_iff j key, miss, n),
    insert-DistinctKeys key a m d,
  )
]

same-IsFlow :
    (t u : UdpTable) (sockets : ℕ → UdpSockets) (e : Bytes × ℕ)
    → SameFlows t u
    → IsFlow t sockets e
    → IsFlow u sockets e
same-IsFlow t u sockets e q p = record {
  stored = rw q.same_fresh p.stored;
  keyed = p.keyed;
  client_ok = p.client_ok;
  source_ok = p.source_ok;
  connected = p.connected;
  bound = p.bound ∙ sym (q.same_lb e.1);
  closes = q.same_closes e.1 ∙ p.closes;
}

-- What is stored at another address stays.
added-IsFlow :
    (t : UdpTable) (key : Bytes) (f : UdpFlow) (sockets : ℕ → UdpSockets) (s : UdpSockets)
    (e : Bytes × ℕ)
    → IsFlow t sockets e
    → IsFlow (added t key f) (update sockets t.fresh_flow s) e
added-IsFlow t key f sockets s e p =
    let there : (e.1 == t.fresh_flow) ≡ false = ground (arith, p.stored) in
    record {
      stored = omega (arith, p.stored);
      keyed = rw there p.keyed;
      client_ok = rw there p.client_ok;
      source_ok = rw there p.source_ok;
      connected = rw there p.connected;
      bound = rw there p.bound;
      closes = rw there p.closes;
    }

new-IsFlow :
    (t : UdpTable) (client dst : SockaddrInet4) (lb : ℕ) (now : ℤ) (sockets : ℕ → UdpSockets)
    → IsSockaddr client
    → IsSockaddr dst
    → IsFlow
        (added t (flow_key client dst) (record { lb = lb; last_seen = now; closes = true }))
        (update sockets t.fresh_flow (record {
          egress_lb = lb;
          egress_peer = sa_string dst;
          reply_source = dst;
          reply_client = client;
        }))
        (flow_key client dst, t.fresh_flow)
new-IsFlow t client dst lb now sockets hc hd =
    let here : (t.fresh_flow == t.fresh_flow) ≡ true = (==_iff t.fresh_flow t.fresh_flow).1 refl in
    record {
      stored = omega arith;
      keyed = rw here refl;
      client_ok = rw here hc;
      source_ok = rw here hd;
      connected = rw here refl;
      bound = rw here refl;
      closes = rw here refl;
    }

-- What a reap keeps was in the table.
All-sweep :
    (P : Bytes × ℕ → Type 0) (cells : ℕ → UdpFlow) (timeout now : ℤ) (m : Dict ℕ)
    → All P m
    → All P (sweep cells timeout now m).kept
unfolding sweep
All-sweep P cells timeout now [] h = tt
All-sweep P cells timeout now ((j, b) ∷ m) h = elim (Bool-cases (is_idle timeout now (cells b))) [
  | inl idle ↦ rw idle (All-sweep P cells timeout now m h.1)
  | inr busy ↦ rw busy (h.0, All-sweep P cells timeout now m h.1)
]

sweep-DistinctKeys :
    (cells : ℕ → UdpFlow) (timeout now : ℤ) (m : Dict ℕ)
    → DistinctKeys m
    → DistinctKeys (sweep cells timeout now m).kept
unfolding sweep
sweep-DistinctKeys cells timeout now [] d = tt
sweep-DistinctKeys cells timeout now ((j, b) ∷ m) (n, d) =
    elim (Bool-cases (is_idle timeout now (cells b))) [
      | inl idle ↦ rw idle (sweep-DistinctKeys cells timeout now m d)
      | inr busy ↦
          rw busy (sweep-absent cells timeout now j m n, sweep-DistinctKeys cells timeout now m d)
    ]

close_flows-IsReady :
    (g : Fleet) (cells : ℕ → UdpFlow) (dead : List ℕ)
    → IsReady g
    → IsReady (close_flows g cells dead)
unfolding close_flows conn_finished
close_flows-IsReady g cells [] h = h
close_flows-IsReady g cells (a ∷ dead) h =
    close_flows-IsReady (conn_finished g (cells a).lb) cells dead h

same-All :
    (t u : UdpTable) (sockets sockets' : ℕ → UdpSockets) (m : Dict ℕ)
    → SameFlows t u
    → u.flows ≡ m
    → sockets' ≡ sockets
    → All (IsFlow t sockets) m
    → All (IsFlow u sockets') u.flows
same-All t u sockets sockets' m q e f h =
    subst (λ x. All (IsFlow u x) u.flows) (sym f)
      (subst (λ x. All (IsFlow u sockets) x) (sym e)
        (All-map m (λ x p. same-IsFlow t u sockets x q p) h))

pub reap_flows-IsRouted : (r : Relay) (now : ℤ) → IsRouted r → IsRouted (reap_flows r now)
unfolding reap_flows reap
reap_flows-IsRouted r now h = record {
  flows =
      All-map (sweep r.table.flow_cells r.table.timeout now r.table.flows).kept
        (λ x p. record {
          stored = p.stored;
          keyed = p.keyed;
          client_ok = p.client_ok;
          source_ok = p.source_ok;
          connected = p.connected;
          bound = p.bound;
          closes = p.closes;
        })
        (All-sweep (IsFlow r.table r.sockets) r.table.flow_cells r.table.timeout now r.table.flows
          h.flows);
  distinct = sweep-DistinctKeys r.table.flow_cells r.table.timeout now r.table.flows h.distinct;
  ready = close_flows-IsReady r.world.fleet r.table.flow_cells (reap r.table now).1 h.ready;
}

pub Effect-IsRouted :
    (r : Relay) (client dst : SockaddrInet4) (payload : Bytes) (s : Relay)
    (out : Option (ℕ × Bytes))
    → IsSockaddr client
    → IsSockaddr dst
    → IsRouted r
    → Effect r client dst payload s out
    → IsRouted s
Effect-IsRouted r client dst payload s out hc hd h (inl e) = record {
  flows =
      same-All r.table s.table r.sockets s.sockets r.table.flows e.same_table
        e.same_table.same_flows e.same_sockets h.flows;
  distinct = rw e.same_table.same_flows h.distinct;
  ready = rw e.same_world h.ready;
}
Effect-IsRouted r client dst payload s out hc hd h (inr (inl e)) = record {
  flows = rw (e.same_table, e.same_sockets) h.flows;
  distinct = rw e.same_table h.distinct;
  ready = e.ready;
}
Effect-IsRouted r client dst payload s out hc hd h (inr (inr e)) = record {
  flows =
      let f : UdpFlow = record { lb = e.lb; last_seen = e.now; closes = true } in
      let t : UdpTable = added r.table (flow_key client dst) f in
      let x : UdpSockets = record {
        egress_lb = e.lb;
        egress_peer = sa_string dst;
        reply_source = dst;
        reply_client = client;
      } in
      let sockets : ℕ → UdpSockets = update r.sockets r.table.fresh_flow x in
      same-All t s.table sockets s.sockets t.flows e.same_table e.same_table.same_flows
        e.new_sockets
        (All-insert (IsFlow t sockets) (flow_key client dst) r.table.fresh_flow r.table.flows
          (new-IsFlow r.table client dst e.lb e.now r.sockets hc hd)
          (All-map r.table.flows
            (λ y p. added-IsFlow r.table (flow_key client dst) f r.sockets x y p) h.flows));
  distinct =
      rw e.same_table.same_flows
        (insert-DistinctKeys (flow_key client dst) r.table.fresh_flow r.table.flows h.distinct);
  ready = rw e.counted (unfold conn_started in e.ready);
}
