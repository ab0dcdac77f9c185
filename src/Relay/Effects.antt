-- ===== src/Relay/Effects.antt =====
-- What the handling of a datagram does to the relay, case by case.
use luci_app_gowan.Common.{
  ℕ, suc, ◌≡◌, refl, sym, ap, ◌∙◌, ◌⊎◌, inl, inr, ℤ, Bool, true, false, Option, none, some, [],
  Bytes, lookup, insert, ◌==◌, ==_iff, Bool-cases, Option-cases,
}
use luci_app_gowan.Balancer.{Fleet, Run, panics, returns, update, conn_started}
use luci_app_gowan.Balancer.Pick.{DifferInTurns}
use luci_app_gowan.Balancer.Choice.{IsReady}
use luci_app_gowan.Selection.{World, pick_backend}
use luci_app_gowan.Selection.Sound.{Picked}
use luci_app_gowan.Selection.Picks.{pick_backend-Picked}
use luci_app_gowan.Flows.{UdpFlow, UdpTable, get_or_create, touch, seen_at}
use luci_app_gowan.Relay.{
  SockaddrInet4, sa_string, flow_key, Relay, Surroundings, udp_request, open_sockets,
  create_udp_flow, send, store_new, udp_handle_packet,
}

-- Two tables that differ in when flows were last seen alone.
pub record SameFlows (t u : UdpTable) : Type 0 where
  pub same_flows : u.flows ≡ t.flows
  pub same_fresh : u.fresh_flow ≡ t.fresh_flow
  pub same_lb : (a : ℕ) → (u.flow_cells a).lb ≡ (t.flow_cells a).lb
  pub same_closes : (a : ℕ) → (u.flow_cells a).closes ≡ (t.flow_cells a).closes

SameFlows-refl : (t : UdpTable) → SameFlows t t
SameFlows-refl t = record {
  same_flows = refl;
  same_fresh = refl;
  same_lb = λ a. refl;
  same_closes = λ a. refl;
}

SameFlows-trans : (t u v : UdpTable) → SameFlows t u → SameFlows u v → SameFlows t v
SameFlows-trans t u v p q = record {
  same_flows = q.same_flows ∙ p.same_flows;
  same_fresh = q.same_fresh ∙ p.same_fresh;
  same_lb = λ a. q.same_lb a ∙ p.same_lb a;
  same_closes = λ a. q.same_closes a ∙ p.same_closes a;
}

-- A flow that is seen keeps its backend and its function to close it.
update-seen :
    (cells : ℕ → UdpFlow) (a : ℕ) (now : ℤ) (b : ℕ)
    → ((update cells a (seen_at (cells a) now) b).lb ≡ (cells b).lb)
      × ((update cells a (seen_at (cells a) now) b).closes ≡ (cells b).closes)
update-seen cells a now b = elim (Bool-cases (b == a)) [
  | inl here ↦ rw here (
    ap (λ x. (cells x).lb) (sym ((==_iff b a).0 here)),
    ap (λ x. (cells x).closes) (sym ((==_iff b a).0 here)),
  )
  | inr there ↦ rw there (refl, refl)
]

seen-SameFlows :
    (t : UdpTable) (a : ℕ) (now : ℤ)
    → SameFlows t (record t { flow_cells = update t.flow_cells a (seen_at (t.flow_cells a) now) })
seen-SameFlows t a now = record {
  same_flows = refl;
  same_fresh = refl;
  same_lb = λ b. (update-seen t.flow_cells a now b).0;
  same_closes = λ b. (update-seen t.flow_cells a now b).1;
}

touch-SameFlows : (t : UdpTable) (key : Bytes) (now : ℤ) → SameFlows t (touch t key now)
unfolding touch
touch-SameFlows t key now = elim (Option-cases (lookup key t.flows)) [
  | inl e ↦ rw (touch, e) (SameFlows-refl t)
  | inr (a, e) ↦ rw (touch, e) (seen-SameFlows t a now)
]

-- The table with a new flow in it.
abbrev pub added : UdpTable → Bytes → UdpFlow → UdpTable
added t key f = record t {
  flows = insert key t.fresh_flow t.flows;
  flow_cells = update t.flow_cells t.fresh_flow f;
  fresh_flow = suc t.fresh_flow;
}

-- The flow was in the table.
pub record Relayed (r : Relay) (key payload : Bytes) (s : Relay) (out : Option (ℕ × Bytes))
    : Type 0 where
  pub flow : ℕ
  pub found : lookup key r.table.flows ≡ some flow
  pub written : out ≡ some (flow, payload)
  pub same_table : SameFlows r.table s.table
  pub same_sockets : s.sockets ≡ r.sockets
  pub same_world : s.world ≡ r.world

-- There was no flow and none came about.
pub record Unserved (r : Relay) (s : Relay) (out : Option (ℕ × Bytes)) : Type 0 where
  pub written : out ≡ none
  pub same_table : s.table ≡ r.table
  pub same_sockets : s.sockets ≡ r.sockets
  pub turns : DifferInTurns r.world.fleet s.world.fleet
  pub ready : IsReady s.world.fleet

-- A flow was made, through the backend `lb`.
pub record Created (r : Relay) (client dst : SockaddrInet4) (payload : Bytes) (s : Relay)
    (out : Option (ℕ × Bytes)) : Type 0 where
  pub lb : ℕ
  pub now : ℤ
  pub picked : Fleet
  pub absent : lookup (flow_key client dst) r.table.flows ≡ none
  pub written : out ≡ some (r.table.fresh_flow, payload)
  pub same_table :
      SameFlows
        (added r.table (flow_key client dst) (record { lb = lb; last_seen = now; closes = true }))
        s.table
  pub new_sockets :
      s.sockets
      ≡ update r.sockets r.table.fresh_flow (record {
        egress_lb = lb;
        egress_peer = sa_string dst;
        reply_source = dst;
        reply_client = client;
      })
  pub turns : DifferInTurns r.world.fleet picked
  pub ready : IsReady picked
  pub counted : s.world.fleet ≡ conn_started picked lb

abbrev pub Effect :
    Relay → SockaddrInet4 → SockaddrInet4 → Bytes → Relay → Option (ℕ × Bytes) → Type 0
Effect r client dst payload s out =
    Relayed r (flow_key client dst) payload s out
    ⊎ (Unserved r s out ⊎ Created r client dst payload s out)

module _ (r : Relay) (client dst : SockaddrInet4) (payload : Bytes) (o : Surroundings) where
  abbrev key : Bytes
  key = flow_key client dst

  abbrev Handles : Run (Relay × Option (ℕ × Bytes)) → Type 0
  Handles x =
      (s : Relay) × (out : Option (ℕ × Bytes)) × (x ≡ returns (s, out))
      × Effect r client dst payload s out

  hit_Handles :
      (a : ℕ)
      → lookup key r.table.flows ≡ some a
      → Handles
          (returns (send r key payload o.at_touch (get_or_create r.table key none o.at_lookup)))
  unfolding send get_or_create
  hit_Handles a e =
      let t : UdpTable = record r.table {
        flow_cells = update r.table.flow_cells a (seen_at (r.table.flow_cells a) o.at_lookup);
      } in
      (
        record r { table = touch t key o.at_touch },
        some (a, payload),
        rw (get_or_create, e) refl,
        inl (record {
          flow = a;
          found = e;
          written = refl;
          same_table =
              SameFlows-trans r.table t (touch t key o.at_touch)
                (seen-SameFlows r.table a o.at_lookup) (touch-SameFlows t key o.at_touch);
          same_sockets = refl;
          same_world = refl;
        }),
      )

  -- No flow is found and none comes about.
  unserved :
      (v : World)
      → lookup key r.table.flows ≡ none
      → DifferInTurns r.world.fleet v.fleet
      → IsReady v.fleet
      → Handles (returns (store_new r key payload o (v, none)))
  unfolding store_new send get_or_create
  unserved v e turns ready = (
    record r { world = v },
    none,
    rw (get_or_create, e) refl,
    inr (
        inl (record {
          written = refl;
          same_table = refl;
          same_sockets = refl;
          turns = turns;
          ready = ready;
        })),
  )

  created :
      (v : World) (a : ℕ) (dial reply : Bool)
      → lookup key r.table.flows ≡ none
      → DifferInTurns r.world.fleet v.fleet
      → IsReady v.fleet
      → Handles (returns (store_new r key payload o (open_sockets v a client dst dial reply)))
  unfolding open_sockets store_new send get_or_create
  created v a false reply e turns ready = unserved v e turns ready
  created v a true false e turns ready = unserved v e turns ready
  created v a true true e turns ready =
      let t : UdpTable =
        added r.table key (record { lb = a; last_seen = o.at_lookup; closes = true }) in
      (
        record r {
          world = record v { fleet = conn_started v.fleet a };
          table = touch t key o.at_touch;
          sockets = update r.sockets r.table.fresh_flow (record {
            egress_lb = a;
            egress_peer = sa_string dst;
            reply_source = dst;
            reply_client = client;
          });
        },
        some (r.table.fresh_flow, payload),
        rw (get_or_create, e) refl,
        inr (
            inr (record {
              lb = a;
              now = o.at_lookup;
              picked = v.fleet;
              absent = e;
              written = refl;
              same_table = touch-SameFlows t key o.at_touch;
              new_sockets = refl;
              turns = turns;
              ready = ready;
              counted = refl;
            })),
      )

  miss_Handles :
      lookup key r.table.flows ≡ none
      → IsReady r.world.fleet
      → Handles (elim (create_udp_flow r.world client dst o) [
        | panics ↦ panics
        | returns c ↦ returns (store_new r key payload o c)
      ])
  unfolding create_udp_flow
  miss_Handles e ready =
      let p : Picked r.world [] (pick_backend r.world (udp_request client dst) [] o.readings) =
        pick_backend-Picked r.world (udp_request client dst) [] o.readings ready in
      by_choice p p.chosen refl
    where
      by_choice :
          (p : Picked r.world [] (pick_backend r.world (udp_request client dst) [] o.readings))
          (c : Option (ℕ × ℕ))
          → p.chosen ≡ c
          → Handles (elim (create_udp_flow r.world client dst o) [
            | panics ↦ panics
            | returns c ↦ returns (store_new r key payload o c)
          ])
      by_choice p none q =
          rw (p.result, create_udp_flow) (rw q (unserved p.after e p.turns p.ready))
      by_choice p (some (a, i)) q =
          rw (p.result, create_udp_flow)
            (rw q (created p.after a (o.dials a) o.reply_socket e p.turns p.ready))

  -- Handling a datagram does not panic if `lb_index` is in range.
  pub udp_handle_packet-Effect :
      IsReady r.world.fleet
      → (s : Relay) × (out : Option (ℕ × Bytes)) × (udp_handle_packet r client dst payload o
          ≡ returns (s, out))
        × Effect r client dst payload s out
  unfolding udp_handle_packet
  udp_handle_packet-Effect ready = elim (Option-cases (lookup key r.table.flows)) [
    | inl e ↦ rw (udp_handle_packet, e) (miss_Handles e ready)
    | inr (a, e) ↦ rw (udp_handle_packet, e) (hit_Handles a e)
  ]
