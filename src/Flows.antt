-- ===== src/Flows.antt =====
-- The table of UDP flows of gowan/src/udp.go: `udp_flow`, `udp_table`, `get_or_create`, `touch`,
-- `reap` and `len`. Flows are shared by pointer, so they lie in a store. What `closefn` does is
-- outside; a reap reports the flows that it closes.
pub mod Lifetime
use luci_app_gowan.Common.{
  ℕ, suc, ℤ, ◌+ℤ◌, Bool, true, false, Option, none, some, List, [], ◌∷◌, Bytes, Dict, lookup,
  insert, ltb_ℤ, length, if◌then◌else◌,
}
use luci_app_gowan.Balancer.{update}

-- `closes` is false where `closefn` is nil.
pub record UdpFlow : Type 0 where
  pub lb : ℕ
  pub last_seen : ℤ
  pub closes : Bool

pub record UdpTable : Type 0 where
  pub flows : Dict ℕ
  pub timeout : ℤ
  pub flow_cells : ℕ → UdpFlow
  pub fresh_flow : ℕ

unfoldable pub new_udp_table : (ℕ → UdpFlow) → ℕ → ℤ → UdpTable
new_udp_table cells fresh timeout = record {
  flows = [];
  timeout = timeout;
  flow_cells = cells;
  fresh_flow = fresh;
}

abbrev pub seen_at : UdpFlow → ℤ → UdpFlow
seen_at f now = record f { last_seen = now }

-- `created` is what `create` gives, and is asked for only where the key is absent.
unfoldable pub get_or_create : UdpTable → Bytes → Option UdpFlow → ℤ → UdpTable × Option ℕ × Bool
get_or_create t key created now = elim (lookup key t.flows) [
  | some a ↦ (
    record t { flow_cells = update t.flow_cells a (seen_at (t.flow_cells a) now) },
    some a,
    false,
  )
  | none ↦ elim created [
    | none ↦ (t, none, false)
    | some f ↦ (
      record t {
        flows = insert key t.fresh_flow t.flows;
        flow_cells = update t.flow_cells t.fresh_flow (seen_at f now);
        fresh_flow = suc t.fresh_flow;
      },
      some t.fresh_flow,
      true,
    )
  ]
]

unfoldable pub touch : UdpTable → Bytes → ℤ → UdpTable
touch t key now = elim (lookup key t.flows) [
  | none ↦ t
  | some a ↦ record t { flow_cells = update t.flow_cells a (seen_at (t.flow_cells a) now) }
]

-- `now.Sub(f.last_seen) > t.timeout`
unfoldable pub is_idle : ℤ → ℤ → UdpFlow → Bool
is_idle timeout now f = ltb_ℤ (f.last_seen +ℤ timeout) now

-- The loop of `reap`: the entries that stay, and `dead`. A map is read in its order here, which Go
-- leaves open.
pub record Swept : Type 0 where
  pub kept : Dict ℕ
  pub dead : List ℕ

unfoldable pub sweep : (ℕ → UdpFlow) → ℤ → ℤ → Dict ℕ → Swept
unfolding is_idle
sweep cells timeout now [] = record { kept = []; dead = [] }
sweep cells timeout now ((key, a) ∷ m) =
    let rest = sweep cells timeout now m in
    if is_idle timeout now (cells a)
    then record { kept = rest.kept; dead = a ∷ rest.dead }
    else record { kept = (key, a) ∷ rest.kept; dead = rest.dead }

unfoldable pub with_closefn : (ℕ → UdpFlow) → List ℕ → List ℕ
with_closefn cells [] = []
with_closefn cells (a ∷ dead) =
    let rest = with_closefn cells dead in if (cells a).closes then a ∷ rest else rest

-- The table behind a reap, and the flows whose `closefn` it calls.
unfoldable pub reap : UdpTable → ℤ → UdpTable × List ℕ
unfolding sweep with_closefn
reap t now =
    let s = sweep t.flow_cells t.timeout now t.flows in
    (record t { flows = s.kept }, with_closefn t.flow_cells s.dead)

unfoldable pub len : UdpTable → ℕ
len t = length t.flows
