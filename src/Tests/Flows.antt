-- ===== src/Tests/Flows.antt =====
-- A table with one flow, seen at time 10, with a timeout of 60.
use luci_app_gowan.Common.{
  ℕ, ◌≡◌, refl, ◌↔◌, pos, true, false, none, some, [], ◌∷◌, Bytes, codes, text_eq, lookup, contains,
  arith, ◌+ℤ◌,
}
use luci_app_gowan.Flows.{
  UdpFlow, UdpTable, get_or_create, touch, is_idle, sweep, with_closefn, reap,
}
use luci_app_gowan.Flows.Lifetime.{still_there, reap_idle, touch_keeps, get_or_create_again}

abbrev flow : UdpFlow
flow = record { lb = 0; last_seen = pos 10; closes = true }

abbrev table : UdpTable
table = record {
  flows = (codes "a->b", 0) ∷ [];
  timeout = pos 60;
  flow_cells = λ a. flow;
  fresh_flow = 1;
}

reap_idle_example :
    ((key : Bytes)
      → lookup key (reap table (pos 71)).0.flows
        ≡ still_there table.flow_cells (pos 60) (pos 71) (lookup key table.flows))
    × ((a : ℕ)
        → (contains (reap table (pos 71)).1 a ≡ true) ↔ (
            (key : Bytes) × (lookup key table.flows ≡ some a)
            × (is_idle (pos 60) (pos 71) (table.flow_cells a) ≡ true)
            × ((table.flow_cells a).closes ≡ true)))
unfolding lookup
reap_idle_example = reap_idle table (pos 71) (refl, tt)

touch_keeps_example :
    lookup (codes "a->b") (reap (touch table (codes "a->b") (pos 50)) (pos 71)).0.flows ≡ some 0
unfolding lookup text_eq ◌+ℤ◌
touch_keeps_example =
    touch_keeps table (codes "a->b") 0 (pos 50) (pos 71) (refl, tt) refl (omega arith)

get_or_create_again_example :
    ((get_or_create
        (get_or_create table (codes "c->d") (some flow) (pos 20)).0
        (codes "c->d")
        none
        (pos 30)).1
      ≡ some 1)
    × ((get_or_create
          (get_or_create table (codes "c->d") (some flow) (pos 20)).0
          (codes "c->d")
          none
          (pos 30)).2
        ≡ false)
unfolding get_or_create lookup text_eq
get_or_create_again_example =
    get_or_create_again table (codes "c->d") (some flow) none (pos 20) (pos 30) refl

-- Without traffic it is closed 61 after it was seen, and not before.
reap_closes : (reap table (pos 71)).1 ≡ 0 ∷ []
unfolding reap sweep with_closefn is_idle ◌+ℤ◌
reap_closes = refl

reap_spares : (reap table (pos 70)).1 ≡ []
unfolding reap sweep with_closefn is_idle ◌+ℤ◌
reap_spares = refl
