-- ===== src/Balancer/Connections.antt =====
-- The counters of connections, over the openings and closings that `dispatch` brackets a connection
-- with.
use luci_app_gowan.Common.{
  ℕ, ◌+◌, ◌-◌, ◌≤◌, ◌<◌, ◌≡◌, refl, sym, ◌∙◌, inl, inr, pos, false, List, [], ◌∷◌, arith, length,
  int_max, add64, incr, decr, ◌==◌, ==_iff, if◌then◌else◌, Bool-cases,
}
use luci_app_gowan.Balancer.{Fleet, conn_started, conn_finished}

-- A connection through the backend at an address is opened, or is over.
pub data Event : Type 0 where
  opened closed : ℕ → Event

-- The fleet after the events, the latest first.
unfoldable pub after_events : Fleet → List Event → Fleet
after_events g [] = g
after_events g (opened a ∷ es) = conn_started (after_events g es) a
after_events g (closed a ∷ es) = conn_finished (after_events g es) a

abbrev pub openings : ℕ → List Event → ℕ
openings a [] = 0
openings a (opened b ∷ es) = (if a == b then 1 else 0) + openings a es
openings a (closed b ∷ es) = openings a es

abbrev pub closings : ℕ → List Event → ℕ
closings a [] = 0
closings a (opened b ∷ es) = closings a es
closings a (closed b ∷ es) = (if a == b then 1 else 0) + closings a es

-- Only a connection that is open is closed.
abbrev pub IsOrderly : List Event → Type 0
IsOrderly [] = Unit {0}
IsOrderly (opened a ∷ es) = IsOrderly es
IsOrderly (closed a ∷ es) = (closings a es < openings a es) × IsOrderly es

closings-le-openings : (a : ℕ) (es : List Event) → IsOrderly es → closings a es ≤ openings a es
closings-le-openings a [] h = omega arith
closings-le-openings a (opened b ∷ es) h = ground (arith, closings-le-openings a es h)
closings-le-openings a (closed b ∷ es) (lt, h) = elim (Bool-cases (a == b)) [
  | inl same ↦ ground (arith, same, lt)
  | inr other ↦ ground (arith, other, closings-le-openings a es h)
]

openings-le-length : (a : ℕ) (es : List Event) → openings a es ≤ length es
openings-le-length a [] = omega arith
openings-le-length a (opened b ∷ es) = ground (arith, openings-le-length a es)
openings-le-length a (closed b ∷ es) = ground (arith, openings-le-length a es)

pub started-here :
    (g : Fleet) (a : ℕ)
    → (((conn_started g a).cells a).total_conns ≡ add64 (g.cells a).total_conns 1)
      × (((conn_started g a).cells a).active_conns ≡ incr (g.cells a).active_conns)
unfolding conn_started
started-here g a = rw ((==_iff a a).1 refl) (refl, refl)

pub started-there :
    (g : Fleet) (a b : ℕ) → (a == b) ≡ false → (conn_started g b).cells a ≡ g.cells a
unfolding conn_started
started-there g a b other = rw other refl

pub finished-here :
    (g : Fleet) (a : ℕ)
    → (((conn_finished g a).cells a).total_conns ≡ (g.cells a).total_conns)
      × (((conn_finished g a).cells a).active_conns ≡ decr (g.cells a).active_conns)
unfolding conn_finished
finished-here g a = rw ((==_iff a a).1 refl) (refl, refl)

pub finished-there :
    (g : Fleet) (a b : ℕ) → (a == b) ≡ false → (conn_finished g b).cells a ≡ g.cells a
unfolding conn_finished
finished-there g a b other = rw other refl

-- The counters of the backend at `a` in a fleet.
abbrev pub Counts : Fleet → ℕ → ℕ → ℕ → Type 0
Counts g a total active =
    ((g.cells a).total_conns ≡ total) × ((g.cells a).active_conns ≡ pos active)

-- While fewer than 2 ^ 63 events have happened and only open connections were closed, a backend
-- whose counters were 0 counts its openings, and as active those that are not closed, however the
-- connections through it and through others interleave.
pub connections_counted :
    (g : Fleet) (a : ℕ) (es : List Event)
    → Counts g a 0 0
    → length es ≤ int_max
    → IsOrderly es
    → Counts (after_events g es) a (openings a es) (openings a es - closings a es)
unfolding after_events
connections_counted g a [] c l h = c
connections_counted g a (opened b ∷ es) c l h =
    let (t, u) = connections_counted g a es c (omega arith) h in
    let le = closings-le-openings a es h in
    let small = openings-le-length a es in
    elim (Bool-cases (a == b)) [
      | inl same ↦
          let (p, q) = started-here (after_events g es) a in
          let e : b ≡ a = sym ((==_iff a b).0 same) in
          rw e (p ∙ ground (arith, t, small), q ∙ ground (arith, u, le, small))
      | inr other ↦
          rw (started-there (after_events g es) a b other)
            (ground (arith, other, t), ground (arith, other, u))
    ]
connections_counted g a (closed b ∷ es) c l (lt, h) =
    let (t, u) = connections_counted g a es c (omega arith) h in
    let small = openings-le-length a es in
    elim (Bool-cases (a == b)) [
      | inl same ↦
          let (p, q) = finished-here (after_events g es) a in
          let e : b ≡ a = sym ((==_iff a b).0 same) in
          rw e (p ∙ ground (arith, t, small), q ∙ ground (arith, u, lt, same, small))
      | inr other ↦
          rw (finished-there (after_events g es) a b other)
            (ground (arith, other, t), ground (arith, other, u))
    ]
