-- ===== src/Flows/Lifetime.antt =====
-- Which flows a reap keeps and which it closes.
use luci_app_gowan.Common.{
  ℕ, ℤ, ◌+ℤ◌, ◌≡◌, refl, sym, ap, subst, ◌∙◌, ◌↔◌, inl, inr, true, false, Option, none, some, List,
  [], ◌∷◌, arith, Bytes, Dict, lookup, lookup-insert, text_eq, text_eq_iff, text_eq_refl, contains,
  Bool-cases, Option-cases, if◌then◌else◌, ◌==◌, ==_iff, ◌&&◌, ◌≤ℤ◌,
}
use luci_app_gowan.Balancer.{update}
use luci_app_gowan.Flows.{
  UdpFlow, UdpTable, get_or_create, touch, is_idle, sweep, with_closefn, reap, seen_at,
}

-- A map has no key twice.
abbrev pub DistinctKeys : Dict ℕ → Type 0
DistinctKeys [] = Unit {0}
DistinctKeys ((k, v) ∷ m) = (lookup k m ≡ none) × DistinctKeys m

-- An entry of the rest of a map is one of the map.
lookup-behind :
    (k j : Bytes) (a b : ℕ) (m : Dict ℕ)
    → lookup j m ≡ none
    → lookup k m ≡ some a
    → lookup k ((j, b) ∷ m) ≡ some a
unfolding lookup
lookup-behind k j a b m n e = elim (Bool-cases (text_eq j k)) [
  | inl hit ↦ cc (rw ((text_eq_iff j k).0 hit) at n, e)
  | inr miss ↦ rw miss e
]

module _ (cells : ℕ → UdpFlow) (timeout now : ℤ) where
  pub sweep-absent :
      (k : Bytes) (m : Dict ℕ)
      → lookup k m ≡ none
      → lookup k (sweep cells timeout now m).kept ≡ none
  unfolding sweep lookup
  sweep-absent k [] e = refl
  sweep-absent k ((j, a) ∷ m) e = ground (arith, sweep-absent k m)

  -- What is left of an entry.
  pub still_there : Option ℕ → Option ℕ
  still_there none = none
  still_there (some a) = if is_idle timeout now (cells a) then none else some a

  lookup-sweep :
      (k : Bytes) (m : Dict ℕ)
      → DistinctKeys m
      → lookup k (sweep cells timeout now m).kept ≡ still_there (lookup k m)
  unfolding sweep lookup still_there
  lookup-sweep k [] d = refl
  lookup-sweep k ((j, b) ∷ m) (n, d) = elim (Bool-cases (is_idle timeout now (cells b))) [
    | inl idle ↦ elim (Bool-cases (text_eq j k)) [
      | inl hit ↦
          let here : lookup k m ≡ none = rw ((text_eq_iff j k).0 hit) at n in
          rw (idle, hit) (sweep-absent k m here ∙ ground (arith, idle))
      | inr miss ↦ rw (idle, miss) (lookup-sweep k m d)
    ]
    | inr busy ↦ elim (Bool-cases (text_eq j k)) [
      | inl hit ↦ rw (busy) (ground (arith, busy, hit))
      | inr miss ↦ rw (busy, miss) (ground (arith, miss, lookup-sweep k m d))
    ]
  ]

  -- Every idle flow of the map is dead.
  sweep-dead :
      (k : Bytes) (m : Dict ℕ) (a : ℕ)
      → lookup k m ≡ some a
      → is_idle timeout now (cells a) ≡ true
      → contains (sweep cells timeout now m).dead a ≡ true
  unfolding sweep lookup
  sweep-dead k [] a e idle = cc
  sweep-dead k ((j, b) ∷ m) a e idle = elim (Bool-cases (text_eq j k)) [
    | inl hit ↦ ground (arith, hit, e, idle)
    | inr miss ↦ ground (arith, sweep-dead k m a (ground (arith, miss, e)) idle)
  ]

  -- Every dead flow stood in the map and is idle.
  dead-sweep :
      (m : Dict ℕ) (a : ℕ)
      → DistinctKeys m
      → contains (sweep cells timeout now m).dead a ≡ true
      → (k : Bytes) × (lookup k m ≡ some a) × (is_idle timeout now (cells a) ≡ true)
  unfolding sweep lookup
  dead-sweep [] a d e = cc
  dead-sweep ((j, b) ∷ m) a (n, d) e = elim (Bool-cases (is_idle timeout now (cells b))) [
    | inl idle ↦ elim (Bool-cases (b == a)) [
      | inl same ↦ (j, ground (arith, text_eq_refl j, same), rw (← (==_iff b a).0 same) idle)
      | inr other ↦
          let (k, f, q) = dead-sweep m a d (ground (arith, idle, other, e)) in
          (k, lookup-behind k j a b m n f, q)
    ]
    | inr busy ↦
        let (k, f, q) = dead-sweep m a d (ground (arith, busy, e)) in
        (k, lookup-behind k j a b m n f, q)
  ]

with_closefn-contains :
    (cells : ℕ → UdpFlow) (dead : List ℕ) (a : ℕ)
    → contains (with_closefn cells dead) a ≡ (contains dead a && (cells a).closes)
unfolding with_closefn
with_closefn-contains cells [] a = refl
with_closefn-contains cells (b ∷ dead) a = elim (Bool-cases (b == a)) [
  | inl same ↦
      rw ((==_iff b a).0 same)
        (ground (arith, with_closefn-contains cells dead a, (==_iff a a).1 refl))
  | inr other ↦ ground (arith, other, with_closefn-contains cells dead a)
]

-- A reap takes out of the table the flows that are idle and no others, and closes, of those, exactly
-- the ones that have a function to close them.
pub reap_idle :
    (t : UdpTable) (now : ℤ)
    → DistinctKeys t.flows
    → ((key : Bytes)
        → lookup key (reap t now).0.flows
          ≡ still_there t.flow_cells t.timeout now (lookup key t.flows))
      × ((a : ℕ)
          → (contains (reap t now).1 a ≡ true) ↔ (
              (key : Bytes) × (lookup key t.flows ≡ some a)
              × (is_idle t.timeout now (t.flow_cells a) ≡ true)
              × ((t.flow_cells a).closes ≡ true)))
unfolding reap
reap_idle t now d = (
  λ key. lookup-sweep t.flow_cells t.timeout now key t.flows d,
  λ a.
      let split =
        with_closefn-contains t.flow_cells (sweep t.flow_cells t.timeout now t.flows).dead a in
      (
        λ e.
            let (key, f, q) =
              dead-sweep t.flow_cells t.timeout now t.flows a d (ground (arith, split, e)) in
            (key, f, q, ground (arith, split, e)),
        λ (key, f, q, c). rw split (rw (sweep-dead t.flow_cells t.timeout now key t.flows a f q) c),
      ),
)

not_idle :
    (timeout now : ℤ) (f : UdpFlow)
    → now ≤ℤ (f.last_seen +ℤ timeout)
    → is_idle timeout now f ≡ false
unfolding is_idle
not_idle timeout now f h = ground (arith, h)

still_busy :
    (cells : ℕ → UdpFlow) (timeout now : ℤ) (a : ℕ)
    → is_idle timeout now (cells a) ≡ false
    → still_there cells timeout now (some a) ≡ some a
unfolding still_there
still_busy cells timeout now a h = rw h refl

touch-cells :
    (t : UdpTable) (key : Bytes) (seen : ℤ) {a : ℕ}
    → lookup key t.flows ≡ some a
    → touch t key seen
      ≡ record t { flow_cells = update t.flow_cells a (seen_at (t.flow_cells a) seen) }
unfolding touch
touch-cells t key seen e = rw (e, touch) refl

-- A flow with traffic stays: one that is touched is in the table after every reap at most the
-- timeout later.
pub touch_keeps :
    (t : UdpTable) (key : Bytes) (a : ℕ) (seen now : ℤ)
    → DistinctKeys t.flows
    → lookup key t.flows ≡ some a
    → now ≤ℤ (seen +ℤ t.timeout)
    → lookup key (reap (touch t key seen) now).0.flows ≡ some a
touch_keeps t key a seen now d e h =
    let u : UdpTable = record t {
      flow_cells = update t.flow_cells a (seen_at (t.flow_cells a) seen);
    } in
    let cell : u.flow_cells a ≡ seen_at (t.flow_cells a) seen = rw ((==_iff a a).1 refl) refl in
    let busy : is_idle t.timeout now (u.flow_cells a) ≡ false =
      subst (λ f. is_idle t.timeout now f ≡ false) (sym cell)
        (not_idle t.timeout now (seen_at (t.flow_cells a) seen) h) in
    rw (touch-cells t key seen e) (
      (reap_idle u now d).0 key
      ∙ ap (still_there u.flow_cells t.timeout now) e
      ∙ still_busy u.flow_cells t.timeout now a busy)

get_or_create_hit :
    (t : UdpTable) (key : Bytes) (created : Option UdpFlow) (now : ℤ) {a : ℕ}
    → lookup key t.flows ≡ some a
    → ((get_or_create t key created now).1 ≡ some a) × ((get_or_create t key created now).2 ≡ false)
unfolding get_or_create
get_or_create_hit t key created now e = rw (e, get_or_create) (refl, refl)

get_or_create_stores :
    (t : UdpTable) (key : Bytes) (created : Option UdpFlow) (now : ℤ) {a : ℕ}
    → (get_or_create t key created now).1 ≡ some a
    → lookup key (get_or_create t key created now).0.flows ≡ some a
unfolding get_or_create
get_or_create_stores t key created now {a} e = elim (Option-cases (lookup key t.flows)) [
  | inr (b, l) ↦ rw (l, get_or_create) (l ∙ sym (get_or_create_hit t key created now l).0 ∙ e)
  | inl l ↦ by_created created l e
]
  where
    by_created :
        (o : Option UdpFlow)
        → lookup key t.flows ≡ none
        → (get_or_create t key o now).1 ≡ some a
        → lookup key (get_or_create t key o now).0.flows ≡ some a
    by_created none l f = cc (rw (l, get_or_create) at f)
    by_created (some x) l f =
        let same : some t.fresh_flow ≡ some a = rw (l, get_or_create) at f in
        rw (l, get_or_create)
          (lookup-insert key key t.fresh_flow t.flows ∙ rw (text_eq_refl key) same)

-- A key that was given a flow is given the same flow again while the table stays as it is, and
-- nothing new is made for it.
pub get_or_create_again :
    (t : UdpTable) (key : Bytes) (created other : Option UdpFlow) (now later : ℤ) {a : ℕ}
    → (get_or_create t key created now).1 ≡ some a
    → ((get_or_create (get_or_create t key created now).0 key other later).1 ≡ some a)
      × ((get_or_create (get_or_create t key created now).0 key other later).2 ≡ false)
get_or_create_again t key created other now later e =
    get_or_create_hit (get_or_create t key created now).0 key other later
      (get_or_create_stores t key created now e)
