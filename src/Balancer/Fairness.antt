-- ===== src/Balancer/Fairness.antt =====
-- The weights of the round robin: how often each backend is handed out in a full turn.
use mathlib.Core.Path.{fun_ext}
use luci_app_gowan.Common.{
  ℕ, zero, suc, ◌+◌, ◌≤◌, ◌≡◌, refl, sym, subst, ap, ◌∙◌, ◌≢◌, inl, inr, pos, pos_part, Option,
  none, some, List, [], ◌++◌, arith, get_elem?, length, replicate, int_max, Bool-cases, ◌==◌, false,
  if◌then◌else◌, get_elem?-lt_length, ==_iff,
}
use luci_app_gowan.Balancer.{Backend, Fleet, Exclude, is_excluded, hand_out, next_index}
use luci_app_gowan.Balancer.Pick.{
  DifferInTurns, DifferInTurns-refl, DifferInTurns-trans, hand_out-DifferInTurns,
}
use luci_app_gowan.Balancer.Choice.{IsActive}
use luci_app_gowan.Balancer.Cycle.{
  Serves, rest, serve, Serves-append, serve_here, hand_out_more, hand_out_last,
}

module _ {g h : Fleet} (d : DifferInTurns g h) where
  up-turns : (a : ℕ) → (h.cells a).up ≡ (g.cells a).up
  up-turns a = ap (λ (b : Backend). b.up) (d.same_cells a)

  metric-turns : (a : ℕ) → (h.cells a).metric ≡ (g.cells a).metric
  metric-turns a = ap (λ (b : Backend). b.metric) (d.same_cells a)

  ratio-turns : (a : ℕ) → (h.cells a).contention_ratio ≡ (g.cells a).contention_ratio
  ratio-turns a = ap (λ (b : Backend). b.contention_ratio) (d.same_cells a)

  entry-turns : (i a : ℕ) → get_elem? h.lb_list i ≡ some a → get_elem? g.lb_list i ≡ some a
  entry-turns i a e = rw d.same_list at e

  pub IsActive-turns : (a : ℕ) → IsActive g a → IsActive h a
  IsActive-turns a (inl down) = inl λ i b e. up-turns b ∙ down i b (entry-turns i b e)
  IsActive-turns a (inr (u, least)) = inr (
    up-turns a ∙ u,
    λ i b e v.
        rw (metric-turns a, metric-turns b) (least i b (entry-turns i b e) (sym (up-turns b) ∙ v)),
  )

-- A backend's turn is over: the index moves on, and no other backend's turn is touched.
pub record EndsTurn (g : Fleet) (a : ℕ) (f : Fleet) : Type 0 where
  pub turns : DifferInTurns g f
  pub index : f.lb_index ≡ next_index (length g.lb_list) g.lb_index
  pub own : (f.cells a).current_connections ≡ pos 0
  pub others : (b : ℕ) → b ≢ a → (f.cells b).current_connections ≡ (g.cells b).current_connections

-- The rest of the turn of the backend at `lb_index`, of which `c` connections have been served.
turn :
    (d c r : ℕ) (exclude : Exclude) (g : Fleet) {a : ℕ}
    → get_elem? g.lb_list g.lb_index ≡ some a
    → IsActive g a
    → is_excluded exclude g.lb_index ≡ false
    → (g.cells a).current_connections ≡ pos c
    → (g.cells a).contention_ratio ≡ pos r
    → c + suc d ≡ r
    → r ≤ int_max
    → (f : Fleet) × Serves exclude g (replicate (suc d) g.lb_index) f × EndsTurn g a f
turn zero c r exclude g {a} entry active free e w s m =
    let (i, own, others) = hand_out_last g a c r e w (omega arith) m in
    (
      hand_out g a,
      serve (serve_here g exclude entry active free) rest,
      record { turns = hand_out-DifferInTurns g a; index = i; own = own; others = others },
    )
turn (suc d) c r exclude g {a} entry active free e w s m =
    let h = hand_out g a in
    let t = hand_out-DifferInTurns g a in
    let (i, own, others) = hand_out_more g a c r e w (omega arith) m in
    let (f, p, q) =
      turn d (suc c) r exclude h {a = a} (rw (t.same_list, i) entry) (IsActive-turns t a active)
        (rw i free) own (ratio-turns t a ∙ w) (omega arith) m in
    (
      f,
      serve (serve_here g exclude entry active free)
          (subst (λ j. Serves exclude h (replicate (suc d) j) f) i p),
      record {
        turns = DifferInTurns-trans t q.turns;
        index = q.index ∙ rw (t.same_list, i) refl;
        own = q.own;
        others = λ b ne. q.others b ne ∙ others b ne;
      },
    )

-- The weight of the backend at an index.
abbrev pub weight : Fleet → ℕ → ℕ
weight g i = elim (get_elem? g.lb_list i) [
  | none ↦ 0
  | some a ↦ pos_part (g.cells a).contention_ratio
]

-- `k` indices from `i` on, each as often as its weight says.
abbrev pub schedule : (ℕ → ℕ) → ℕ → ℕ → List ℕ
schedule w zero i = []
schedule w (suc k) i = replicate (w i) i ++ schedule w k (suc i)

-- Every listed backend is active, has a positive weight within an int64, and begins its turn.
pub record IsRoundStart (g : Fleet) : Type 0 where
  pub active : (i a : ℕ) → get_elem? g.lb_list i ≡ some a → IsActive g a
  pub positive :
      (i a : ℕ)
      → get_elem? g.lb_list i ≡ some a
      → (r : ℕ) × ((g.cells a).contention_ratio ≡ pos (suc r)) × (suc r ≤ int_max)
  pub idle : (i a : ℕ) → get_elem? g.lb_list i ≡ some a → (g.cells a).current_connections ≡ pos 0

weight-turns : {g h : Fleet} → DifferInTurns g h → weight h ≡ weight g
weight-turns {g} {h} d = fun_ext λ i.
    rw d.same_list
      (elim (get_elem? g.lb_list i)
        as (λ (o : Option ℕ).
          ◌≡◌ {A = ℕ} (elim o [ none ↦ 0 | some a ↦ pos_part (h.cells a).contention_ratio ])
            (elim o [ none ↦ 0 | some a ↦ pos_part (g.cells a).contention_ratio ])) [
              | none ↦ refl
              | some a ↦ ap pos_part (ratio-turns d a)
            ])

EndsTurn-IsRoundStart : {g f : Fleet} {a : ℕ} → IsRoundStart g → EndsTurn g a f → IsRoundStart f
EndsTurn-IsRoundStart {g} {f} {a} s t = record {
  active = λ i b e. IsActive-turns t.turns b (s.active i b (entry-turns t.turns i b e));
  positive = λ i b e.
      let (r, w, m) = s.positive i b (entry-turns t.turns i b e) in
      (r, ratio-turns t.turns b ∙ w, m);
  idle = λ i b e. elim (Bool-cases (b == a)) [
    | inl same ↦ rw ((==_iff b a).0 same) t.own
    | inr other ↦ t.others b (ground (arith, other)) ∙ s.idle i b (entry-turns t.turns i b e)
  ];
}

weight-entry :
    (g : Fleet) (i a r : ℕ)
    → get_elem? g.lb_list i ≡ some a
    → (g.cells a).contention_ratio ≡ pos r
    → weight g i ≡ r
weight-entry g i a r e w = ground arith

-- The turns of the last `k` indices.
turns_left :
    (k i : ℕ) (exclude : Exclude) (g : Fleet)
    → i + k ≡ length g.lb_list
    → g.lb_index ≡ (if i == length g.lb_list then 0 else i)
    → ((j : ℕ) → is_excluded exclude j ≡ false)
    → IsRoundStart g
    → (f : Fleet) × Serves exclude g (schedule (weight g) k i) f
      × (f.lb_index ≡ 0)
      × IsRoundStart f
      × DifferInTurns g f
turns_left zero i exclude g e x free s = (g, rest, ground arith, s, DifferInTurns-refl g)
turns_left (suc k) i exclude g e x free s =
    let here : g.lb_index ≡ i = ground arith in
    let (a, entry) = get_elem?-lt_length g.lb_list i (omega arith) in
    let (r, w, m) = s.positive i a entry in
    let (h, p, t) =
      turn r 0 (suc r) exclude g {a = a}
        (subst (λ j. get_elem? g.lb_list j ≡ some a) (sym here) entry) (s.active i a entry)
        (free g.lb_index) (s.idle i a entry) w (omega arith) m in
    let (f, q, z, s', d) =
      turns_left k (suc i) exclude h (rw t.turns.same_list (omega arith))
        (t.index ∙ rw (t.turns.same_list, here) (ground arith)) free (EndsTurn-IsRoundStart s t) in
    let now : weight g i ≡ suc r = weight-entry g i a (suc r) entry w in
    (
      f,
      Serves-append
          (subst (λ l. Serves exclude g l h)
            (cc (ap (λ n. replicate n i) now, ap (replicate (suc r)) here)) p)
          (subst (λ v. Serves exclude h (schedule v k (suc i)) f) (weight-turns t.turns) q),
      z,
      s',
      DifferInTurns-trans t.turns d,
    )

-- One full turn of the round robin: if every listed backend is active, has a positive weight and
-- begins its turn, `lb_index` is 0 and nothing is excluded, the connections that follow go to index
-- 0 as often as its weight says, then to index 1, and so on to the last; after them the fleet is at
-- such a start again, and nothing but turns has changed.
pub round_robin :
    (exclude : Exclude) (g : Fleet)
    → g.lb_index ≡ 0
    → ((j : ℕ) → is_excluded exclude j ≡ false)
    → IsRoundStart g
    → (f : Fleet) × Serves exclude g (schedule (weight g) (length g.lb_list) 0) f
      × (f.lb_index ≡ 0)
      × IsRoundStart f
      × DifferInTurns g f
round_robin exclude g z free s =
    turns_left (length g.lb_list) 0 exclude g (omega arith) (ground arith) free s
