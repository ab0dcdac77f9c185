-- ===== src/Balancer/Pick.antt =====
-- What the second loop of `get_load_balancer` hands out, and what it leaves alone.
use mathlib.Core.Path.{fun_ext}
use luci_app_gowan.Common.{
  ℕ, zero, suc, ◌<◌, ◌≡◌, refl, sym, ap, ◌∙◌, ◌⊎◌, inl, inr, Bool, true, false, Option, none, some,
  [], arith, get_elem?, length, if◌then◌else◌, Bool-cases, get_elem?-lt_length,
}
use luci_app_gowan.Balancer.{
  Backend, Fleet, ActiveTier, Exclude, Run, returns, eligible, pass_over, hand_out, pick_loop,
  next_index,
}
use luci_app_gowan.Balancer.Rotation.{rotation, find_first, next_index-lt}

-- The index `i` may be handed out.
unfoldable pub eligible_at : ActiveTier → Exclude → Fleet → ℕ → Bool
eligible_at t exclude g i = elim (get_elem? g.lb_list i) [
  | none ↦ false
  | some a ↦ eligible t exclude (g.cells a) i
]

-- Two fleets that differ in `lb_index` and in the turns of their backends alone.
pub record DifferInTurns (g h : Fleet) : Type 0 where
  pub same_list : h.lb_list ≡ g.lb_list
  pub same_fresh : h.fresh ≡ g.fresh
  pub same_cells :
      (a : ℕ)
      → record (h.cells a) { current_connections = (g.cells a).current_connections } ≡ g.cells a

pub DifferInTurns-refl : (g : Fleet) → DifferInTurns g g
DifferInTurns-refl g = record { same_list = refl; same_fresh = refl; same_cells = λ a. refl }

pub DifferInTurns-trans :
    {f g h : Fleet} → DifferInTurns f g → DifferInTurns g h → DifferInTurns f h
DifferInTurns-trans {f} {g} {h} p q = record {
  same_list = q.same_list ∙ p.same_list;
  same_fresh = q.same_fresh ∙ p.same_fresh;
  same_cells = λ a.
      ap (λ (b : Backend). record b { current_connections = (f.cells a).current_connections })
        (q.same_cells a)
      ∙ p.same_cells a;
}

pub DifferInTurns-sym : {g h : Fleet} → DifferInTurns g h → DifferInTurns h g
DifferInTurns-sym {g} {h} p = record {
  same_list = sym p.same_list;
  same_fresh = sym p.same_fresh;
  same_cells = λ a. sym (
      ap (λ (b : Backend). record b { current_connections = (h.cells a).current_connections })
        (p.same_cells a));
}

pass_over-DifferInTurns : (g : Fleet) (a : ℕ) → DifferInTurns g (pass_over g a)
unfolding pass_over
pass_over-DifferInTurns g a = record {
  same_list = refl;
  same_fresh = refl;
  same_cells = λ b. ground arith;
}

pub hand_out-DifferInTurns : (g : Fleet) (a : ℕ) → DifferInTurns g (hand_out g a)
unfolding hand_out
hand_out-DifferInTurns g a = record {
  same_list = ground arith;
  same_fresh = ground arith;
  same_cells = λ b. ground arith;
}

eligible-turns :
    (t : ActiveTier) (exclude : Exclude) (i : ℕ) (b c : Backend)
    → record c { current_connections = b.current_connections } ≡ b
    → eligible t exclude c i ≡ eligible t exclude b i
unfolding eligible
eligible-turns t exclude i b c e = ap (λ (x : Backend). eligible t exclude x i) e

-- Turns do not matter to eligibility.
pub eligible_at-turns :
    (t : ActiveTier) (exclude : Exclude) {g h : Fleet}
    → DifferInTurns g h
    → eligible_at t exclude h ≡ eligible_at t exclude g
unfolding eligible_at
eligible_at-turns t exclude {g} {h} d = fun_ext λ i.
    rw d.same_list
      (elim (get_elem? g.lb_list i)
        as (λ (o : Option ℕ).
          ◌≡◌ {A = Bool} (elim o [ none ↦ false | some a ↦ eligible t exclude (h.cells a) i ])
            (elim o [ none ↦ false | some a ↦ eligible t exclude (g.cells a) i ])) [
              | none ↦ refl
              | some a ↦ eligible-turns t exclude i (g.cells a) (h.cells a) (d.same_cells a)
            ])

-- The index of a choice.
abbrev pub index_of : Option (ℕ × ℕ) → Option ℕ
index_of none = none
index_of (some (a, i)) = some i

-- The address in a choice is the one that stands at its index.
abbrev pub IsEntry : Fleet → Option (ℕ × ℕ) → Type 0
IsEntry g none = Unit
IsEntry g (some (a, i)) = get_elem? g.lb_list i ≡ some a

-- A run that ends without a panic, with the given index or none.
pub record Picks (g : Fleet) (choice : Option ℕ) (r : Run (Fleet × Option (ℕ × ℕ))) : Type 0 where
  pub after : Fleet
  pub chosen : Option (ℕ × ℕ)
  pub result : r ≡ returns (after, chosen)
  pub index : index_of chosen ≡ choice
  pub entry : IsEntry g chosen
  pub turns : DifferInTurns g after
  pub ready : (g.lb_list ≡ []) ⊎ (after.lb_index < length g.lb_list)

hand_out-lt :
    (g : Fleet) (a : ℕ) → g.lb_index < length g.lb_list → (hand_out g a).lb_index < length g.lb_list
unfolding hand_out
hand_out-lt g a h = ground (arith, next_index-lt (length g.lb_list) g.lb_index h)

pass_over-lt :
    (g : Fleet) (a : ℕ)
    → g.lb_index < length g.lb_list
    → (pass_over g a).lb_index < length g.lb_list
unfolding pass_over
pass_over-lt g a h = next_index-lt (length g.lb_list) g.lb_index h

module _ (t : ActiveTier) (exclude : Exclude) (g : Fleet) {a : ℕ}
    (here : get_elem? g.lb_list g.lb_index ≡ some a) where
  pub pick_loop-hit :
      (k : ℕ)
      → eligible t exclude (g.cells a) g.lb_index ≡ true
      → pick_loop (suc k) t exclude g ≡ returns (hand_out g a, some (a, g.lb_index))
  unfolding pick_loop
  pick_loop-hit k h = ground arith

  pick_loop-miss :
      (k : ℕ)
      → eligible t exclude (g.cells a) g.lb_index ≡ false
      → pick_loop (suc k) t exclude g ≡ pick_loop k t exclude (pass_over g a)
  unfolding pick_loop
  pick_loop-miss k h = ground arith

pub eligible_at-entry :
    (t : ActiveTier) (exclude : Exclude) (g : Fleet) (i : ℕ) {a : ℕ}
    → get_elem? g.lb_list i ≡ some a
    → eligible_at t exclude g i ≡ eligible t exclude (g.cells a) i
unfolding eligible_at
eligible_at-entry t exclude g i e = ground arith

find_first-step :
    (p : ℕ → Bool) (count k i : ℕ)
    → find_first p (rotation count (suc k) i)
      ≡ (if p i then some i else find_first p (rotation count k (next_index count i)))
unfolding find_first rotation
find_first-step p count k i = refl

IsEntry-turns : {g h : Fleet} (c : Option (ℕ × ℕ)) → DifferInTurns g h → IsEntry h c → IsEntry g c
IsEntry-turns none d e = tt
IsEntry-turns (some (a, i)) d e = rw (← d.same_list) e

-- The loop is a search along the rotation.
pub pick_loop-Picks :
    (k : ℕ) (t : ActiveTier) (exclude : Exclude) (g : Fleet)
    → g.lb_index < length g.lb_list
    → Picks g
        (find_first (eligible_at t exclude g) (rotation (length g.lb_list) k g.lb_index))
        (pick_loop k t exclude g)
unfolding pass_over
pick_loop-Picks zero t exclude g h =
    unfold rotation find_first pick_loop in
    record {
      after = g;
      chosen = none;
      result = refl;
      index = refl;
      entry = tt;
      turns = DifferInTurns-refl g;
      ready = inr h;
    }
pick_loop-Picks (suc k) t exclude g h =
    let (a, e) = get_elem?-lt_length g.lb_list g.lb_index h in
    elim (Bool-cases (eligible t exclude (g.cells a) g.lb_index)) [
      | inl hit ↦
          rw (find_first-step, eligible_at-entry t exclude g g.lb_index e, hit)
            (record {
              after = hand_out g a;
              chosen = some (a, g.lb_index);
              result = pick_loop-hit t exclude g e k hit;
              index = refl;
              entry = e;
              turns = hand_out-DifferInTurns g a;
              ready = inr (hand_out-lt g a h);
            })
      | inr miss ↦
          let skip = pass_over-DifferInTurns g a in
          let rest = pick_loop-Picks k t exclude (pass_over g a) (pass_over-lt g a h) in
          rw
            (
              find_first-step,
              eligible_at-entry t exclude g g.lb_index e,
              miss,
              pick_loop-miss t exclude g e k miss,
            )
            (record {
              after = rest.after;
              chosen = rest.chosen;
              result = rest.result;
              index =
                  rest.index
                  ∙ ap
                      (λ (p : ℕ → Bool).
                        find_first p (
                          rotation (length g.lb_list) k (next_index (length g.lb_list) g.lb_index)))
                      (eligible_at-turns t exclude skip);
              entry = IsEntry-turns rest.chosen skip rest.entry;
              turns = DifferInTurns-trans skip rest.turns;
              ready = rest.ready;
            })
    ]
