-- ===== src/Dispatch/Attempts.antt =====
-- The dialling loop ends, tries no backend twice, and gives up only when it has tried them all.
use luci_app_gowan.Common.{
  ℕ, zero, suc, ◌≤◌, ◌<◌, ◌≡◌, refl, sym, subst, ap, ◌∙◌, inl, inr, true, false, Option, none, some,
  List, [], ◌∷◌, arith, contains, length, get_elem?, Bool-cases, lt_length_of_get_elem?,
}
use luci_app_gowan.Balancer.{Fleet, Run, returns, conn_started}
use luci_app_gowan.Balancer.Pick.{DifferInTurns-sym}
use luci_app_gowan.Balancer.Choice.{IsReady, IsActive}
use luci_app_gowan.Balancer.Fairness.{IsActive-turns}
use luci_app_gowan.Selection.{World, Request}
use luci_app_gowan.Selection.Sound.{Picked, round_robin_pick-Picked}
use luci_app_gowan.Selection.Picks.{pick_backend-Picked}
use luci_app_gowan.Dispatch.{Env, Dialled, Pick, dial_loop, rounds, backend_pick, tunnel_pick}
use luci_app_gowan.Dispatch.Tried.{missing, missing-cons, length-missing, DistinctBelow}

-- While a connection is dialled the others keep `lb_index` in range and the number of backends;
-- verdicts, turns, counters, rules and mappings may change in any way.
abbrev pub IsSteady : Env → ℕ → Type 0
IsSteady env count =
    (k : ℕ) (w : World)
    → IsReady w.fleet
    → length w.fleet.lb_list ≡ count
    → IsReady (env.between k w).fleet × (length (env.between k w).fleet.lb_list ≡ count)

abbrev pub IsGoodPick : Pick → Type 0
IsGoodPick pick =
    (k : ℕ) (w : World) (tried : List ℕ) → IsReady w.fleet → Picked w tried (pick k w tried)

-- The end of a dialling over `count` backends.
pub record Ends (env : Env) (count : ℕ) (d : Dialled) : Type 0 where
  -- no index failed twice
  pub distinct : DistinctBelow count d.tried
  -- at most one dial for each backend failed
  pub bounded : length d.tried ≤ count
  -- without an answer every backend that is active at the end was tried
  pub exhausted :
      d.backend ≡ none
      → (i a : ℕ) → get_elem? d.world.fleet.lb_list i ≡ some a
      → IsActive d.world.fleet a
      → contains d.tried i ≡ true
  -- the backend that answered is the entry at its index, had not failed before, and its dial, the
  -- one behind those that failed, succeeded
  pub entry : (a i : ℕ) → d.backend ≡ some (a, i) → get_elem? d.world.fleet.lb_list i ≡ some a
  pub untried : (a i : ℕ) → d.backend ≡ some (a, i) → contains d.tried i ≡ false
  pub answered : (a i : ℕ) → d.backend ≡ some (a, i) → env.dials (length d.tried) a ≡ true

conn_started-list : (g : Fleet) (a : ℕ) → (conn_started g a).lb_list ≡ g.lb_list
unfolding conn_started
conn_started-list g a = refl

same_entry :
    (g : Fleet) {a b i j : ℕ}
    → a ≡ b
    → i ≡ j
    → get_elem? g.lb_list i ≡ some a
    → get_elem? g.lb_list j ≡ some b
same_entry g p q e = rw (← p, ← q) e

module _ (count : ℕ) (pick : Pick) (good : IsGoodPick pick) (env : Env)
    (steady : IsSteady env count) where
  abbrev Finishes : Option (Run Dialled) → Type 0
  Finishes r = (d : Dialled) × (r ≡ some (returns d)) × Ends env count d

  module _ (fuel k : ℕ) (w : World) (tried : List ℕ) (p : Picked w tried (pick k w tried)) where
    run_with : {c : Option (ℕ × ℕ)} → p.chosen ≡ c → pick k w tried ≡ returns (p.after, c)
    run_with e = p.result ∙ ap (λ (x : Option (ℕ × ℕ)). returns (p.after, x)) e

    gives_up :
        p.chosen ≡ none
        → DistinctBelow count tried
        → Finishes (dial_loop (suc fuel) pick env k w tried)
    unfolding dial_loop
    gives_up e d = (
      record { world = p.after; tried = tried; backend = none },
      rw (run_with e, dial_loop) refl,
      record {
        distinct = d;
        bounded = omega (arith, length-missing count tried d);
        exhausted = λ q i a entry active.
            p.exhausted e i a
              (subst (λ (l : List ℕ). get_elem? l i ≡ some a) p.turns.same_list entry)
              (IsActive-turns (DifferInTurns-sym p.turns) a active);
        entry = λ a i q. cc;
        untried = λ a i q. cc;
        answered = λ a i q. cc;
      },
    )

    connects :
        (a i : ℕ)
        → p.chosen ≡ some (a, i)
        → env.dials k a ≡ true
        → length tried ≡ k
        → DistinctBelow count tried
        → Finishes (dial_loop (suc fuel) pick env k w tried)
    unfolding dial_loop
    connects a i e up n d =
        let v = record p.after { fleet = conn_started p.after.fleet a } in
        let c = p.choice (a, i) e in
        (
          record { world = v; tried = tried; backend = some (a, i) },
          rw (run_with e, dial_loop) (rw (up, dial_loop) refl),
          record {
            distinct = d;
            bounded = omega (arith, length-missing count tried d);
            exhausted = λ q. cc;
            entry = λ b j q.
                subst (λ (l : List ℕ). get_elem? l j ≡ some b)
                  (sym (conn_started-list p.after.fleet a ∙ p.turns.same_list))
                  (same_entry w.fleet (cc q) (cc q) c.entry);
            untried = λ b j q. ground (arith, q, c.untried);
            answered = λ b j q. rw n (ground (arith, q, up));
          },
        )

    goes_on :
        (a i : ℕ)
        → p.chosen ≡ some (a, i)
        → env.dials k a ≡ false
        → dial_loop (suc fuel) pick env k w tried
          ≡ dial_loop fuel pick env (suc k) (env.between k p.after) (i ∷ tried)
    unfolding dial_loop
    goes_on a i e down = rw (run_with e, dial_loop) (rw (down, dial_loop) refl)

  dial_loop-Finishes :
      (fuel k : ℕ) (w : World) (tried : List ℕ)
      → IsReady w.fleet
      → length w.fleet.lb_list ≡ count
      → DistinctBelow count tried
      → length tried ≡ k
      → missing count tried < fuel
      → Finishes (dial_loop fuel pick env k w tried)
  dial_loop-Finishes zero k w tried ready len d n h = absurd (omega arith)
  dial_loop-Finishes (suc fuel) k w tried ready len d n h =
      by_choice (dial_loop-Finishes fuel) p.chosen refl
    where
      p : Picked w tried (pick k w tried)
      p = good k w tried ready

      by_choice :
          ((l : ℕ) (x : World) (is : List ℕ)
            → IsReady x.fleet
            → length x.fleet.lb_list ≡ count
            → DistinctBelow count is
            → length is ≡ l
            → missing count is < fuel
            → Finishes (dial_loop fuel pick env l x is))
          → (c : Option (ℕ × ℕ)) → p.chosen ≡ c
          → Finishes (dial_loop (suc fuel) pick env k w tried)
      by_choice rest none e = gives_up fuel k w tried p e d
      by_choice rest (some (a, i)) e = elim (Bool-cases (env.dials k a)) [
        | inl up ↦ connects fuel k w tried p a i e up n d
        | inr down ↦
            let c = p.choice (a, i) e in
            let (ready', len') = steady k p.after p.ready (rw p.turns.same_list len) in
            let lt : i < count = omega (arith, lt_length_of_get_elem? w.fleet.lb_list i c.entry) in
            let fewer = missing-cons count i tried lt c.untried in
            rw (goes_on fuel k w tried p a i e down) (
              rest (suc k) (env.between k p.after) (i ∷ tried) ready' len' (c.untried, lt, d)
                (omega arith) (omega arith))
      ]

pub dispatch-Finishes :
    (env : Env) (w : World) (r : Request)
    → IsReady w.fleet
    → IsSteady env (length w.fleet.lb_list)
    → (d : Dialled) × (dial_loop (rounds w) (backend_pick env r) env 0 w [] ≡ some (returns d))
      × Ends env (length w.fleet.lb_list) d
dispatch-Finishes env w r ready steady =
    dial_loop-Finishes (length w.fleet.lb_list) (backend_pick env r)
      (λ k v tried h. pick_backend-Picked v r tried (env.readings k) h) env steady (rounds w) 0 w []
      ready refl tt refl (omega (arith, length-missing (length w.fleet.lb_list) [] tt))

pub tunnel-Finishes :
    (env : Env) (w : World)
    → IsReady w.fleet
    → IsSteady env (length w.fleet.lb_list)
    → (d : Dialled) × (dial_loop (rounds w) tunnel_pick env 0 w [] ≡ some (returns d))
      × Ends env (length w.fleet.lb_list) d
tunnel-Finishes env w ready steady =
    dial_loop-Finishes (length w.fleet.lb_list) tunnel_pick
      (λ k v tried h. round_robin_pick-Picked v tried h) env steady (rounds w) 0 w [] ready refl tt
      refl (omega (arith, length-missing (length w.fleet.lb_list) [] tt))
