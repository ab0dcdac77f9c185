-- ===== src/Checkers/Start.antt =====
-- Checkers that have just been started are in step with the flags of their backends.
use luci_app_gowan.Common.{
  ℕ, zero, suc, ◌<◌, ◌≡◌, refl, sym, ap, subst, ◌∙◌, ◌≢◌, ◌⊎◌, inl, inr, false, Option, none, some,
  List, [], ◌∷◌, ◌++◌, arith, get_elem?, ◌==◌, ==_iff, Bool-cases,
}
use luci_app_gowan.Balancer.{update}
use luci_app_gowan.Checkers.{
  CheckConfig, HealthChecker, Watch, is_checked, new_checker, add_checker, add_checkers,
  start_health_checks,
}
use luci_app_gowan.Checkers.InStep.{Listed, IsInStep}

-- No backend stands twice in a list.
abbrev pub DistinctEntries : List ℕ → Type 0
DistinctEntries l = (i j a : ℕ) → get_elem? l i ≡ some a → get_elem? l j ≡ some a → i ≡ j

listed_snoc :
    (xs : List (Option ℕ)) (o : Option ℕ) (j h : ℕ)
    → get_elem? (xs ++ o ∷ []) j ≡ some (some h)
    → ((i : ℕ) × (get_elem? xs i ≡ some (some h))) ⊎ (o ≡ some h)
listed_snoc [] o zero h e = inr (cc e)
listed_snoc [] o (suc j) h e = cc
listed_snoc (x ∷ xs) o zero h e = inl (0, e)
listed_snoc (x ∷ xs) o (suc j) h e = elim (listed_snoc xs o j h e) [
  | inl (i, f) ↦ inl (suc i, f)
  | inr f ↦ inr f
]

-- The loop of `start_health_checks` with the backends `l` still to come.
record Starts (w : Watch) (l : List ℕ) : Type 0 where
  step : IsInStep w
  below : (h : ℕ) → Listed w h → h < w.fresh_checker
  apart : (h : ℕ) → Listed w h → (j b : ℕ) → get_elem? l j ≡ some b → (w.checker_cells h).lb ≢ b

abbrev passed : Watch → Watch
passed w = record w { checkers = w.checkers ++ none ∷ [] }

passed-Listed : (w : Watch) (h : ℕ) → Listed (passed w) h → Listed w h
passed-Listed w h (j, e) = elim (listed_snoc w.checkers none j h e) [ inl l ↦ l | inr f ↦ cc f ]

passed-Starts : (w : Watch) (a : ℕ) (l : List ℕ) → Starts w (a ∷ l) → Starts (passed w) l
passed-Starts w a l s = record {
  step = record {
    running = λ h m. s.step.running h (passed-Listed w h m);
    agrees = λ h m. s.step.agrees h (passed-Listed w h m);
    alone = λ h i m n. s.step.alone h i (passed-Listed w h m) (passed-Listed w i n);
  };
  below = λ h m. s.below h (passed-Listed w h m);
  apart = λ h m j b e. s.apart h (passed-Listed w h m) (suc j) b e;
}

module _ (w : Watch) (a : ℕ) (c : CheckConfig) where
  abbrev grown : Watch
  grown = record w {
    checker_cells = update w.checker_cells w.fresh_checker (new_checker w.fleet.cells a c);
    fresh_checker = suc w.fresh_checker;
    checkers = w.checkers ++ some w.fresh_checker ∷ [];
  }

  grown-Listed : (h : ℕ) → Listed grown h → Listed w h ⊎ (w.fresh_checker ≡ h)
  grown-Listed h (j, e) = elim (listed_snoc w.checkers (some w.fresh_checker) j h e) [
    | inl l ↦ inl l
    | inr f ↦ inr (cc f)
  ]

  old_cell : (h : ℕ) → h < w.fresh_checker → grown.checker_cells h ≡ w.checker_cells h
  old_cell h lt = let other : (h == w.fresh_checker) ≡ false = ground arith in rw other refl

  new_cell : grown.checker_cells w.fresh_checker ≡ new_checker w.fleet.cells a c
  new_cell = rw ((==_iff w.fresh_checker w.fresh_checker).1 refl) refl

  -- What holds of the cells of `w` that are listed, and of the new one, holds of all that are listed.
  grown_all :
      {l : List ℕ} (P : HealthChecker → Type 0)
      → Starts w (a ∷ l)
      → ((h : ℕ) → Listed w h → P (w.checker_cells h))
      → P (new_checker w.fleet.cells a c)
      → (h : ℕ) → Listed grown h
      → P (grown.checker_cells h)
  grown_all P s old new h m = elim (grown-Listed h m) [
    | inl l ↦ subst P (sym (old_cell h (s.below h l))) (old h l)
    | inr e ↦ subst (λ x. P (grown.checker_cells x)) e (subst P (sym new_cell) new)
  ]

  new_lb : (h : ℕ) → w.fresh_checker ≡ h → (grown.checker_cells h).lb ≡ a
  unfolding new_checker
  new_lb h f =
      ap (λ x. (grown.checker_cells x).lb) (sym f) ∙ ap (λ (hc : HealthChecker). hc.lb) new_cell

  grown_apart :
      {l : List ℕ} → Starts w (a ∷ l) → (h : ℕ) → Listed w h → (grown.checker_cells h).lb ≢ a
  grown_apart s h l q =
      s.apart h l 0 a refl (sym (ap (λ (hc : HealthChecker). hc.lb) (old_cell h (s.below h l))) ∙ q)

  grown_alone :
      {l : List ℕ}
      → Starts w (a ∷ l)
      → (h i : ℕ) → Listed grown h
      → Listed grown i
      → (grown.checker_cells h).lb ≡ (grown.checker_cells i).lb
      → h ≡ i
  grown_alone s h i m n e = elim (grown-Listed h m) [
    | inl l ↦ elim (grown-Listed i n) [
      | inl k ↦ s.step.alone h i l k (rw (old_cell h (s.below h l), old_cell i (s.below i k)) at e)
      | inr f ↦ absurd (grown_apart s h l (e ∙ new_lb i f))
    ]
    | inr f ↦ elim (grown-Listed i n) [
      | inl k ↦ absurd (grown_apart s i k (sym e ∙ new_lb h f))
      | inr g ↦ sym f ∙ g
    ]
  ]

  grown-Starts : (l : List ℕ) → DistinctEntries (a ∷ l) → Starts w (a ∷ l) → Starts grown l
  unfolding new_checker
  grown-Starts l d s = record {
    step = record {
      running = grown_all (λ hc. hc.stopped ≡ false) s s.step.running refl;
      agrees = grown_all (λ hc. (w.fleet.cells hc.lb).up ≡ hc.state.up) s s.step.agrees refl;
      alone = grown_alone s;
    };
    below = λ h m. elim (grown-Listed h m) [
      | inl k ↦ omega (arith, s.below h k)
      | inr e ↦ omega (arith, e)
    ];
    apart =
        grown_all (λ hc. (j b : ℕ) → get_elem? l j ≡ some b → hc.lb ≢ b) s
          (λ h k j b e. s.apart h k (suc j) b e)
          (λ j b e same. ground (arith, d 0 (suc j) b (ap some same) e));
  }

add_checker-Starts :
    (w : Watch) (a : ℕ) (o : Option CheckConfig) (l : List ℕ)
    → DistinctEntries (a ∷ l)
    → Starts w (a ∷ l)
    → Starts (add_checker w a o) l
unfolding add_checker
add_checker-Starts w a none l d s = passed-Starts w a l s
add_checker-Starts w a (some c) l d s = elim (Bool-cases (is_checked c)) [
  | inl on ↦ rw on (grown-Starts w a c l d s)
  | inr off ↦ rw off (passed-Starts w a l s)
]

DistinctEntries-tail : {a : ℕ} (l : List ℕ) → DistinctEntries (a ∷ l) → DistinctEntries l
DistinctEntries-tail l d i j b e f = ground (arith, d (suc i) (suc j) b e f)

add_checkers-IsInStep :
    (w : Watch) (l : List ℕ) (cfgs : List CheckConfig)
    → DistinctEntries l
    → Starts w l
    → IsInStep (add_checkers w l cfgs)
unfolding add_checkers
add_checkers-IsInStep w [] cfgs d s = s.step
add_checkers-IsInStep w (a ∷ l) [] d s =
    add_checkers-IsInStep (add_checker w a none) l [] (DistinctEntries-tail l d)
      (add_checker-Starts w a none l d s)
add_checkers-IsInStep w (a ∷ l) (c ∷ cfgs) d s =
    add_checkers-IsInStep (add_checker w a (some c)) l cfgs (DistinctEntries-tail l d)
      (add_checker-Starts w a (some c) l d s)

-- Where no backend is listed twice, the checkers that `start_health_checks` publishes all run, start
-- from the flags of their backends, and are each the only one of its backend.
pub start_health_checks-IsInStep :
    (w : Watch) (cfgs : List CheckConfig)
    → DistinctEntries w.fleet.lb_list
    → IsInStep (start_health_checks w cfgs)
unfolding start_health_checks
start_health_checks-IsInStep w cfgs d =
    add_checkers-IsInStep (record w { checkers = [] }) w.fleet.lb_list cfgs d
      (record {
        step = record {
          running = λ h (j, e). cc e;
          agrees = λ h (j, e). cc e;
          alone = λ h i (j, e) m q. cc e;
        };
        below = λ h (j, e). cc e;
        apart = λ h (j, e) k b f. cc e;
      })
