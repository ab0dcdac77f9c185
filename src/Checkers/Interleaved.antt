-- ===== src/Checkers/Interleaved.antt =====
-- Calls of `observe` whose sections interleave keep flags and verdicts together.
use luci_app_gowan.Common.{
  ℕ, ◌⊎◌, true, ◌≡◌, ◌≢◌, refl, sym, ap, ◌∙◌, inl, inr, Bool, arith, ◌==◌, ==_iff, if◌then◌else◌,
  Bool-cases, ℤ,
}
use luci_app_gowan.Balancer.{Backend, update}
use luci_app_gowan.Health.{HealthState, observe}
use luci_app_gowan.Health.Verdict.{observe-flip}
use luci_app_gowan.Checkers.{Watch, Publication, count_check, advance, publish}
use luci_app_gowan.Checkers.InStep.{Listed, IsInStep}
use luci_app_gowan.Checkers.Calls.{
  Call, idle, admitted, publishing, System, admit, Step, begins, advances, publishes, elsewhere,
  Reach, here, next, flag_after, IsFollowed,
}

-- A change of one call that leaves the variables and the flag to come.
module _ (s : System) (f : IsFollowed s) (h : ℕ) (c : Call) (l : c ≢ idle → Listed s.watch h)
    (same : (up : Bool) → flag_after c up ≡ flag_after (s.calls h) up) where
  changed-IsFollowed : IsFollowed (record s { calls = update s.calls h c })
  changed-IsFollowed = record {
    called = λ i n. elim (Bool-cases (i == h)) [
      | inl e ↦ rw ((==_iff i h).0 e) (l (rw e at n))
      | inr other ↦ f.called i (rw other at n)
    ];
    running = f.running;
    agrees = λ i m. elim (Bool-cases (i == h)) [
      | inl e ↦ rw e (
          same (s.watch.fleet.cells (s.watch.checker_cells i).lb).up
          ∙ (rw ((==_iff i h).0 e) (f.agrees h (rw ((==_iff i h).0 e) at m))))
      | inr other ↦ rw other (f.agrees i m)
    ];
    alone = f.alone;
  }

observe-flag :
    (m : HealthState) (ok up : Bool)
    → up ≡ m.up
    → (if (observe m ok).1 then (observe m ok).0.up else up) ≡ (observe m ok).0.up
observe-flag m ok up e = elim (Bool-cases (observe m ok).1) [
  | inl flip ↦ rw flip refl
  | inr same ↦ rw same (e ∙ sym ((observe-flip m ok).1 same))
]

module _ (w : Watch) (h : ℕ) (ok : Bool) where
  advance-lb : (i : ℕ) → ((advance w h ok).0.checker_cells i).lb ≡ (w.checker_cells i).lb
  unfolding advance
  advance-lb i = elim (Bool-cases (i == h)) [
    | inl e ↦ rw e (ap (λ x. (w.checker_cells x).lb) (sym ((==_iff i h).0 e)))
    | inr other ↦ rw other refl
  ]

  advance-stopped :
      (i : ℕ) → ((advance w h ok).0.checker_cells i).stopped ≡ (w.checker_cells i).stopped
  unfolding advance
  advance-stopped i = elim (Bool-cases (i == h)) [
    | inl e ↦ rw e (ap (λ x. (w.checker_cells x).stopped) (sym ((==_iff i h).0 e)))
    | inr other ↦ rw other refl
  ]

  advance-Listed : (i : ℕ) → Listed (advance w h ok).0 i → Listed w i
  unfolding advance
  advance-Listed i l = l

  Listed-advance : (i : ℕ) → Listed w i → Listed (advance w h ok).0 i
  unfolding advance
  Listed-advance i l = l

  advance-fleet : (advance w h ok).0.fleet ≡ w.fleet
  unfolding advance
  advance-fleet = refl

-- The section under `hc.mu`: the flip that it finds is to be published.
module _ (s : System) (f : IsFollowed s) (h : ℕ) (ok : Bool) (e : s.calls h ≡ admitted ok) where
  called-Listed : Listed s.watch h
  called-Listed = f.called h (λ n. cc (n, e))

  advanced_agrees :
      (i : ℕ)
      → Listed s.watch i
      → flag_after
          (update s.calls h (publishing (advance s.watch h ok).1) i)
          (s.watch.fleet.cells (s.watch.checker_cells i).lb).up
        ≡ ((advance s.watch h ok).0.checker_cells i).state.up
  unfolding advance
  advanced_agrees i l = elim (Bool-cases (i == h)) [
    | inl same ↦
        let i≡h : i ≡ h = (==_iff i h).0 same in
        let agreed : (s.watch.fleet.cells (s.watch.checker_cells h).lb).up
            ≡ (s.watch.checker_cells h).state.up =
          ap (λ c. flag_after c (s.watch.fleet.cells (s.watch.checker_cells h).lb).up) (sym e)
          ∙ f.agrees h called-Listed in
        rw same (
          rw i≡h (
            observe-flag (s.watch.checker_cells h).state ok
              (s.watch.fleet.cells (s.watch.checker_cells h).lb).up agreed))
    | inr other ↦ rw other (f.agrees i l)
  ]

  advanced-IsFollowed : IsFollowed (record {
    watch = (advance s.watch h ok).0;
    calls = update s.calls h (publishing (advance s.watch h ok).1);
  })
  advanced-IsFollowed = record {
    called = λ i n. called i n;
    running = λ i l. advance-stopped s.watch h ok i ∙ f.running i (advance-Listed s.watch h ok i l);
    agrees = λ i l. agrees i (advance-Listed s.watch h ok i l);
    alone = λ i k l m same.
        f.alone i k (advance-Listed s.watch h ok i l) (advance-Listed s.watch h ok k m)
          (sym (advance-lb s.watch h ok i) ∙ same ∙ advance-lb s.watch h ok k);
  }
    where
      called :
          (i : ℕ)
          → update s.calls h (publishing (advance s.watch h ok).1) i ≢ idle
          → Listed (advance s.watch h ok).0 i
      called i n = elim (Bool-cases (i == h)) [
        | inl same ↦ rw ((==_iff i h).0 same) (Listed-advance s.watch h ok h called-Listed)
        | inr other ↦ Listed-advance s.watch h ok i (f.called i (rw other at n))
      ]

      agrees :
          (i : ℕ)
          → Listed s.watch i
          → flag_after
              (update s.calls h (publishing (advance s.watch h ok).1) i)
              ((advance s.watch h ok).0.fleet.cells
                ((advance s.watch h ok).0.checker_cells i).lb).up
            ≡ ((advance s.watch h ok).0.checker_cells i).state.up
      agrees i l = rw (advance-fleet s.watch h ok, advance-lb s.watch h ok i) (advanced_agrees i l)

count_check-flag :
    (ok flip up : Bool) (now : ℤ) (lb : Backend)
    → (count_check ok flip up now lb).up ≡ (if flip then up else lb.up)
unfolding count_check
count_check-flag ok flip up now lb = ground arith

-- The section under `mutex`.
module _ (s : System) (f : IsFollowed s) (h : ℕ) (p : Publication) (now : ℤ)
    (e : s.calls h ≡ publishing p) where
  published_agrees :
      (i : ℕ)
      → Listed s.watch i
      → flag_after
          (update s.calls h idle i)
          ((publish s.watch h p now).0.fleet.cells (s.watch.checker_cells i).lb).up
        ≡ (s.watch.checker_cells i).state.up
  unfolding publish
  published_agrees i l = elim (Bool-cases (i == h)) [
    | inl same ↦
        let i≡h : i ≡ h = (==_iff i h).0 same in
        let agreed : flag_after (publishing p) (s.watch.fleet.cells (s.watch.checker_cells h).lb).up
            ≡ (s.watch.checker_cells h).state.up =
          ap (λ c. flag_after c (s.watch.fleet.cells (s.watch.checker_cells h).lb).up) (sym e)
          ∙ f.agrees h (f.called h (λ n. cc (n, e))) in
        rw same (
          rw i≡h (
            rw ((==_iff _ _).1 refl) (
              count_check-flag p.ok p.flip p.up now
                (s.watch.fleet.cells (s.watch.checker_cells h).lb)
              ∙ agreed)))
    | inr other ↦ elim (Bool-cases ((s.watch.checker_cells i).lb == (s.watch.checker_cells h).lb)) [
      | inl both ↦ cc (
        other,
        (==_iff i h).1 (f.alone i h l (f.called h (λ n. cc (n, e))) ((==_iff _ _).0 both)),
      )
      | inr apart ↦ rw (other, apart) (f.agrees i l)
    ]
  ]

  published-IsFollowed :
      IsFollowed (record { watch = (publish s.watch h p now).0; calls = update s.calls h idle })
  unfolding publish
  published-IsFollowed = record {
    called = λ i n. elim (Bool-cases (i == h)) [
      | inl same ↦ absurd ((rw same at n) refl)
      | inr other ↦ f.called i (rw other at n)
    ];
    running = f.running;
    agrees = published_agrees;
    alone = f.alone;
  }

-- The test of `stop` leaves the flag to come.
admit-flag : (w : Watch) (h : ℕ) (ok up : Bool) → flag_after (admit w h ok) up ≡ up
unfolding admit
admit-flag w h ok up = elim (Bool-cases (w.checker_cells h).stopped) [
  | inl old ↦ rw old refl
  | inr live ↦ rw live refl
]

-- A stopped checker is not admitted.
admit-Listed :
    (w : Watch) (h : ℕ) (ok : Bool)
    → Listed w h ⊎ ((w.checker_cells h).stopped ≡ true)
    → admit w h ok ≢ idle
    → Listed w h
unfolding admit
admit-Listed w h ok (inl l) n = l
admit-Listed w h ok (inr old) n = absurd ((rw old at n) refl)

Step-IsFollowed : {s t : System} → IsFollowed s → Step s t → IsFollowed t
Step-IsFollowed {s} f (begins h ok l e) =
    changed-IsFollowed s f h (admit s.watch h ok) (admit-Listed s.watch h ok l)
      (λ up. admit-flag s.watch h ok up ∙ ap (λ c. flag_after c up) (sym e))
Step-IsFollowed {s} f (advances h ok e) = advanced-IsFollowed s f h ok e
Step-IsFollowed {s} f (publishes h p now e) = published-IsFollowed s f h p now e
Step-IsFollowed {s} f (elsewhere g same) = record {
  called = f.called;
  running = f.running;
  agrees = λ i l. ap (flag_after (s.calls i)) (same (s.watch.checker_cells i).lb) ∙ f.agrees i l;
  alone = f.alone;
}

in_step-IsFollowed : (s : System) → IsInStep s.watch → ((h : ℕ) → s.calls h ≡ idle) → IsFollowed s
in_step-IsFollowed s k rest = record {
  called = λ h n. absurd (n (rest h));
  running = k.running;
  agrees = λ h l.
      ap (λ c. flag_after c (s.watch.fleet.cells (s.watch.checker_cells h).lb).up) (rest h)
      ∙ k.agrees h l;
  alone = k.alone;
}

at_rest-IsInStep : (s : System) → IsFollowed s → ((h : ℕ) → s.calls h ≡ idle) → IsInStep s.watch
at_rest-IsInStep s f rest = record {
  running = f.running;
  agrees = λ h l.
      ap (λ c. flag_after c (s.watch.fleet.cells (s.watch.checker_cells h).lb).up) (sym (rest h))
      ∙ f.agrees h l;
  alone = f.alone;
}

-- Let the checkers be in step with the flags of their backends, and no call of `observe` be under way.
-- However calls of checkers that are listed, or were stopped, then run, their sections interleaved with those of other checkers
-- and with whatever else is done to the backends, flags excepted, if no two calls of one checker
-- overlap and nothing is reloaded: at every moment the flag of a listed checker's backend, once a
-- flip that is still to be published has been, is the verdict of its machine; and whenever no call is
-- under way the checkers are in step again.
pub Reach-IsFollowed :
    {s t : System}
    → IsInStep s.watch
    → ((h : ℕ) → s.calls h ≡ idle)
    → Reach s t
    → IsFollowed t × (((h : ℕ) → t.calls h ≡ idle) → IsInStep t.watch)
Reach-IsFollowed {s} {t} k rest r = (followed r, at_rest-IsInStep t (followed r))
  where
    followed : {u : System} → Reach s u → IsFollowed u
    followed here = in_step-IsFollowed s k rest
    followed (next q x) = Step-IsFollowed (followed q) x
