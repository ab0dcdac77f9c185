-- ===== src/Usage/Monotone.antt =====
-- Counters that never fall: the totals telescope.
use luci_app_gowan.Common.{ℕ, ◌-◌, ◌≤◌, ◌≡◌, sym, ◌∙◌, true, ◌<◌, List, [], ◌∷◌, arith, u64, add64}
use mathlib.Core.Path.{subst₂, ap₂}
use luci_app_gowan.Usage.{
  Date, DevUsage, push_history, roll_day, roll_month, count_traffic, apply_sample, delta,
}
use luci_app_gowan.Usage.History.{Sample, fold_samples}

-- Counters that never fall, from the readings `rx` and `tx` on.
abbrev pub Ascending : ℕ → ℕ → List Sample → Type 0
Ascending rx tx [] = Unit {0}
Ascending rx tx (s ∷ ss) = (rx ≤ s.rx) × (tx ≤ s.tx) × Ascending s.rx s.tx ss

-- The last reading, `rx` or `tx` if there is none.
abbrev pub last_of : ℕ → ℕ → List Sample → ℕ × ℕ
last_of rx tx [] = (rx, tx)
last_of rx tx (s ∷ ss) = last_of s.rx s.tx ss

last-le :
    (rx tx : ℕ) (ss : List Sample)
    → Ascending rx tx ss
    → (rx ≤ (last_of rx tx ss).0) × (tx ≤ (last_of rx tx ss).1)
last-le rx tx [] h = (omega arith, omega arith)
last-le rx tx (s ∷ ss) (p, q, h) = let (a, b) = last-le s.rx s.tx ss h in (omega arith, omega arith)

-- The totals and the baseline after one reading that does not fall.
apply_sample-total :
    (u : DevUsage) (rx tx : ℕ) (now : Date)
    → u.seen ≡ true
    → u.last_rx ≤ rx
    → u.last_tx ≤ tx
    → ((apply_sample u rx tx now).total_rx ≡ add64 u.total_rx (rx - u.last_rx))
      × ((apply_sample u rx tx now).total_tx ≡ add64 u.total_tx (tx - u.last_tx))
      × ((apply_sample u rx tx now).last_rx ≡ rx)
      × ((apply_sample u rx tx now).last_tx ≡ tx)
      × ((apply_sample u rx tx now).seen ≡ true)
unfolding apply_sample count_traffic roll_month roll_day push_history delta
apply_sample-total u rx tx now e p q = ground arith

-- If a device has a baseline and its counters never fall, the all-time totals grow, modulo 2 ^ 64,
-- by the difference between the last reading and the baseline, whatever days and months go by.
pub totals-telescope :
    (u : DevUsage) (ss : List Sample)
    → u.seen ≡ true
    → u.total_rx < u64
    → u.total_tx < u64
    → Ascending u.last_rx u.last_tx ss
    → ((fold_samples u ss).total_rx
        ≡ add64 u.total_rx ((last_of u.last_rx u.last_tx ss).0 - u.last_rx))
      × ((fold_samples u ss).total_tx
          ≡ add64 u.total_tx ((last_of u.last_rx u.last_tx ss).1 - u.last_tx))
unfolding fold_samples
totals-telescope u [] e r t h = (omega arith, omega arith)
totals-telescope u (s ∷ ss) e r t (p, q, h) =
    let v = apply_sample u s.rx s.tx s.now in
    let (a, b, c, d, seen) = apply_sample-total u s.rx s.tx s.now e p q in
    let ascending = subst₂ (λ x y. Ascending x y ss) (sym c) (sym d) h in
    let (x, y) = totals-telescope v ss seen (rw a (omega arith)) (rw b (omega arith)) ascending in
    let (m, n) = last-le s.rx s.tx ss h in
    let final = ap₂ (λ i j. last_of i j ss) c d in
    (x ∙ rw (final, a, c) (omega arith), y ∙ rw (final, b, d) (omega arith))
