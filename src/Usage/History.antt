-- ===== src/Usage/History.antt =====
-- The daily history: its length, and that no day's traffic is lost before the ring is full.
use luci_app_gowan.Common.{
  ℕ, ◌+◌, ◌-◌, ◌≤◌, ◌<◌, ◌≡◌, List, [], ◌∷◌, ◌++◌, arith, Bytes, length, length-append, length-drop,
}
use luci_app_gowan.Usage.{
  Date, DayTotal, DevUsage, push_history, roll_day, roll_month, count_traffic, apply_sample,
  day_key, usage_history_days,
}

-- A reading of both counters at a moment.
pub record Sample : Type 0 where
  pub rx : ℕ
  pub tx : ℕ
  pub now : Date

-- `apply_sample` on one sample after another.
unfoldable pub fold_samples : DevUsage → List Sample → DevUsage
fold_samples u [] = u
fold_samples u (s ∷ ss) = fold_samples (apply_sample u s.rx s.tx s.now) ss

-- The traffic that a history records.
abbrev pub rx_of : List DayTotal → ℕ
rx_of [] = 0
rx_of (d ∷ ds) = d.rx + rx_of ds

abbrev pub tx_of : List DayTotal → ℕ
tx_of [] = 0
tx_of (d ∷ ds) = d.tx + tx_of ds

pub rx_of-append : (ds es : List DayTotal) → rx_of (ds ++ es) ≡ rx_of ds + rx_of es
rx_of-append [] es = omega arith
rx_of-append (d ∷ ds) es = omega (arith, rx_of-append ds es)

pub tx_of-append : (ds es : List DayTotal) → tx_of (ds ++ es) ≡ tx_of ds + tx_of es
tx_of-append [] es = omega arith
tx_of-append (d ∷ ds) es = omega (arith, tx_of-append ds es)

-- While the ring is not full the day that ended goes to the end of the history.
pub push_history_short :
    (u : DevUsage) (day : Bytes) (rx tx : ℕ)
    → length u.history < usage_history_days
    → push_history u day rx tx
      ≡ record u { history = u.history ++ record { day = day; rx = rx; tx = tx } ∷ [] }
unfolding push_history
push_history_short u day rx tx h =
    ground (arith, length-append u.history (record { day = day; rx = rx; tx = tx } ∷ []))

length-push_history :
    (u : DevUsage) (day : Bytes) (rx tx : ℕ)
    → length u.history ≤ usage_history_days
    → (length u.history ≤ length (push_history u day rx tx).history)
      × (length (push_history u day rx tx).history ≤ usage_history_days)
unfolding push_history
length-push_history u day rx tx h = ground (
  arith,
  length-append u.history (record { day = day; rx = rx; tx = tx } ∷ []),
  length-drop
      (length (u.history ++ record { day = day; rx = rx; tx = tx } ∷ []) - usage_history_days)
      (u.history ++ record { day = day; rx = rx; tx = tx } ∷ []),
)

-- A sample never shortens a history that fits the ring, nor lengthens it beyond the ring.
abbrev pub Grows : DevUsage → DevUsage → Type 0
Grows u v = (length u.history ≤ length v.history) × (length v.history ≤ usage_history_days)

roll_day-Grows :
    (u : DevUsage) (dk : Bytes) → length u.history ≤ usage_history_days → Grows u (roll_day u dk)
unfolding roll_day
roll_day-Grows u dk h = ground (arith, length-push_history u u.day_key u.day_rx u.day_tx h)

sample-history :
    (u : DevUsage) (rx tx : ℕ) (now : Date)
    → (apply_sample u rx tx now).history ≡ (roll_day u (day_key now)).history
unfolding apply_sample count_traffic roll_month
sample-history u rx tx now = ground arith

pub apply_sample-Grows :
    (u : DevUsage) (rx tx : ℕ) (now : Date)
    → length u.history ≤ usage_history_days
    → Grows u (apply_sample u rx tx now)
apply_sample-Grows u rx tx now h =
    rw (sample-history u rx tx now) (roll_day-Grows u (day_key now) h)

-- A history of at most 90 days holds at most 90 days, and no fewer than before, however many samples
-- are folded in.
pub history_bounded :
    (u : DevUsage) (ss : List Sample)
    → length u.history ≤ usage_history_days
    → Grows u (fold_samples u ss)
unfolding fold_samples
history_bounded u [] h = (omega arith, h)
history_bounded u (s ∷ ss) h =
    let (a, b) = apply_sample-Grows u s.rx s.tx s.now h in
    let (c, d) = history_bounded (apply_sample u s.rx s.tx s.now) ss b in (omega arith, d)
