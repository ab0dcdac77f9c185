-- ===== src/Usage/Totals.antt =====
-- The totals against the daily history: no traffic is counted twice or lost.
use luci_app_gowan.Common.{
  ℕ, ◌+◌, ◌%◌, ◌≤◌, ◌<◌, ◌≡◌, refl, ap, ◌∙◌, inl, inr, true, false, List, [], ◌∷◌, arith, Bytes,
  text_eq, text_eq_iff, u64, length, Bool-cases, is_blank,
}
use luci_app_gowan.Usage.{
  Date, DayTotal, DevUsage, new_usage, roll_day, roll_month, count_traffic, apply_sample, day_key,
  month_key, usage_history_days,
}
use luci_app_gowan.Usage.History.{
  Sample, fold_samples, rx_of, tx_of, rx_of-append, tx_of-append, push_history_short,
  history_bounded, apply_sample-Grows,
}

-- The all-time totals are the archived days and the running day together, modulo 2 ^ 64.
pub record IsBalanced (u : DevUsage) : Type 0 where
  pub rx : u.total_rx ≡ (rx_of u.history + u.day_rx) % u64
  pub tx : u.total_tx ≡ (tx_of u.history + u.day_tx) % u64
  pub blank : is_blank u.day_key ≡ true → (u.day_rx ≡ 0) × (u.day_tx ≡ 0)

roll_day-IsBalanced :
    (u : DevUsage) (dk : Bytes)
    → length u.history < usage_history_days
    → IsBalanced u
    → IsBalanced (roll_day u dk)
unfolding roll_day
roll_day-IsBalanced u dk h b = elim (Bool-cases (text_eq u.day_key dk)) [
  | inl same ↦ rw same b
  | inr new ↦ elim (Bool-cases (is_blank u.day_key)) [
    | inl first ↦
        let (r, t) = b.blank first in
        rw (new, first)
          (record { rx = b.rx ∙ rw r refl; tx = b.tx ∙ rw t refl; blank = λ e. (refl, refl) })
    | inr later ↦
        let day : DayTotal = record { day = u.day_key; rx = u.day_rx; tx = u.day_tx } in
        rw (new, later, push_history_short u u.day_key u.day_rx u.day_tx h)
          (record {
            rx = omega (arith, b.rx, rx_of-append u.history (day ∷ []));
            tx = omega (arith, b.tx, tx_of-append u.history (day ∷ []));
            blank = λ e. (refl, refl);
          })
  ]
]

roll_month-IsBalanced : (u : DevUsage) (mk : Bytes) → IsBalanced u → IsBalanced (roll_month u mk)
unfolding roll_month
roll_month-IsBalanced u mk b = elim (Bool-cases (text_eq u.month_key mk)) [
  | inl same ↦ rw same b
  | inr new ↦ rw new (record { rx = b.rx; tx = b.tx; blank = b.blank })
]

count_traffic-IsBalanced :
    (u : DevUsage) (rx tx : ℕ)
    → is_blank u.day_key ≡ false
    → IsBalanced u
    → IsBalanced (count_traffic u rx tx)
unfolding count_traffic
count_traffic-IsBalanced u rx tx k b = elim (Bool-cases u.seen) [
  | inl on ↦ rw on (record { rx = omega (arith, b.rx); tx = omega (arith, b.tx); blank = λ e. cc })
  | inr off ↦ simp off b
]

roll_day-key : (u : DevUsage) (dk : Bytes) → (roll_day u dk).day_key ≡ dk
unfolding roll_day
roll_day-key u dk = ground (arith, text_eq_iff u.day_key dk)

roll_month-key : (u : DevUsage) (mk : Bytes) → (roll_month u mk).day_key ≡ u.day_key
unfolding roll_month
roll_month-key u mk = ground arith

day_key-shown : (now : Date) → is_blank (day_key now) ≡ false
unfolding day_key
day_key-shown now = refl

apply_sample-IsBalanced :
    (u : DevUsage) (rx tx : ℕ) (now : Date)
    → length u.history < usage_history_days
    → IsBalanced u
    → IsBalanced (apply_sample u rx tx now)
unfolding apply_sample
apply_sample-IsBalanced u rx tx now h b =
    let v = roll_day u (day_key now) in
    let w = roll_month v (month_key now) in
    let key = roll_month-key v (month_key now) ∙ roll_day-key u (day_key now) in
    let r =
      count_traffic-IsBalanced w rx tx (ap is_blank key ∙ day_key-shown now)
        (roll_month-IsBalanced v (month_key now) (roll_day-IsBalanced u (day_key now) h b)) in
    record { rx = r.rx; tx = r.tx; blank = r.blank }

fold_samples-IsBalanced :
    (u : DevUsage) (ss : List Sample)
    → length u.history ≤ usage_history_days
    → length (fold_samples u ss).history < usage_history_days
    → IsBalanced u
    → IsBalanced (fold_samples u ss)
unfolding fold_samples
fold_samples-IsBalanced u [] c h b = b
fold_samples-IsBalanced u (s ∷ ss) c h b =
    let v = apply_sample u s.rx s.tx s.now in
    let (g, d) = apply_sample-Grows u s.rx s.tx s.now c in
    let (g', d') = history_bounded v ss d in
    fold_samples-IsBalanced v ss d h (apply_sample-IsBalanced u s.rx s.tx s.now (omega arith) b)

-- As long as the ring of days is not full, whatever samples a new device was given, resets of its
-- counters and changes of day and month included, its all-time totals are, modulo 2 ^ 64, the sums
-- over the archived days with the running day: nothing is lost or counted twice at midnight.
pub totals-IsBalanced :
    (ss : List Sample)
    → length (fold_samples new_usage ss).history < usage_history_days
    → IsBalanced (fold_samples new_usage ss)
totals-IsBalanced ss h =
    fold_samples-IsBalanced new_usage ss (omega arith) h
      (record { rx = refl; tx = refl; blank = λ e. (refl, refl) })
