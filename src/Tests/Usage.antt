-- ===== src/Tests/Usage.antt =====
-- Usage accounting on a few samples.
use luci_app_gowan.Common.{
  ℕ, ◌-◌, ◌≡◌, refl, ◌≢◌, ◌<◌, sym, subst, true, false, none, some, List, [], ◌∷◌, arith, Bytes,
  codes, text_eq, add64, length, Dict, lookup, get_elem?, is_blank, cut, trim_space, insert,
  decimal,
}
use luci_app_gowan.Usage.{
  Date, DevUsage, new_usage, usage_history_days, apply_sample, usage_get, sample_usage, day_key,
  month_key, push_history, delta, roll_day, roll_month, count_traffic,
}
use luci_app_gowan.Usage.Counters.{read_proc_net_dev, fields, parse_uint}
use luci_app_gowan.Usage.History.{Sample, fold_samples, Grows, history_bounded}
use luci_app_gowan.Usage.Totals.{IsBalanced, totals-IsBalanced}
use luci_app_gowan.Usage.Monotone.{last_of, totals-telescope}
use luci_app_gowan.Usage.Sampling.{sample_usage-lookup}
use luci_app_gowan.Tests.Sample.{two_wans}

abbrev eve : Date
eve = record { year = 2024; month = 12; day = 31 }

abbrev new_year : Date
new_year = record { year = 2025; month = 1; day = 1 }

abbrev sample : ℕ → ℕ → Date → Sample
sample rx tx now = record { rx = rx; tx = tx; now = now }

-- A counter that rises, that is reset, and that rises over midnight.
abbrev readings : List Sample
readings = sample 100 10 eve ∷ sample 150 20 eve ∷ sample 30 5 eve ∷ sample 80 6 new_year ∷ []

readings_total :
    ((fold_samples new_usage readings).total_rx ≡ 130)
    × ((fold_samples new_usage readings).day_rx ≡ 50)
    × (length (fold_samples new_usage readings).history ≡ 1)
unfolding fold_samples apply_sample count_traffic roll_month roll_day push_history delta day_key
    month_key text_eq
readings_total = (refl, refl, refl)

history_bounded_example : Grows new_usage (fold_samples new_usage readings)
history_bounded_example = history_bounded new_usage readings (omega arith)

readings_days : length (fold_samples new_usage readings).history ≡ 1
readings_days = readings_total.2

totals-IsBalanced_example : IsBalanced (fold_samples new_usage readings)
totals-IsBalanced_example =
    totals-IsBalanced readings
      (subst (λ n. n < usage_history_days) (sym readings_days) (omega arith))

-- A device whose baseline is 100 and 10.
abbrev seen_once : DevUsage
seen_once = record new_usage { last_rx = 100; last_tx = 10; seen = true }

abbrev rising : List Sample
rising = sample 150 20 eve ∷ sample 180 25 new_year ∷ []

totals-telescope_example :
    ((fold_samples seen_once rising).total_rx ≡ add64 0 ((last_of 100 10 rising).0 - 100))
    × ((fold_samples seen_once rising).total_tx ≡ add64 0 ((last_of 100 10 rising).1 - 10))
totals-telescope_example =
    totals-telescope seen_once rising refl (omega arith) (omega arith)
      (omega arith, omega arith, (omega arith, omega arith, tt))

abbrev counters : Dict (ℕ × ℕ)
counters = (codes "eth1", (100, 10)) ∷ []

sample_usage-lookup_example :
    ((i a rx tx : ℕ)
      → get_elem? two_wans.lb_list i ≡ some a
      → is_blank (two_wans.cells a).iface ≡ false
      → lookup (two_wans.cells a).iface counters ≡ some (rx, tx)
      → lookup (two_wans.cells a).iface (sample_usage two_wans counters eve [])
        ≡ some (apply_sample (usage_get (two_wans.cells a).iface []) rx tx eve))
    × ((d : Bytes)
        → ((i a : ℕ) → get_elem? two_wans.lb_list i ≡ some a → (two_wans.cells a).iface ≢ d)
        → lookup d (sample_usage two_wans counters eve []) ≡ lookup d [])
    × ((d : Bytes)
        → lookup d counters ≡ none
        → lookup d (sample_usage two_wans counters eve []) ≡ lookup d [])
sample_usage-lookup_example = sample_usage-lookup two_wans counters eve []

-- A line of /proc/net/dev behind a header.
proc_net_dev_read :
    read_proc_net_dev (
      some (
        codes "face |bytes packets" ∷ codes "  eth1: 1500  10 0 0 0 0 0 0  900 8 0 0 0 0 0 0" ∷ []))
    ≡ (codes "eth1", (1500, 900)) ∷ []
unfolding read_proc_net_dev cut trim_space insert fields parse_uint decimal
proc_net_dev_read = refl
