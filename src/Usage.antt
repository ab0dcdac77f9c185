-- ===== src/Usage.antt =====
-- The data-usage accounting of gowan/src/usage.go: `dev_usage` with `push_history`, `apply_sample`
-- and `delta`, the keys of days and months, `usage_get`, `backend_devices` and `sample_usage`.
pub mod History
pub mod Totals
pub mod Monotone
pub mod Devices
pub mod Sampling
pub mod Counters
use luci_app_gowan.Common.{
  ℕ, zero, suc, ◌+◌, ◌-◌, ◌/◌, ◌%◌, Bool, true, false, not, ◌&&◌, ◌||◌, Option, none, some, List,
  [], ◌∷◌, ◌++◌, Bytes, text_eq, Dict, lookup, insert, add64, leb, ltb, if◌then◌else◌, length, drop,
  is_blank,
}
use luci_app_gowan.Balancer.{Backend, Fleet}

-- A moment, as far as the formats "2006-01-02" and "2006-01" show it.
pub record Date : Type 0 where
  pub year : ℕ
  pub month : ℕ
  pub day : ℕ

abbrev digit : ℕ → ℕ
digit n = 48 + n % 10

abbrev two_digits : ℕ → Bytes
two_digits n = digit (n / 10) ∷ digit n ∷ []

-- For years of at most four digits.
unfoldable pub month_key : Date → Bytes
month_key t =
    digit (t.year / 1000) ∷ digit (t.year / 100) ∷ two_digits t.year ++ (b'-' ∷ two_digits t.month)

unfoldable pub day_key : Date → Bytes
unfolding month_key
day_key t = month_key t ++ (b'-' ∷ two_digits t.day)

pub record DayTotal : Type 0 where
  pub day : Bytes
  pub rx : ℕ
  pub tx : ℕ

pub record DevUsage : Type 0 where
  pub total_rx : ℕ
  pub total_tx : ℕ
  pub month_key : Bytes
  pub month_rx : ℕ
  pub month_tx : ℕ
  pub day_key : Bytes
  pub day_rx : ℕ
  pub day_tx : ℕ
  pub history : List DayTotal
  pub last_rx : ℕ
  pub last_tx : ℕ
  pub seen : Bool

-- `&dev_usage{}`
abbrev pub new_usage : DevUsage
new_usage = record {
  total_rx = 0;
  total_tx = 0;
  month_key = [];
  month_rx = 0;
  month_tx = 0;
  day_key = [];
  day_rx = 0;
  day_tx = 0;
  history = [];
  last_rx = 0;
  last_tx = 0;
  seen = false;
}

abbrev pub usage_history_days : ℕ
usage_history_days = 90

unfoldable pub push_history : DevUsage → Bytes → ℕ → ℕ → DevUsage
push_history u day rx tx =
    let h = u.history ++ record { day = day; rx = rx; tx = tx } ∷ [] in
    record u {
      history =
          if ltb usage_history_days (length h) then drop (length h - usage_history_days) h else h;
    }

unfoldable pub delta : ℕ → ℕ → ℕ
delta cur last = if leb last cur then cur - last else cur

unfoldable pub roll_day : DevUsage → Bytes → DevUsage
roll_day u dk =
    if text_eq u.day_key dk
    then u
    else let v = if is_blank u.day_key then u else push_history u u.day_key u.day_rx u.day_tx in
      record v { day_key = dk; day_rx = 0; day_tx = 0 }

unfoldable pub roll_month : DevUsage → Bytes → DevUsage
roll_month u mk =
    if text_eq u.month_key mk then u else record u { month_key = mk; month_rx = 0; month_tx = 0 }

unfoldable pub count_traffic : DevUsage → ℕ → ℕ → DevUsage
count_traffic u raw_rx raw_tx =
    let drx = delta raw_rx u.last_rx in
    let dtx = delta raw_tx u.last_tx in
    if u.seen
    then record u {
      total_rx = add64 u.total_rx drx;
      total_tx = add64 u.total_tx dtx;
      month_rx = add64 u.month_rx drx;
      month_tx = add64 u.month_tx dtx;
      day_rx = add64 u.day_rx drx;
      day_tx = add64 u.day_tx dtx;
    }
    else u

unfoldable pub apply_sample : DevUsage → ℕ → ℕ → Date → DevUsage
apply_sample u raw_rx raw_tx now =
    let v = count_traffic (roll_month (roll_day u (day_key now)) (month_key now)) raw_rx raw_tx in
    record v { last_rx = raw_rx; last_tx = raw_tx; seen = true }

-- `usage_get`: the entry of a device, which is made if it is missing.
unfoldable pub usage_get : Bytes → Dict DevUsage → DevUsage
usage_get dev m = elim (lookup dev m) [ none ↦ new_usage | some u ↦ u ]

abbrev pub member : Bytes → List Bytes → Bool
member d [] = false
member d (e ∷ es) = text_eq e d || member d es

-- The loop of `backend_devices`: `devs` holds the names seen so far, in order.
unfoldable pub add_devices : (ℕ → Backend) → List ℕ → List Bytes → List Bytes
add_devices cells [] devs = devs
add_devices cells (a ∷ rest) devs =
    let dev = (cells a).iface in
    add_devices cells rest
      (if not (is_blank dev) && not (member dev devs) then devs ++ dev ∷ [] else devs)

unfoldable pub backend_devices : Fleet → List Bytes
backend_devices g = add_devices g.cells g.lb_list []

-- One round of the loop of `sample_usage`.
unfoldable pub sample_device : Dict (ℕ × ℕ) → Date → Bytes → Dict DevUsage → Dict DevUsage
sample_device counters now dev m = elim (lookup dev counters) [
  | none ↦ m
  | some (rx, tx) ↦ insert dev (apply_sample (usage_get dev m) rx tx now) m
]

unfoldable pub sample_devices : Dict (ℕ × ℕ) → Date → List Bytes → Dict DevUsage → Dict DevUsage
sample_devices counters now [] m = m
sample_devices counters now (dev ∷ devs) m =
    sample_devices counters now devs (sample_device counters now dev m)

unfoldable pub sample_usage : Fleet → Dict (ℕ × ℕ) → Date → Dict DevUsage → Dict DevUsage
sample_usage g counters now m = sample_devices counters now (backend_devices g) m
