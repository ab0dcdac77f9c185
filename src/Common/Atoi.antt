-- ===== src/Common/Atoi.antt =====
-- `strconv.Atoi`: an optional sign and decimal digits, within an int64.
use Prim.Native.Nat.{ℕ, suc, ◌+◌, ◌-◌, ◌*◌}
use mathlib.Core.Bool.{Bool, false, ◌||◌}
use mathlib.Core.List.{[], ◌∷◌}
use mathlib.Core.Option.{Option, none, some}
use luci_app_gowan.Common.Tests.{◌==◌, leb, if◌then◌else◌}
use luci_app_gowan.Common.Text.{Bytes, decimal, is_digit}
use luci_app_gowan.Common.Int.{ℤ, pos, negate, int_max, u64}

-- A run of at least one digit.
abbrev pub digits : Bytes → Option ℕ
digits [] = none
digits (c ∷ s) = decimal 0 (c ∷ s)

up_to : ℕ → Option ℕ → Option ℕ
up_to bound none = none
up_to bound (some n) = if leb n bound then some n else none

as_int : (ℕ → ℤ) → Option ℕ → Option ℤ
as_int sign none = none
as_int sign (some n) = some (sign n)

unfoldable pub atoi : Bytes → Option ℤ
unfolding up_to as_int decimal
atoi [] = none
atoi (c ∷ s) =
    if c == b'-'
    then as_int negate (up_to (suc int_max) (digits s))
    else if c == b'+'
    then as_int pos (up_to int_max (digits s))
    else as_int pos (up_to int_max (digits (c ∷ s)))

-- The digits in front, behind the number read so far, go past a uint64.
overflows : ℕ → Bytes → Bool
overflows n [] = false
overflows n (c ∷ s) =
    let m = n * 10 + (c - b'0') in
    let rest = overflows m s in if is_digit c then leb u64 m || rest else false

-- The number that `strconv.ParseUint` returns beside its error, up to a bound: 0 for a text that is no
-- number, unless its digits go past a uint64 before a byte that is none.
unfoldable pub saturate : ℕ → Bytes → ℕ
unfolding overflows decimal
saturate bound s = elim (digits s) [
  | none ↦ if overflows 0 s then bound else 0
  | some n ↦ if leb n bound then n else bound
]

-- The number that `strconv.Atoi` returns beside its error.
unfoldable pub atoi_value : Bytes → ℤ
unfolding saturate decimal
atoi_value [] = pos 0
atoi_value (c ∷ s) =
    if c == b'-'
    then negate (saturate (suc int_max) s)
    else if c == b'+'
    then pos (saturate int_max s)
    else pos (saturate int_max (c ∷ s))
