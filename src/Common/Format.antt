-- ===== src/Common/Format.antt =====
-- `fmt.Sprintf("%d", n)` for a number of at most twenty digits, and how it reads back.
use Prim.Native.Nat.{ℕ, zero, suc, ◌+◌, ◌*◌, ◌/◌, ◌%◌, ◌<◌, ◌≤◌}
use mathlib.Core.Path.{◌≡◌, refl, ◌∙◌}
use mathlib.Core.Logic.{inl, inr}
use mathlib.Core.Bool.{false}
use mathlib.Core.List.{[], ◌∷◌}
use native.Mathlib.Omega.{arith}
use luci_app_gowan.Common.Tests.{ltb, if◌then◌else◌, Bool-cases}
use luci_app_gowan.Common.Text.{Bytes, is_blank, decimal}
use luci_app_gowan.Common.Lists.{All}

-- The digits of `n` in front of `out`, for a number of at most as many digits as there is fuel.
unfoldable pub emit : ℕ → ℕ → Bytes → Bytes
emit zero n out = out
emit (suc k) n out =
    let rest = emit k (n / 10) ((48 + n % 10) ∷ out) in if ltb n 10 then (48 + n) ∷ out else rest

unfoldable pub itoa : ℕ → Bytes
unfolding emit
itoa n = emit 20 n []

-- 10 ^ k
abbrev pub pow10 : ℕ → ℕ
pow10 zero = 1
pow10 (suc k) = 10 * pow10 k

pub decimal-emit : (k n : ℕ) (out : Bytes) → n < pow10 k → decimal 0 (emit k n out) ≡ decimal n out
unfolding emit decimal
decimal-emit zero n out h = ground arith
decimal-emit (suc k) n out h = elim (Bool-cases (ltb n 10)) [
  | inl small ↦ rw small (ground (arith, small))
  | inr big ↦
      rw big (decimal-emit k (n / 10) ((48 + n % 10) ∷ out) (omega arith) ∙ ground (arith, big))
]

abbrev pub IsDigit : ℕ → Type 0
IsDigit c = (48 ≤ c) × (c ≤ 57)

pub emit-IsDigit : (k n : ℕ) (out : Bytes) → All IsDigit out → All IsDigit (emit k n out)
unfolding emit
emit-IsDigit zero n out h = h
emit-IsDigit (suc k) n out h = elim (Bool-cases (ltb n 10)) [
  | inl small ↦ rw small (ground (arith, small, h))
  | inr big ↦ rw big (emit-IsDigit k (n / 10) ((48 + n % 10) ∷ out) ((omega arith, omega arith), h))
]

-- A number of at least two digits has no leading zero, and stands in front of what follows.
abbrev pub HasHead : Bytes → Type 0
HasHead [] = ⊥
HasHead (c ∷ s) = 48 < c

pub emit-HasHead : (k n : ℕ) (out : Bytes) → n < pow10 k → 0 < n → HasHead (emit k n out)
unfolding emit
emit-HasHead zero n out h p = absurd (omega arith)
emit-HasHead (suc k) n out h p = elim (Bool-cases (ltb n 10)) [
  | inl small ↦ rw small (omega arith)
  | inr big ↦
      let above : 0 < n / 10 = ground (arith, big) in
      rw big (emit-HasHead k (n / 10) ((48 + n % 10) ∷ out) (omega arith) above)
]

emit_behind_shown : (k n : ℕ) (out : Bytes) → is_blank out ≡ false → is_blank (emit k n out) ≡ false
unfolding emit
emit_behind_shown zero n out h = h
emit_behind_shown (suc k) n out h = elim (Bool-cases (ltb n 10)) [
  | inl small ↦ rw small refl
  | inr big ↦ rw big (emit_behind_shown k (n / 10) ((48 + n % 10) ∷ out) refl)
]

pub itoa_shown : (n : ℕ) → is_blank (itoa n) ≡ false
unfolding itoa emit
itoa_shown n = elim (Bool-cases (ltb n 10)) [
  | inl small ↦ rw small refl
  | inr big ↦ rw big (emit_behind_shown 19 (n / 10) ((48 + n % 10) ∷ []) refl)
]
