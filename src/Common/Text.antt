-- ===== src/Common/Text.antt =====
-- Go strings as lists of bytes, and their equality.
use Prim.Native.Nat.{ℕ, ◌+◌, ◌*◌, ◌-◌}
use Prim.Native.Char.{code}
use Prim.Native.String.{String}
use mathlib.Core.Path.{◌≡◌, refl, ap, ◌∙◌}
use mathlib.Core.Logic.{◌↔◌}
use mathlib.Core.Bool.{Bool, true, false, ◌&&◌, ◌||◌}
use mathlib.Core.List.{
  List, [], ◌∷◌, ◌++◌, map, reverse, reverse_aux, reverse-append, reverse-reverse,
}
use luci_app_gowan.Common.Lists.{All}
use mathlib.Core.Option.{Option, none, some}
use native.Mathlib.Omega.{arith}
use luci_app_gowan.Common.Tests.{◌==◌, leb, if◌then◌else◌}

abbrev pub Bytes : Type 0
Bytes = List ℕ

-- The bytes of an ASCII literal.
abbrev pub codes : String → Bytes
codes String.[] = []
codes (String.◌∷◌ c s) = code c ∷ codes s

-- `s == ""`
abbrev pub is_blank : Bytes → Bool
is_blank [] = true
is_blank (c ∷ s) = false

unfoldable pub text_eq : Bytes → Bytes → Bool
text_eq [] [] = true
text_eq [] (b ∷ t) = false
text_eq (a ∷ s) [] = false
text_eq (a ∷ s) (b ∷ t) = a == b && text_eq s t

pub text_eq_refl : (s : Bytes) → text_eq s s ≡ true
unfolding text_eq
text_eq_refl [] = refl
text_eq_refl (a ∷ s) = ground (arith, text_eq_refl s)

text_eq_sound : (s t : Bytes) → text_eq s t ≡ true → s ≡ t
unfolding text_eq
text_eq_sound [] [] h = refl
text_eq_sound [] (b ∷ t) h = ground arith
text_eq_sound (a ∷ s) [] h = ground arith
text_eq_sound (a ∷ s) (b ∷ t) h = ground (arith, text_eq_sound s t)

pub text_eq_iff : (s t : Bytes) → (text_eq s t ≡ true) ↔ (s ≡ t)
text_eq_iff s t = (text_eq_sound s t, λ e. ground (arith, text_eq_refl s))

cons_head : ℕ → List Bytes → List Bytes
cons_head c [] = (c ∷ []) ∷ []
cons_head c (t ∷ ts) = (c ∷ t) ∷ ts

-- `strings.Split` at a byte; never empty.
unfoldable pub split : ℕ → Bytes → List Bytes
unfolding cons_head
split sep [] = [] ∷ []
split sep (c ∷ s) = let rest = split sep s in if c == sep then [] ∷ rest else cons_head c rest

-- The text before the first separator, and the text behind it.
unfoldable pub cut : ℕ → Bytes → Option (Bytes × Bytes)
cut sep [] = none
cut sep (c ∷ s) =
    let rest = cut sep s in
    if c == sep
    then some ([], s)
    else elim rest [ none ↦ none | some (before, behind) ↦ some (c ∷ before, behind) ]

unfoldable pub has_prefix : Bytes → Bytes → Bool
has_prefix s [] = true
has_prefix [] (b ∷ p) = false
has_prefix (a ∷ s) (b ∷ p) = a == b && has_prefix s p

unfoldable pub has_suffix : Bytes → Bytes → Bool
has_suffix s p = has_prefix (reverse s) (reverse p)

abbrev drop_prefix : Bytes → Bytes → Bytes
drop_prefix s [] = s
drop_prefix [] (b ∷ p) = []
drop_prefix (a ∷ s) (b ∷ p) = drop_prefix s p

unfoldable pub trim_prefix : Bytes → Bytes → Bytes
unfolding has_prefix
trim_prefix s p = if has_prefix s p then drop_prefix s p else s

unfoldable pub trim_suffix : Bytes → Bytes → Bytes
unfolding has_prefix
trim_suffix s p = if has_suffix s p then reverse (drop_prefix (reverse s) (reverse p)) else s

-- `unicode.IsSpace` on ASCII.
abbrev pub is_space : ℕ → Bool
is_space c = leb 9 c && leb c 13 || c == b' '

trim_left : Bytes → Bytes
trim_left [] = []
trim_left (c ∷ s) = if is_space c then trim_left s else c ∷ s

unfoldable pub trim_space : Bytes → Bytes
unfolding trim_left
trim_space s = reverse (trim_left (reverse (trim_left s)))

abbrev pub IsSolid : ℕ → Type 0
IsSolid c = is_space c ≡ false

trim_left_solid : (s : Bytes) → All IsSolid s → trim_left s ≡ s
unfolding trim_left
trim_left_solid [] h = refl
trim_left_solid (c ∷ s) h = rw (h.0, trim_left) refl

abbrev pub IsSpace : ℕ → Type 0
IsSpace c = is_space c ≡ true

All-reverse_aux {ℓ} : (P : ℕ → Type ℓ) (l r : Bytes) → All P l → All P r → All P (reverse_aux l r)
All-reverse_aux P [] r h k = k
All-reverse_aux P (c ∷ l) r h k = All-reverse_aux P l (c ∷ r) h.1 (h.0, k)

trim_left_spaces : (pad s : Bytes) → All IsSpace pad → trim_left (pad ++ s) ≡ trim_left s
unfolding trim_left
trim_left_spaces [] s h = refl
trim_left_spaces (c ∷ pad) s h = rw h.0 (trim_left_spaces pad s h.1)

trim_left_stops : (s r : Bytes) → All IsSolid s → is_blank s ≡ false → trim_left (s ++ r) ≡ s ++ r
unfolding trim_left
trim_left_stops [] r h n = cc n
trim_left_stops (c ∷ s) r h n = rw h.0 refl

-- White space around a text without space is trimmed, and nothing else.
pub trim_space_solid :
    (lead s trail : Bytes)
    → All IsSpace lead
    → All IsSolid s
    → is_blank s ≡ false
    → All IsSpace trail
    → trim_space (lead ++ (s ++ trail)) ≡ s
unfolding trim_space
trim_space_solid lead s trail spaces h n spaces' =
    ap (λ x. reverse (trim_left (reverse x)))
      (trim_left_spaces lead (s ++ trail) spaces ∙ trim_left_stops s trail h n)
    ∙ ap (λ x. reverse (trim_left x)) (reverse-append s trail)
    ∙ ap reverse (
        trim_left_spaces (reverse trail) (reverse s) (All-reverse_aux IsSpace trail [] spaces' tt)
        ∙ trim_left_solid (reverse s) (All-reverse_aux IsSolid s [] h tt))
    ∙ reverse-reverse s

-- `strings.ToLower` on ASCII; other bytes stay.
abbrev pub lower : ℕ → ℕ
lower c = if leb b'A' c && leb c b'Z' then c + 32 else c

abbrev pub to_lower : Bytes → Bytes
to_lower = map lower

abbrev pub is_digit : ℕ → Bool
is_digit c = leb b'0' c && leb c b'9'

-- The value of a run of decimal digits, from `acc` on; none if another byte stands in it.
unfoldable pub decimal : ℕ → Bytes → Option ℕ
decimal acc [] = some acc
decimal acc (c ∷ s) =
    let rest = decimal (acc * 10 + (c - 48)) s in if is_digit c then rest else none
