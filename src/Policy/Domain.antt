-- ===== src/Policy/Domain.antt =====
-- Domain patterns: what `domain_match` accepts.
use mathlib.Core.List.{reverse, reverse-append, reverse-reverse}
use luci_app_gowan.Common.{
  ◌≡◌, refl, sym, ap, ◌∙◌, ◌⊎◌, inl, inr, ◌↔◌, true, List, [], ◌∷◌, ◌++◌, arith, Bytes, codes,
  text_eq, text_eq_iff, to_lower, trim_suffix, trim_prefix, has_prefix, has_suffix, Bool-cases,
}
use luci_app_gowan.Policy.{domain_matches, domain_match}

has_prefix-append : (p s : Bytes) → has_prefix (p ++ s) p ≡ true
unfolding has_prefix
has_prefix-append [] [] = refl
has_prefix-append [] (a ∷ s) = refl
has_prefix-append (b ∷ p) s = ground (arith, has_prefix-append p s)

has_prefix_split : (s p : Bytes) → has_prefix s p ≡ true → (t : Bytes) × (s ≡ p ++ t)
unfolding has_prefix
has_prefix_split s [] h = (s, refl)
has_prefix_split [] (b ∷ p) h = cc
has_prefix_split (a ∷ s) (b ∷ p) h =
    let (t, e) = has_prefix_split s p (ground arith) in (t, ground (arith, e))

-- A text has a suffix exactly if it ends in it.
pub has_suffix_iff : (s p : Bytes) → (has_suffix s p ≡ true) ↔ ((t : Bytes) × (s ≡ t ++ p))
unfolding has_suffix
has_suffix_iff s p = (
  λ h.
      let (t, e) = has_prefix_split (reverse s) (reverse p) h in
      (
        reverse t,
        sym (reverse-reverse s)
            ∙ ap reverse e
            ∙ reverse-append (reverse p) t
            ∙ ap (◌++◌ (reverse t)) (reverse-reverse p),
      ),
  λ (t, e). rw (e, reverse-append t p) (has_prefix-append (reverse p) (reverse t)),
)

-- The domain that a pattern stands for.
abbrev pub base_of : Bytes → Bytes
base_of p = trim_prefix p (codes "*.")

-- A host lies under a domain: it is the domain, or some labels and a dot stand before it.
abbrev pub Under : Bytes → Bytes → Type 0
Under host base = (host ≡ base) ⊎ ((t : Bytes) × (host ≡ t ++ (b'.' ∷ base)))

abbrev pub AnyUnder : Bytes → List Bytes → Type 0
AnyUnder host [] = ⊥
AnyUnder host (p ∷ ps) = Under host (base_of p) ⊎ AnyUnder host ps

any_under : (host : Bytes) (ps : List Bytes) → domain_matches host ps ≡ true → AnyUnder host ps
unfolding domain_matches
any_under host [] h = cc
any_under host (p ∷ ps) h = elim (Bool-cases (text_eq host (base_of p))) [
  | inl e ↦ inl (inl ((text_eq_iff host (base_of p)).0 e))
  | inr n ↦ elim (Bool-cases (has_suffix host (b'.' ∷ base_of p))) [
    | inl e ↦ inl (inr ((has_suffix_iff host (b'.' ∷ base_of p)).0 e))
    | inr m ↦ inr (any_under host ps (ground arith))
  ]
]

under_any : (host : Bytes) (ps : List Bytes) → AnyUnder host ps → domain_matches host ps ≡ true
unfolding domain_matches
under_any host [] h = absurd h
under_any host (p ∷ ps) (inl (inl e)) = rw ((text_eq_iff host (base_of p)).1 e) refl
under_any host (p ∷ ps) (inl (inr u)) = ground (arith, (has_suffix_iff host (b'.' ∷ base_of p)).1 u)
under_any host (p ∷ ps) (inr h) = ground (arith, under_any host ps h)

-- A host name matches a list of patterns exactly if, in lower case and with one trailing dot taken
-- off, it is the domain of some pattern or a subdomain of it; "*." before a pattern's domain makes
-- no difference.
pub domain_match_iff :
    (host : Bytes) (doms : List Bytes)
    → (domain_match host doms ≡ true) ↔ AnyUnder (to_lower (trim_suffix host (codes "."))) doms
unfolding domain_match
domain_match_iff host doms = (any_under _ doms, under_any _ doms)
