-- ===== src/Policy/Tokens.antt =====
-- Which tokens of a rule's match are valid, for `set_policies` of gowan/src/selection.go.
use luci_app_gowan.Common.{
  ℕ, ◌≡◌, refl, ◌≢◌, ◌↔◌, ◌⊎◌, inl, inr, Bool, true, false, Option, none, some, List, [], ◌∷◌,
  arith, Bytes, trim_space, Bool-cases, is_blank,
}
use luci_app_gowan.Net.{IpNet, parse_ip, parse_cidr}
use luci_app_gowan.Policy.{
  PortRange, PolicyRule, RuleType, client_ip, dest_ip, port, domain, unknown, parse_port_range,
  add_token, read_token, add_tokens, add_address, add_ports,
}

-- A token that a rule of the type can use.
abbrev pub IsValidToken : RuleType → Bytes → Type 0
IsValidToken client_ip tok = (parse_cidr tok ≢ none) ⊎ (parse_ip tok ≢ none)
IsValidToken dest_ip tok = (parse_cidr tok ≢ none) ⊎ (parse_ip tok ≢ none)
IsValidToken port tok = parse_port_range tok ≢ none
IsValidToken domain tok = Unit
IsValidToken unknown tok = ⊥

-- One of the texts, white space around it aside, is such a token, and not empty.
abbrev pub SomeValid : RuleType → List Bytes → Type 0
SomeValid t [] = ⊥
SomeValid t (raw ∷ raws) =
    ((is_blank (trim_space raw) ≡ false) × IsValidToken t (trim_space raw)) ⊎ SomeValid t raws

add_address-valid :
    (r : PolicyRule) (tok : Bytes) (net : Option IpNet) (ip : Option ℕ)
    → ((add_address r tok net ip).1 ≡ true) ↔ ((net ≢ none) ⊎ (ip ≢ none))
unfolding add_address
add_address-valid r tok (some net) ip = (λ e. inl (λ q. cc q), λ h. refl)
add_address-valid r tok none (some ip) = (λ e. inr (λ q. cc q), λ h. refl)
add_address-valid r tok none none =
    (λ e. cc e, λ h. elim h [ inl f ↦ absurd (f refl) | inr f ↦ absurd (f refl) ])

add_ports-valid : (r : PolicyRule) (o : Option PortRange) → ((add_ports r o).1 ≡ true) ↔ (o ≢ none)
unfolding add_ports
add_ports-valid r (some pr) = (λ e q. cc q, λ h. refl)
add_ports-valid r none = (λ e. cc e, λ h. absurd (h refl))

add_token-valid :
    (t : RuleType) (r : PolicyRule) (tok : Bytes)
    → ((add_token t r tok).1 ≡ true) ↔ IsValidToken t tok
unfolding add_token
add_token-valid client_ip r tok = add_address-valid r tok (parse_cidr tok) (parse_ip tok)
add_token-valid dest_ip r tok = add_address-valid r tok (parse_cidr tok) (parse_ip tok)
add_token-valid port r tok = add_ports-valid r (parse_port_range tok)
add_token-valid domain r tok = (λ e. tt, λ h. refl)
add_token-valid unknown r tok = (λ e. cc e, λ h. absurd h)

-- The flag after one text.
read_token-valid :
    (t : RuleType) (r : PolicyRule) (ok : Bool) (raw : Bytes)
    → ((read_token t (r, ok) raw).1 ≡ true)
      ↔ ((ok ≡ true) ⊎ ((is_blank (trim_space raw) ≡ false) × IsValidToken t (trim_space raw)))
unfolding read_token
read_token-valid t r ok raw = elim (Bool-cases (is_blank (trim_space raw))) [
  | inl blank ↦
      (λ e. inl (rw blank at e), λ h. elim h [ inl e ↦ rw blank e | inr k ↦ cc (blank, k.0) ])
  | inr shown ↦
      let valid = add_token-valid t r (trim_space raw) in
      (
        λ e. elim (Bool-cases ok) [
          | inl on ↦ inl on
          | inr off ↦ inr (shown, valid.0 (rw (shown, off) at e))
        ],
        λ h. elim h [
          | inl on ↦ rw (shown, on) refl
          | inr k ↦ rw shown (ground (arith, valid.1 k.1))
        ],
      )
]

pub add_tokens-valid :
    (t : RuleType) (toks : List Bytes) (acc : PolicyRule × Bool)
    → ((add_tokens t toks acc).1 ≡ true) ↔ ((acc.1 ≡ true) ⊎ SomeValid t toks)
unfolding add_tokens
add_tokens-valid t [] acc = (λ e. inl e, λ h. elim h [ inl e ↦ e | inr k ↦ absurd k ])
add_tokens-valid t (raw ∷ toks) acc =
    let here = read_token-valid t acc.0 acc.1 raw in
    let later = add_tokens-valid t toks (read_token t acc raw) in
    (
      λ e. elim (later.0 e) [
        | inl f ↦ elim (here.0 f) [ inl on ↦ inl on | inr k ↦ inr (inl k) ]
        | inr k ↦ inr (inr k)
      ],
      λ h. elim h [
        | inl on ↦ later.1 (inl (here.1 (inl on)))
        | inr k ↦ elim k [ inl v ↦ later.1 (inl (here.1 (inr v))) | inr v ↦ later.1 (inr v) ]
      ],
    )
