-- ===== src/Policy/Rules.antt =====
-- Which rules become active, and which rule decides.
use luci_app_gowan.Common.{
  ℕ, ◌≡◌, refl, ap, ◌≢◌, ◌↔◌, ◌⊎◌, inl, inr, pos, ◌≤ℤ◌, Bool, true, false, ◌||◌, Option, none, some,
  List, [], ◌∷◌, ◌++◌, All, arith, Bytes, trim_space, split, Bool-cases, is_blank,
}
use luci_app_gowan.Net.{IpNet, parse_ip, parse_cidr}
use luci_app_gowan.Policy.Tokens.{SomeValid, add_tokens-valid}
use luci_app_gowan.Policy.{
  PolicyJson, PortRange, PolicyRule, RuleType, client_ip, dest_ip, port, domain, unknown, rule_type,
  Flow, matches, policy_wan, parse_port_range, add_token, read_token, add_tokens, compile_rule,
  set_policies, add_address, add_ports, blank_rule,
}

-- Ports that a TCP header can hold, in order.
abbrev pub IsPortRange : PortRange → Type 0
IsPortRange pr = (pos 1 ≤ℤ pr.lo) × (pr.lo ≤ℤ pr.hi) × (pr.hi ≤ℤ pos 65535)

-- Every range that parses is one of ports.
pub parse_port_range-IsPortRange :
    (tok : Bytes) {pr : PortRange} → parse_port_range tok ≡ some pr → IsPortRange pr
unfolding parse_port_range
parse_port_range-IsPortRange tok e = ground arith

-- A rule has something of its type to match by.
abbrev pub HasMatcher : RuleType → PolicyRule → Type 0
HasMatcher client_ip r = (r.nets ≢ []) ⊎ (r.ips ≢ [])
HasMatcher dest_ip r = (r.nets ≢ []) ⊎ (r.ips ≢ [])
HasMatcher port r = r.ports ≢ []
HasMatcher domain r = r.doms ≢ []
HasMatcher unknown r = ⊥

-- What holds of the rule and the flag while the tokens are read.
record Compiles (t : RuleType) (p : PolicyJson) (r : PolicyRule) (ok : Bool) : Type 0 where
  same_type : r.ptype ≡ p.ptype
  same_wan : r.wan ≡ p.wan
  ports_valid : All IsPortRange r.ports
  usable : ok ≡ true → HasMatcher t r

snoc-ne-nil {ℓ} : {A : Type ℓ} (xs : List A) (x : A) → xs ++ x ∷ [] ≢ []
snoc-ne-nil [] x e = cc
snoc-ne-nil (y ∷ xs) x e = cc

All-snoc {ℓ κ} :
    {A : Type ℓ} (P : A → Type κ) (xs : List A) (x : A) → All P xs → P x → All P (xs ++ x ∷ [])
All-snoc P [] x h p = (p, tt)
All-snoc P (y ∷ xs) x h p = (h.0, All-snoc P xs x h.1 p)

module _ (t : RuleType) (p : PolicyJson) (r : PolicyRule) (ok : Bool) (c : Compiles t p r ok) where
  add_address-Compiles :
      (by_address : (q : PolicyRule) → (q.nets ≢ []) ⊎ (q.ips ≢ []) → HasMatcher t q) (tok : Bytes)
      (net : Option IpNet) (ip : Option ℕ)
      → Compiles t p (add_address r tok net ip).0 (ok || (add_address r tok net ip).1)
  unfolding add_address
  add_address-Compiles by_address tok (some net) ip = record {
    same_type = c.same_type;
    same_wan = c.same_wan;
    ports_valid = c.ports_valid;
    usable = λ e. by_address _ (inl (snoc-ne-nil r.nets net));
  }
  add_address-Compiles by_address tok none (some ip) = record {
    same_type = c.same_type;
    same_wan = c.same_wan;
    ports_valid = c.ports_valid;
    usable = λ e. by_address _ (inr (snoc-ne-nil r.ips ip));
  }
  add_address-Compiles by_address tok none none = record {
    same_type = c.same_type;
    same_wan = c.same_wan;
    ports_valid = c.ports_valid;
    usable = λ e. c.usable (ground (arith, e));
  }

  add_ports-Compiles :
      (by_port : (q : PolicyRule) → q.ports ≢ [] → HasMatcher t q) (o : Option PortRange)
      → ((pr : PortRange) → o ≡ some pr → IsPortRange pr)
      → Compiles t p (add_ports r o).0 (ok || (add_ports r o).1)
  unfolding add_ports
  add_ports-Compiles by_port (some pr) valid = record {
    same_type = c.same_type;
    same_wan = c.same_wan;
    ports_valid = All-snoc IsPortRange r.ports pr c.ports_valid (valid pr refl);
    usable = λ e. by_port _ (snoc-ne-nil r.ports pr);
  }
  add_ports-Compiles by_port none valid = record {
    same_type = c.same_type;
    same_wan = c.same_wan;
    ports_valid = c.ports_valid;
    usable = λ e. c.usable (ground (arith, e));
  }

add_token-Compiles :
    (t : RuleType) (p : PolicyJson) (r : PolicyRule) (ok : Bool) (tok : Bytes)
    → Compiles t p r ok
    → Compiles t p (add_token t r tok).0 (ok || (add_token t r tok).1)
unfolding add_token
add_token-Compiles client_ip p r ok tok c =
    add_address-Compiles client_ip p r ok c (λ q h. h) tok (parse_cidr tok) (parse_ip tok)
add_token-Compiles dest_ip p r ok tok c =
    add_address-Compiles dest_ip p r ok c (λ q h. h) tok (parse_cidr tok) (parse_ip tok)
add_token-Compiles port p r ok tok c =
    add_ports-Compiles port p r ok c (λ q h. h) (parse_port_range tok)
      (λ pr e. parse_port_range-IsPortRange tok e)
add_token-Compiles domain p r ok tok c = record {
  same_type = c.same_type;
  same_wan = c.same_wan;
  ports_valid = c.ports_valid;
  usable = λ e. snoc-ne-nil r.doms _;
}
add_token-Compiles unknown p r ok tok c = ground arith

read_token-Compiles :
    (t : RuleType) (p : PolicyJson) (r : PolicyRule) (ok : Bool) (raw : Bytes)
    → Compiles t p r ok
    → Compiles t p (read_token t (r, ok) raw).0 (read_token t (r, ok) raw).1
unfolding read_token
read_token-Compiles t p r ok raw c = elim (Bool-cases (is_blank (trim_space raw))) [
  | inl e ↦ rw e c
  | inr n ↦ rw n (add_token-Compiles t p r ok (trim_space raw) c)
]

add_tokens-Compiles :
    (t : RuleType) (p : PolicyJson) (toks : List Bytes) (acc : PolicyRule × Bool)
    → Compiles t p acc.0 acc.1
    → Compiles t p (add_tokens t toks acc).0 (add_tokens t toks acc).1
unfolding add_tokens
add_tokens-Compiles t p [] acc c = c
add_tokens-Compiles t p (raw ∷ toks) acc c =
    add_tokens-Compiles t p toks (read_token t acc raw) (read_token-Compiles t p acc.0 acc.1 raw c)

-- An active rule and what was configured: it has its type, its target, something of its type to match
-- by, and valid ports alone.
pub record IsUsable (p : PolicyJson) (r : PolicyRule) : Type 0 where
  pub same_type : r.ptype ≡ p.ptype
  pub same_wan : r.wan ≡ p.wan
  pub matcher : HasMatcher (rule_type p.ptype) r
  pub valid : All IsPortRange r.ports

compile_rule-IsUsable : (p : PolicyJson) → (compile_rule p).1 ≡ true → IsUsable p (compile_rule p).0
unfolding compile_rule
compile_rule-IsUsable p e =
    let c =
      add_tokens-Compiles (rule_type p.ptype) p (split b',' p.match) (blank_rule p, false)
        (record { same_type = refl; same_wan = refl; ports_valid = tt; usable = λ q. cc }) in
    record {
      same_type = c.same_type;
      same_wan = c.same_wan;
      matcher = c.usable e;
      valid = c.ports_valid;
    }

-- A rule becomes active exactly if one of the texts between the commas of its match is valid.
abbrev pub IsActive : PolicyJson → Type 0
IsActive p = SomeValid (rule_type p.ptype) (split b',' p.match)

compile_rule-IsActive : (p : PolicyJson) → ((compile_rule p).1 ≡ true) ↔ IsActive p
unfolding compile_rule
compile_rule-IsActive p =
    let all = add_tokens-valid (rule_type p.ptype) (split b',' p.match) (blank_rule p, false) in
    (λ e. elim (all.0 e) [ inl f ↦ cc f | inr k ↦ k ], λ k. all.1 (inr k))

-- The active rules are those of the configured ones that have a valid text, in order.
pub data AreActive : List PolicyJson → List PolicyRule → Type 0 where
  none_left : AreActive [] []
  taken :
      {p : PolicyJson} {r : PolicyRule} {ps : List PolicyJson} {rs : List PolicyRule}
      → IsActive p
      → IsUsable p r
      → AreActive ps rs
      → AreActive (p ∷ ps) (r ∷ rs)
  skipped :
      {p : PolicyJson} {ps : List PolicyJson} {rs : List PolicyRule}
      → ¬ (IsActive p)
      → AreActive ps rs
      → AreActive (p ∷ ps) rs

-- The active rules are those that were configured with a valid text for their type, in order: one that
-- parses as a network or an address, one that parses as a range of ports, or any that is not empty,
-- for a domain; texts are what stands between the commas, white space around it aside. Rules of a
-- type that no case treats are skipped. An active rule has the type and the backend that were
-- configured and something of its type to match by, and no port range outside 1 to 65535.
pub set_policies-AreActive : (ps : List PolicyJson) → AreActive ps (set_policies ps)
unfolding set_policies
set_policies-AreActive [] = none_left
set_policies-AreActive (p ∷ ps) = elim (Bool-cases (compile_rule p).1) [
  | inl e ↦ rw e (
      taken ((compile_rule-IsActive p).0 e) (compile_rule-IsUsable p e) (set_policies-AreActive ps))
  | inr n ↦ rw n (skipped (λ k. cc (n, (compile_rule-IsActive p).1 k)) (set_policies-AreActive ps))
]

-- The first rule that matches decides: either no rule matches, and the answer is the empty name, or
-- some rule matches with none before it that does, and the answer is that rule's.
pub policy_wan_first :
    (rs : List PolicyRule) (f : Flow)
    → (All (λ r. matches r f ≡ false) rs × (policy_wan rs f ≡ []))
      ⊎ ((before : List PolicyRule) × (r : PolicyRule) × (behind : List PolicyRule) × (rs
            ≡ before ++ (r ∷ behind))
          × All (λ q. matches q f ≡ false) before
          × (matches r f ≡ true)
          × (policy_wan rs f ≡ r.wan))
unfolding policy_wan
policy_wan_first [] f = inl (tt, refl)
policy_wan_first (r ∷ rs) f = elim (Bool-cases (matches r f)) [
  | inl e ↦ inr ([], r, rs, refl, tt, e, rw e refl)
  | inr n ↦ elim (policy_wan_first rs f) [
    | inl (all, e) ↦ inl ((n, all), rw n e)
    | inr (before, q, behind, e, all, m, w) ↦
        inr (r ∷ before, q, behind, ap (◌∷◌ r) e, (n, all), m, rw n w)
  ]
]
