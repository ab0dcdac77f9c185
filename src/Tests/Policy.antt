-- ===== src/Tests/Policy.antt =====
-- Policy rules on concrete patterns and ports.
use luci_app_gowan.Common.{
  ◌≡◌, refl, ◌↔◌, ◌⊎◌, pos, true, false, none, List, [], ◌∷◌, ◌++◌, All, Bytes, codes, to_lower,
  trim_suffix, text_eq, has_suffix, trim_prefix,
}
use luci_app_gowan.Policy.{
  PolicyJson, PolicyRule, Flow, domain_match, domain_matches, set_policies, matches, policy_wan,
}
use luci_app_gowan.Policy.Domain.{AnyUnder, domain_match_iff}
use luci_app_gowan.Policy.Rules.{AreActive, set_policies-AreActive, policy_wan_first}

abbrev json : Bytes → Bytes → Bytes → PolicyJson
json ptype match wan = record { ptype = ptype; match = match; wan = wan }

abbrev config : List PolicyJson
config =
    json (codes "domain") (codes "*.example.com") (codes "wan2")
    ∷ json (codes "port") (codes "443,99999") (codes "wan1")
    ∷ json (codes "planet") (codes "mars") (codes "wan1")
    ∷ []

domain_match_iff_example :
    (domain_match (codes "Www.Example.com.") (codes "*.example.com" ∷ []) ≡ true)
    ↔ AnyUnder
        (to_lower (trim_suffix (codes "Www.Example.com.") (codes ".")))
        (codes "*.example.com" ∷ [])
domain_match_iff_example = domain_match_iff (codes "Www.Example.com.") (codes "*.example.com" ∷ [])

domain_match_www : domain_match (codes "Www.Example.com.") (codes "*.example.com" ∷ []) ≡ true
unfolding domain_match domain_matches text_eq trim_suffix has_suffix trim_prefix
domain_match_www = refl

domain_match_other : domain_match (codes "badexample.com") (codes "*.example.com" ∷ []) ≡ false
unfolding domain_match domain_matches text_eq trim_suffix has_suffix trim_prefix
domain_match_other = refl

set_policies-AreActive_example : AreActive config (set_policies config)
set_policies-AreActive_example = set_policies-AreActive config

abbrev web : PolicyRule
web = record {
  ptype = codes "port";
  wan = codes "wan1";
  nets = [];
  ips = [];
  ports = record { lo = pos 443; hi = pos 443 } ∷ [];
  doms = [];
}

abbrev to_web : Flow
to_web = record { client = none; dest = none; host = []; dest_port = pos 443 }

policy_wan_first_example :
    (All (λ r. matches r to_web ≡ false) (web ∷ []) × (policy_wan (web ∷ []) to_web ≡ []))
    ⊎ ((before : List PolicyRule) × (r : PolicyRule) × (behind : List PolicyRule) × (web ∷ []
          ≡ before ++ (r ∷ behind))
        × All (λ q. matches q to_web ≡ false) before
        × (matches r to_web ≡ true)
        × (policy_wan (web ∷ []) to_web ≡ r.wan))
policy_wan_first_example = policy_wan_first (web ∷ []) to_web
