-- ===== src/Selection/Lookups.antt =====
-- What a look at the sticky mappings keeps, and what it may find.
use luci_app_gowan.Common.{
  ℕ, ℤ, ◌≡◌, refl, ◌∙◌, inl, inr, Option, none, some, [], Bytes, Bool-cases, not, ◌||◌, ltb_ℤ,
  lookup, is_blank,
}
use luci_app_gowan.Balancer.{Fleet}
use luci_app_gowan.Selection.{
  World, Readings, StickyEntry, sticky_lookup, healthy_named, check_mapping, use_mapping,
}
use luci_app_gowan.Selection.Found.{healthy_named-some}
use luci_app_gowan.Selection.Sound.{IsChoice}

pub record Looked (w : World) (r : World × Option (ℕ × ℕ)) : Type 0 where
  pub same_fleet : r.0.fleet ≡ w.fleet
  pub same_rules : r.0.policy_rules ≡ w.policy_rules
  pub same_enabled : r.0.sticky_enabled ≡ w.sticky_enabled
  pub same_ttl : r.0.sticky_ttl ≡ w.sticky_ttl
  pub found : (c : ℕ × ℕ) → r.1 ≡ some c → IsChoice w.fleet [] c

nothing_found : (w : World) → Looked w (w, none)
nothing_found w = record {
  same_fleet = refl;
  same_rules = refl;
  same_enabled = refl;
  same_ttl = refl;
  found = λ c e. cc;
}

healthy_named-IsChoice :
    (g : Fleet) (name : Bytes) (c : ℕ × ℕ) → healthy_named g name ≡ some c → IsChoice g [] c
healthy_named-IsChoice g name c e =
    let (entry, n, u) = healthy_named-some g name {a = c.0} {i = c.1} e in
    record { entry = entry; untried = refl; healthy = inl u }

use_mapping-Looked :
    (w : World) (client name : Bytes) (now : ℤ) (o : Option (ℕ × ℕ))
    → healthy_named w.fleet name ≡ o
    → Looked w (use_mapping w client name now o)
unfolding use_mapping
use_mapping-Looked w client name now none e = nothing_found w
use_mapping-Looked w client name now (some c) e = record {
  same_fleet = refl;
  same_rules = refl;
  same_enabled = refl;
  same_ttl = refl;
  found = λ d q. healthy_named-IsChoice w.fleet name d (e ∙ q);
}

check_mapping-Looked :
    (w : World) (client : Bytes) (t : Readings) (o : Option StickyEntry)
    → Looked w (check_mapping w client t o)
unfolding check_mapping
check_mapping-Looked w client t none = nothing_found w
check_mapping-Looked w client t (some e) = elim (Bool-cases (ltb_ℤ e.expires t.at_check)) [
  | inl late ↦ rw late (record {
    same_fleet = refl;
    same_rules = refl;
    same_enabled = refl;
    same_ttl = refl;
    found = λ c q. cc;
  })
  | inr valid ↦ rw valid (use_mapping-Looked w client e.name t.at_refresh _ refl)
]

pub sticky_lookup-Looked :
    (w : World) (client : Bytes) (t : Readings) → Looked w (sticky_lookup w client t)
unfolding sticky_lookup
sticky_lookup-Looked w client t = elim (Bool-cases (is_blank client || not w.sticky_enabled)) [
  | inl off ↦ rw off (nothing_found w)
  | inr on ↦ rw on (check_mapping-Looked w client t (lookup client w.sticky_map))
]
