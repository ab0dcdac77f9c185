-- ===== src/Selection/Affinity.antt =====
-- Sticky sessions: what a pick remembers of the client's backend.
use luci_app_gowan.Common.{
  ℕ, ℤ, ◌+ℤ◌, ◌≡◌, refl, sym, subst, ap, ◌∙◌, ◌⊎◌, inl, inr, true, false, not, ◌||◌, Option, none,
  some, [], arith, Bytes, Bool-cases, get_elem?, ltb_ℤ, lookup, insert, lookup-insert, text_eq_refl,
  Dict, is_blank,
}
use luci_app_gowan.Balancer.{Backend, Fleet, returns}
use luci_app_gowan.Balancer.Choice.{IsReady}
use luci_app_gowan.Selection.{
  World, Request, Readings, StickyEntry, request_flow, policy_backend, sticky_lookup, healthy_named,
  name_at, check_mapping, use_mapping, remember_name, sticky_remember, round_robin_pick,
  pick_and_remember, after_lookup, after_policy, pick_backend,
}
use luci_app_gowan.Selection.Found.{healthy_named-some}
use luci_app_gowan.Selection.Sound.{Picked, round_robin_pick-Picked}
use luci_app_gowan.Selection.Lookups.{Looked, sticky_lookup-Looked}

lookup-insert_self {ℓ} :
    {V : Type ℓ} (k : Bytes) (v : V) (m : Dict V) → lookup k (insert k v m) ≡ some v
lookup-insert_self k v m = lookup-insert k k v m ∙ rw (text_eq_refl k) refl

-- The mapping of a client is to the backend `a` of the fleet, and lasts from `now`.
abbrev pub MapsTo : Dict StickyEntry → Bytes → Bytes → ℤ → Type 0
MapsTo m client name expires = lookup client m ≡ some (record { name = name; expires = expires })

remember_name-MapsTo :
    (w : World) (client name : Bytes) (now : ℤ)
    → MapsTo (remember_name w client name now).sticky_map client name (now +ℤ w.sticky_ttl)
unfolding remember_name
remember_name-MapsTo w client name now = lookup-insert_self client _ w.sticky_map

use_mapping-MapsTo :
    (w : World) (client name : Bytes) (now : ℤ) (o : Option (ℕ × ℕ)) {v : World} {a i : ℕ}
    → healthy_named w.fleet name ≡ o
    → use_mapping w client name now o ≡ (v, some (a, i))
    → MapsTo v.sticky_map client (w.fleet.cells a).name (now +ℤ w.sticky_ttl)
unfolding use_mapping
use_mapping-MapsTo w client name now none h e = ground (arith, e)
use_mapping-MapsTo w client name now (some (b, j)) {v} {a} {i} h e =
    let (entry, n, u) = healthy_named-some w.fleet name h in
    let same : remember_name w client name now ≡ v = ap (λ (p : World × Option (ℕ × ℕ)). p.0) e in
    let b≡a : b ≡ a = ground (arith, e) in
    subst (λ (x : World). MapsTo x.sticky_map client (w.fleet.cells a).name (now +ℤ w.sticky_ttl))
      same
      (subst
        (λ nm. MapsTo (remember_name w client name now).sticky_map client nm (now +ℤ w.sticky_ttl))
        (sym n ∙ ap (λ x. (w.fleet.cells x).name) b≡a) (remember_name-MapsTo w client name now))

check_mapping-MapsTo :
    (w : World) (client : Bytes) (t : Readings) (o : Option StickyEntry) {v : World} {a i : ℕ}
    → check_mapping w client t o ≡ (v, some (a, i))
    → MapsTo v.sticky_map client (w.fleet.cells a).name (t.at_refresh +ℤ w.sticky_ttl)
unfolding check_mapping
check_mapping-MapsTo w client t none e = ground (arith, e)
check_mapping-MapsTo w client t (some s) {v} {a} {i} e =
    elim (Bool-cases (ltb_ℤ s.expires t.at_check)) [
      | inl late ↦ ground (arith, late, e)
      | inr valid ↦ use_mapping-MapsTo w client s.name t.at_refresh _ refl (rw valid at e)
    ]

sticky_lookup-MapsTo :
    (w : World) (client : Bytes) (t : Readings) {v : World} {a i : ℕ}
    → sticky_lookup w client t ≡ (v, some (a, i))
    → MapsTo v.sticky_map client (w.fleet.cells a).name (t.at_refresh +ℤ w.sticky_ttl)
unfolding sticky_lookup
sticky_lookup-MapsTo w client t {v} {a} {i} e =
    elim (Bool-cases (is_blank client || not w.sticky_enabled)) [
      | inl off ↦ ground (arith, off, e)
      | inr on ↦ check_mapping-MapsTo w client t (lookup client w.sticky_map) (rw on at e)
    ]

name_at-entry :
    (g : Fleet) (i a : ℕ) → get_elem? g.lb_list i ≡ some a → name_at g i ≡ (g.cells a).name
name_at-entry g i a e = ground arith

sticky_remember-MapsTo :
    (w : World) (client : Bytes) (i : ℕ) (now : ℤ)
    → is_blank client ≡ false
    → w.sticky_enabled ≡ true
    → is_blank (name_at w.fleet i) ≡ false
    → MapsTo
        (sticky_remember w client i now).sticky_map
        client
        (name_at w.fleet i)
        (now +ℤ w.sticky_ttl)
unfolding sticky_remember
sticky_remember-MapsTo w client i now c on n =
    rw (c, on, n) (remember_name-MapsTo w client (name_at w.fleet i) now)

pick_and_remember-MapsTo :
    (w : World) (client : Bytes) (now : ℤ) {v : World} {a i : ℕ}
    → IsReady w.fleet
    → is_blank client ≡ false
    → w.sticky_enabled ≡ true
    → is_blank (w.fleet.cells a).name ≡ false
    → pick_and_remember w client now ≡ returns (v, some (a, i))
    → MapsTo v.sticky_map client (w.fleet.cells a).name (now +ℤ w.sticky_ttl)
unfolding pick_and_remember
pick_and_remember-MapsTo w client now {v} {a} {i} ready c on n e = by_choice p.chosen refl
  where
    p : Picked w [] (round_robin_pick w [])
    p = round_robin_pick-Picked w [] ready

    by_choice :
        (o : Option (ℕ × ℕ))
        → p.chosen ≡ o
        → MapsTo v.sticky_map client (w.fleet.cells a).name (now +ℤ w.sticky_ttl)
    by_choice none q = ground (arith, p.result, q, e)
    by_choice (some (b, j)) q =
        let run : pick_and_remember w client now
            ≡ returns (sticky_remember p.after client j now, some (b, j)) =
          rw (p.result, pick_and_remember) (rw (q, pick_and_remember) refl) in
        let same : sticky_remember p.after client j now ≡ v = cc (run, e) in
        let b≡a : b ≡ a = cc (run, e) in
        let entry = (p.choice (b, j) q).entry in
        let name : name_at p.after.fleet j ≡ (w.fleet.cells a).name =
          name_at-entry p.after.fleet j b (rw p.turns.same_list entry)
          ∙ ap (λ (x : Backend). x.name) (p.turns.same_cells b)
          ∙ ap (λ x. (w.fleet.cells x).name) b≡a in
        subst
          (λ (x : World). MapsTo x.sticky_map client (w.fleet.cells a).name (now +ℤ w.sticky_ttl))
          same
          (subst
            (λ nm.
              MapsTo (sticky_remember p.after client j now).sticky_map client nm
                (now +ℤ w.sticky_ttl))
            name
            (subst
              (λ ttl.
                MapsTo (sticky_remember p.after client j now).sticky_map client
                  (name_at p.after.fleet j) (now +ℤ ttl))
              p.same_ttl
              (sticky_remember-MapsTo p.after client j now c (p.same_enabled ∙ on)
                (ap is_blank name ∙ n))))

-- A time until which a mapping made by a pick lasts: the lifetime runs from the moment at which the
-- pick refreshed a mapping in use, or from the one at which it remembered a new choice.
abbrev pub LastsUntil : World → Readings → ℤ → Type 0
LastsUntil w t e = (e ≡ t.at_refresh +ℤ w.sticky_ttl) ⊎ (e ≡ t.at_remember +ℤ w.sticky_ttl)

module _ (w : World) (r : Request) (t : Readings) {v : World} {a i : ℕ} (ready : IsReady w.fleet)
    (no_policy : policy_backend w (request_flow r) ≡ none) (known : is_blank r.client_ip ≡ false)
    (on : w.sticky_enabled ≡ true) (named : is_blank (w.fleet.cells a).name ≡ false) where
  -- After a pick that no policy decided, the client is mapped to the backend that it was given.
  after_lookup-MapsTo :
      (x : World) (o : Option (ℕ × ℕ))
      → sticky_lookup w r.client_ip t ≡ (x, o)
      → after_lookup (x, o) r.client_ip t ≡ returns (v, some (a, i))
      → (e : ℤ) × LastsUntil w t e × MapsTo v.sticky_map r.client_ip (w.fleet.cells a).name e
  unfolding after_lookup
  after_lookup-MapsTo x (some c) look run = (
    t.at_refresh +ℤ w.sticky_ttl,
    inl refl,
    sticky_lookup-MapsTo w r.client_ip t {v = v} {a = a} {i = i} (look ∙ cc run),
  )
  after_lookup-MapsTo x none look run =
      let l : Looked w (x, none) = subst (Looked w) look (sticky_lookup-Looked w r.client_ip t) in
      let f : x.fleet ≡ w.fleet = l.same_fleet in
      (
        t.at_remember +ℤ w.sticky_ttl,
        inr refl,
        subst (λ ttl. MapsTo v.sticky_map r.client_ip (w.fleet.cells a).name (t.at_remember +ℤ ttl))
            l.same_ttl
            (subst
              (λ (g : Fleet).
                MapsTo v.sticky_map r.client_ip (g.cells a).name (t.at_remember +ℤ x.sticky_ttl))
              f
              (pick_and_remember-MapsTo x r.client_ip t.at_remember (subst IsReady (sym f) ready)
                known (l.same_enabled ∙ on)
                (subst (λ (g : Fleet). is_blank (g.cells a).name ≡ false) (sym f) named) run)),
      )

  pub pick_backend-MapsTo :
      pick_backend w r [] t ≡ returns (v, some (a, i))
      → (e : ℤ) × LastsUntil w t e × MapsTo v.sticky_map r.client_ip (w.fleet.cells a).name e
  unfolding pick_backend
  pick_backend-MapsTo run =
      after_lookup-MapsTo (sticky_lookup w r.client_ip t).0 (sticky_lookup w r.client_ip t).1 refl
        (rw (no_policy, after_policy) at run)
