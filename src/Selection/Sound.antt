-- ===== src/Selection/Sound.antt =====
-- What `pick_backend` may hand out.
use luci_app_gowan.Common.{
  ℕ, ◌≡◌, refl, ap, ◌∙◌, ◌⊎◌, inl, inr, true, false, Option, none, some, List, [], arith, get_elem?,
  contains, Bool-cases, ◌<◌, length, is_blank,
}
use luci_app_gowan.Balancer.{Fleet, Run, returns, is_excluded}
use luci_app_gowan.Balancer.Choice.{
  IsReady, AllDown, IsActive, get_load_balancer_sound, get_load_balancer_exhausted,
  get_load_balancer-Picks,
}
use luci_app_gowan.Balancer.Pick.{DifferInTurns}
use luci_app_gowan.Policy.{policy_wan}
use luci_app_gowan.Selection.{World, Request, request_flow, policy_backend, round_robin_pick}
use luci_app_gowan.Selection.Found.{healthy_named-some}

-- An acceptable choice: an entry, not tried before, that is up unless every backend is down.
pub record IsChoice (g : Fleet) (tried : List ℕ) (c : ℕ × ℕ) : Type 0 where
  pub entry : get_elem? g.lb_list c.1 ≡ some c.0
  pub untried : contains tried c.1 ≡ false
  pub healthy : ((g.cells c.0).up ≡ true) ⊎ AllDown g

pub policy_backend-IsChoice :
    (w : World) (r : Request) {c : ℕ × ℕ}
    → policy_backend w (request_flow r) ≡ some c
    → IsChoice w.fleet [] c
unfolding policy_backend
policy_backend-IsChoice w r {c} e =
    elim (Bool-cases (is_blank (policy_wan w.policy_rules (request_flow r)))) [
      | inl blank ↦ ground (arith, blank, e)
      | inr named ↦
          let (entry, n, u) =
            healthy_named-some w.fleet (policy_wan w.policy_rules (request_flow r)) {a = c.0}
              {i = c.1} (ground (arith, named, e)) in
          record { entry = entry; untried = refl; healthy = inl u }
    ]

IsChoice-of_sound :
    (g : Fleet) (tried : List ℕ) (c : ℕ × ℕ)
    → (get_elem? g.lb_list c.1 ≡ some c.0)
    → (is_excluded (some tried) c.1 ≡ false)
    → IsActive g c.0
    → IsChoice g tried c
IsChoice-of_sound g tried c entry free (inl down) = record {
  entry = entry;
  untried = free;
  healthy = inr down;
}
IsChoice-of_sound g tried c entry free (inr (u, least)) = record {
  entry = entry;
  untried = free;
  healthy = inl u;
}

-- A call that ends with an acceptable choice, or with nothing when all that is active was tried;
-- of the fleet it changes turns alone, and the rules and settings stay.
pub record Picked (w : World) (tried : List ℕ) (r : Run (World × Option (ℕ × ℕ))) : Type 0 where
  pub after : World
  pub chosen : Option (ℕ × ℕ)
  pub result : r ≡ returns (after, chosen)
  pub choice : (c : ℕ × ℕ) → chosen ≡ some c → IsChoice w.fleet tried c
  pub exhausted :
      chosen ≡ none
      → (i a : ℕ) → get_elem? w.fleet.lb_list i ≡ some a
      → IsActive w.fleet a
      → contains tried i ≡ true
  pub turns : DifferInTurns w.fleet after.fleet
  pub ready : IsReady after.fleet
  pub same_rules : after.policy_rules ≡ w.policy_rules
  pub same_enabled : after.sticky_enabled ≡ w.sticky_enabled
  pub same_ttl : after.sticky_ttl ≡ w.sticky_ttl

IsReady-turns :
    {g h : Fleet}
    → DifferInTurns g h
    → (g.lb_list ≡ []) ⊎ (h.lb_index < length g.lb_list)
    → IsReady h
IsReady-turns d (inl e) = inl (d.same_list ∙ e)
IsReady-turns d (inr lt) = inr (rw d.same_list lt)

pub round_robin_pick-Picked :
    (w : World) (tried : List ℕ) → IsReady w.fleet → Picked w tried (round_robin_pick w tried)
unfolding round_robin_pick
round_robin_pick-Picked w tried ready =
    let g = w.fleet in
    let p = get_load_balancer-Picks g (some tried) ready in
    record {
      after = record w { fleet = p.after };
      chosen = p.chosen;
      result = rw (p.result, round_robin_pick) refl;
      choice = λ c e.
          let (entry, free, active) =
            get_load_balancer_sound g (some tried) {a = c.0} {i = c.1} ready
              (p.result ∙ ap (λ (x : Option (ℕ × ℕ)). returns (p.after, x)) e) in
          IsChoice-of_sound g tried c entry free active;
      exhausted = λ e i a entry active.
          get_load_balancer_exhausted g (some tried) i a ready
            (p.result ∙ ap (λ (x : Option (ℕ × ℕ)). returns (p.after, x)) e) entry active;
      turns = p.turns;
      ready = IsReady-turns p.turns p.ready;
      same_rules = refl;
      same_enabled = refl;
      same_ttl = refl;
    }
