-- ===== src/Startup/Ready.antt =====
-- The program that a start with backends on the command line sets up.
use luci_app_gowan.Common.{
  ℕ, ◌≡◌, refl, ◌∙◌, inr, true, false, some, List, ◌∷◌, map, arith, is_blank, length, All,
  All-get_elem?,
}
use luci_app_gowan.Balancer.{Fleet}
use luci_app_gowan.Balancer.Fairness.{IsRoundStart}
use luci_app_gowan.Selection.{World, configure_sticky}
use luci_app_gowan.Checkers.{Watch, start_health_checks}
use luci_app_gowan.Reload.Outcome.{start_health_checks-fleet}
use luci_app_gowan.Startup.{
  Flags, Given, Program, flags_ok, start_backends, set_up, start_up, global_check_cfg,
}
use luci_app_gowan.Startup.Args.{parse_load_balancers}
use luci_app_gowan.Startup.Backends.{
  Spec, spelled, IsSpec, IsRested, Rests, parse_load_balancers-Rests,
}

Rests-IsRoundStart : {n i : ℕ} (g : Fleet) → Rests n i g → IsRoundStart g
Rests-IsRoundStart g h = record {
  active = λ i a e.
      let p = All-get_elem? (λ b. IsRested (g.cells b)) g.lb_list i h.rested e in
      inr (
        p.is_up,
        λ j b f u.
            let q = All-get_elem? (λ c. IsRested (g.cells c)) g.lb_list j h.rested f in
            rw (p.tier, q.tier) (omega arith),
      );
  positive = λ i a e. (All-get_elem? (λ b. IsRested (g.cells b)) g.lb_list i h.rested e).ratio;
  idle = λ i a e. (All-get_elem? (λ b. IsRested (g.cells b)) g.lb_list i h.rested e).unused;
}

-- A start in which no check of the flags fails, without a backends file and not in tunnel mode, with
-- `lb_index` at 0 and at least one argument, each an IPv4 address that `get_iface_from_ip` finds on an
-- interface and a weight from 1 to 2 ^ 63 - 1, succeeds: there is a backend for each argument, `lb_index` is 0, and the fleet is at the start of
-- a round, with every backend active, its weight above 0 and its turn not begun; the health checks
-- and the selection see the same fleet.
pub start_up-IsRoundStart :
    (f : Flags) (x : Given) (watch : Watch) (w : World) (s : Spec) (specs : List Spec)
    → flags_ok f ≡ true
    → is_blank f.backends_path ≡ true
    → f.tunnel ≡ false
    → x.args ≡ map spelled (s ∷ specs)
    → All (IsSpec x.ifaces) (s ∷ specs)
    → watch.fleet.lb_index ≡ 0
    → (p : Program) × (start_up f x watch w ≡ some p)
      × (length p.world.fleet.lb_list ≡ length (s ∷ specs))
      × (p.world.fleet.lb_index ≡ 0)
      × IsRoundStart p.world.fleet
      × (p.watch.fleet ≡ p.world.fleet)
unfolding start_up start_backends set_up configure_sticky
start_up-IsRoundStart f x watch w s specs good no_file local spelt ok zero_index =
    let (g, e, rests) = parse_load_balancers-Rests x.ifaces x.clock watch.fleet s specs ok in
    let parsed : parse_load_balancers x.args f.tunnel x.ifaces x.clock watch.fleet ≡ some g =
      rw (spelt, local) e in
    let v : Watch =
      start_health_checks (record watch { fleet = g }) (map (λ _. global_check_cfg f) g.lb_list) in
    let same : v.fleet ≡ g =
      start_health_checks-fleet (record watch { fleet = g })
        (map (λ _. global_check_cfg f) g.lb_list) in
    (
      set_up f x w v,
      rw (good, no_file, parsed) refl,
      rw same rests.count,
      rw same (rests.at_index ∙ zero_index),
      rw same (Rests-IsRoundStart g rests),
      refl,
    )
