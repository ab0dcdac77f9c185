-- ===== src/Tests/Balancer.antt =====
-- The round robin over two backends.
use luci_app_gowan.Common.{
  ℕ, zero, suc, ◌≡◌, refl, inr, pos, ◌≤◌, ◌≤ℤ◌, true, false, none, some, [], List, ◌∷◌, arith,
  get_elem?, int_max,
}
use luci_app_gowan.Balancer.{
  Fleet, returns, get_load_balancer, pick_loop, active_tier, scan_tier, eligible, pass_over,
  hand_out, is_excluded,
}
use luci_app_gowan.Balancer.Rotation.{find_first}
use luci_app_gowan.Balancer.Pick.{Picks, DifferInTurns, eligible_at}
use luci_app_gowan.Balancer.Choice.{
  IsActive, turn_order, get_load_balancer-Picks, get_load_balancer_sound,
  get_load_balancer_exhausted, get_load_balancer_serves,
}
use luci_app_gowan.Balancer.Cycle.{Serves}
use luci_app_gowan.Balancer.Fairness.{IsRoundStart, weight, schedule, round_robin}
use luci_app_gowan.Balancer.Connections.{
  Event, opened, closed, after_events, Counts, connections_counted,
}
use luci_app_gowan.Tests.Sample.{two_wans, two_cells}

get_load_balancer-Picks_example :
    Picks two_wans
      (find_first (eligible_at (active_tier two_wans) none two_wans) (turn_order two_wans))
      (get_load_balancer two_wans none)
get_load_balancer-Picks_example = get_load_balancer-Picks two_wans none (inr (omega arith))

get_load_balancer_sound_example :
    (get_elem? two_wans.lb_list 1 ≡ some 1)
    × (is_excluded (some (0 ∷ [])) 1 ≡ false)
    × IsActive two_wans 1
unfolding get_load_balancer pick_loop active_tier scan_tier eligible pass_over hand_out
get_load_balancer_sound_example =
    get_load_balancer_sound two_wans (some (0 ∷ [])) (inr (omega arith)) refl

wan1-IsActive : IsActive two_wans 0
wan1-IsActive = inr (refl, λ i b e u. both i b e)
  where
    both : (i b : ℕ) → get_elem? (0 ∷ 1 ∷ []) i ≡ some b → pos 0 ≤ℤ (two_cells b).metric
    both i b e = ground arith

get_load_balancer_exhausted_example : is_excluded (some (1 ∷ 0 ∷ [])) 0 ≡ true
unfolding get_load_balancer pick_loop active_tier scan_tier eligible pass_over hand_out
get_load_balancer_exhausted_example =
    get_load_balancer_exhausted two_wans (some (1 ∷ 0 ∷ [])) 0 0 (inr (omega arith)) refl refl
      wan1-IsActive

get_load_balancer_serves_example :
    (h : Fleet) × (a i : ℕ) × (get_load_balancer two_wans (some []) ≡ returns (h, some (a, i)))
get_load_balancer_serves_example =
    get_load_balancer_serves two_wans (some []) (omega arith) (λ i. refl)

two_wans-IsRoundStart : IsRoundStart two_wans
two_wans-IsRoundStart = record {
  active = active;
  positive = positive;
  idle = λ i a e. ground arith;
}
  where
    least :
        (a : ℕ)
        → (i b : ℕ) → get_elem? (0 ∷ 1 ∷ []) i ≡ some b
        → (two_cells b).up ≡ true
        → (two_cells a).metric ≤ℤ (two_cells b).metric
    least a i b e u = ground arith

    active : (i a : ℕ) → get_elem? (0 ∷ 1 ∷ []) i ≡ some a → IsActive two_wans a
    active i a e = inr (ground arith, least a)

    positive :
        (i a : ℕ)
        → get_elem? (0 ∷ 1 ∷ []) i ≡ some a
        → (r : ℕ) × ((two_cells a).contention_ratio ≡ pos (suc r)) × (suc r ≤ int_max)
    positive zero a e = (1, ground arith, omega arith)
    positive (suc zero) a e = (0, ground arith, omega arith)
    positive (suc (suc i)) a e = cc

round_robin_example :
    (f : Fleet) × Serves none two_wans (schedule (weight two_wans) 2 0) f
    × (f.lb_index ≡ 0)
    × IsRoundStart f
    × DifferInTurns two_wans f
round_robin_example = round_robin none two_wans refl (λ j. refl) two_wans-IsRoundStart

-- Weight 2 before weight 1.
two_wans-schedule : schedule (weight two_wans) 2 0 ≡ 0 ∷ 0 ∷ 1 ∷ []
two_wans-schedule = refl

abbrev traffic : List Event
traffic = opened 1 ∷ closed 0 ∷ opened 1 ∷ opened 0 ∷ []

connections_counted_example : Counts (after_events two_wans traffic) 1 2 2
connections_counted_example =
    connections_counted two_wans 1 traffic (refl, refl) (omega arith) (omega arith, tt)
