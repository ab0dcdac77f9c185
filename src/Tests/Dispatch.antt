-- ===== src/Tests/Dispatch.antt =====
-- Dispatching where the first backend does not answer.
use luci_app_gowan.Common.{
  ℕ, ◌≡◌, refl, inr, true, false, Option, none, some, List, [], ◌∷◌, arith, codes, ◌==◌, not,
}
use luci_app_gowan.Balancer.{
  Run, panics, returns, get_load_balancer, pick_loop, active_tier, scan_tier, eligible, hand_out,
  pass_over,
}
use luci_app_gowan.Selection.{round_robin_pick}
use luci_app_gowan.Dispatch.{Env, Dispatched, dial_loop, dispatch, handle_tunnel_connection}
use luci_app_gowan.Dispatch.Attempts.{IsSteady, Ends}
use luci_app_gowan.Dispatch.Replies.{IsAnswered, dispatch-Ends, handle_tunnel_connection-Ends}
use luci_app_gowan.Tests.Sample.{world, at_time}

-- Only "wan2" answers, and nothing else goes on meanwhile.
abbrev pub env : Env
env = record { readings = at_time; dials = λ k a. not (a == 0); between = λ k w. w }

pub env-IsSteady : IsSteady env 2
env-IsSteady k w ready len = (ready, len)

dispatch-Ends_example :
    (x : Dispatched) × (dispatch env
        (world [])
        (codes "10.0.1.100:40000")
        (codes "203.0.113.9:443")
        []
        true
        []
      ≡ some (returns x))
    × Ends env 2 x.dialled
    × IsAnswered true [] x
dispatch-Ends_example =
    dispatch-Ends env (world []) (codes "10.0.1.100:40000") (codes "203.0.113.9:443") [] true []
      (inr (omega arith)) env-IsSteady

handle_tunnel_connection-Ends_example :
    (x : Dispatched) × (handle_tunnel_connection env (world []) ≡ some (returns x))
    × Ends env 2 x.dialled
    × IsAnswered false [] x
handle_tunnel_connection-Ends_example =
    handle_tunnel_connection-Ends env (world []) (inr (omega arith)) env-IsSteady

-- The indices that failed, and the backend that answered.
abbrev outcome : Option (Run Dispatched) → Option (List ℕ × Option (ℕ × ℕ))
outcome (some (returns x)) = some (x.dialled.tried, x.dialled.backend)
outcome (some panics) = none
outcome none = none

outcome_of_two : outcome (handle_tunnel_connection env (world [])) ≡ some (0 ∷ [], some (1, 1))
unfolding handle_tunnel_connection dial_loop round_robin_pick get_load_balancer pick_loop
    active_tier scan_tier eligible hand_out pass_over
outcome_of_two = refl
