-- ===== src/Tests/Server.antt =====
-- The client of Tests/Socks before two backends, of which the second answers.
use luci_app_gowan.Common.{◌≡◌, refl, inr, true, false, some, [], ◌∷◌, arith, codes, split}
use luci_app_gowan.Net.{parse_ip}
use luci_app_gowan.Balancer.{returns}
use luci_app_gowan.Dispatch.{Dispatched}
use luci_app_gowan.Dispatch.Replies.{IsDialledFor}
use luci_app_gowan.Server.{responded, handle_connection}
use luci_app_gowan.Server.Served.{IsTarget, wanted, handle_connection-IsDialledFor}
use luci_app_gowan.Socks.Complete.{opened}
use luci_app_gowan.Tests.Sample.{world}
use luci_app_gowan.Tests.Dispatch.{env, env-IsSteady}
use luci_app_gowan.Tests.Socks.{account, site, offered, payload, client}

site-IsTarget : IsTarget site
unfolding parse_ip split
site-IsTarget = (
  (
    (λ e. omega (arith, e), λ e. omega (arith, e), λ e. omega (arith, e)),
    (
      (λ e. omega (arith, e), λ e. omega (arith, e), λ e. omega (arith, e)),
      (
        (λ e. omega (arith, e), λ e. omega (arith, e), λ e. omega (arith, e)),
        ((λ e. omega (arith, e), λ e. omega (arith, e), λ e. omega (arith, e)), tt),
      ),
    ),
  ),
  refl,
  refl,
  omega arith,
  omega arith,
)

handle_connection-IsDialledFor_example :
    (x : Dispatched) × (handle_connection env
        (world [])
        account
        (codes "10.0.1.100:40000")
        client
        false
      ≡ responded (opened (payload ∷ []) (5 ∷ 2 ∷ 1 ∷ 0 ∷ [])) (some (returns x)))
    × IsDialledFor env (world []) (wanted (codes "10.0.1.100:40000") site) true [] x
handle_connection-IsDialledFor_example =
    handle_connection-IsDialledFor env (world []) account (codes "10.0.1.100:40000") 5 offered 0
      site (payload ∷ []) [] (λ on. refl) site-IsTarget (inr (omega arith)) env-IsSteady
