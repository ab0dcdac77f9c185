-- ===== src/Dispatch/Replies.antt =====
-- What a dispatched connection comes to, for the client and for the backends.
use luci_app_gowan.Common.{
  ℕ, ◌≡◌, ap, ◌∙◌, Bool, true, false, none, some, [], arith, Bytes, length, if◌then◌else◌,
}
use luci_app_gowan.Balancer.{returns}
use luci_app_gowan.Balancer.Choice.{IsReady}
use luci_app_gowan.Selection.{World, Request}
use luci_app_gowan.Dispatch.{
  Env, Dialled, Dispatched, answer, map_run, socks_reply, success, network_unreachable, request_of,
  dispatch, handle_tunnel_connection, dial_loop, rounds, backend_pick,
}
use luci_app_gowan.Dispatch.Attempts.{IsSteady, Ends, dispatch-Finishes, tunnel-Finishes}

-- With no backend the client is told so, if it speaks SOCKS, and its connection is closed; with one
-- it is told of success, if it speaks SOCKS, and the backend is sent what was read ahead.
pub record IsAnswered (socks : Bool) (prebuf : Bytes) (x : Dispatched) : Type 0 where
  pub refused :
      x.dialled.backend ≡ none
      → (x.to_client ≡ (if socks then socks_reply network_unreachable else []))
        × (x.to_backend ≡ [])
        × (x.closed ≡ true)
  pub served :
      (c : ℕ × ℕ)
      → x.dialled.backend ≡ some c
      → (x.to_client ≡ (if socks then socks_reply success else []))
        × (x.to_backend ≡ prebuf)
        × (x.closed ≡ false)

answer-IsAnswered :
    (socks : Bool) (prebuf : Bytes) (d : Dialled)
    → ((answer socks prebuf d).dialled ≡ d) × IsAnswered socks prebuf (answer socks prebuf d)
unfolding answer
answer-IsAnswered socks prebuf d =
    (ground arith, record { refused = λ e. ground (arith, e); served = λ c e. ground (arith, e) })

-- The dialling was for the given request, ended, and was answered.
pub record IsDialledFor (env : Env) (w : World) (r : Request) (socks : Bool) (prebuf : Bytes)
    (x : Dispatched) : Type 0 where
  pub looped : dial_loop (rounds w) (backend_pick env r) env 0 w [] ≡ some (returns x.dialled)
  pub ends : Ends env (length w.fleet.lb_list) x.dialled
  pub answered : IsAnswered socks prebuf x

pub dispatch_for :
    (env : Env) (w : World) (peer dial_addr policy_host : Bytes) (socks : Bool) (prebuf : Bytes)
    {r : Request}
    → request_of peer dial_addr policy_host ≡ r
    → IsReady w.fleet
    → IsSteady env (length w.fleet.lb_list)
    → (x : Dispatched) × (dispatch env w peer dial_addr policy_host socks prebuf ≡ some (returns x))
      × IsDialledFor env w r socks prebuf x
unfolding dispatch
dispatch_for env w peer dial_addr policy_host socks prebuf {r} same ready steady =
    let (d, e, ends) = dispatch-Finishes env w r ready steady in
    let (kept, answered) = answer-IsAnswered socks prebuf d in
    (
      answer socks prebuf d,
      ap (λ q. map_run (answer socks prebuf) (dial_loop (rounds w) (backend_pick env q) env 0 w []))
            same
          ∙ ap (map_run (answer socks prebuf)) e,
      record { looped = rw kept e; ends = rw kept ends; answered = answered },
    )

-- Dispatching a connection ends: if `lb_index` is in range and the others keep it there and the
-- number of backends as it is, `dispatch` returns after at most one failed dial for each backend. No
-- index fails twice; if none answers, every backend that is active at the end was tried; else the
-- backend that answered is the entry at its index, had not failed before, and the dial behind the
-- failed ones was its and succeeded. The client is answered accordingly.
pub dispatch-Ends :
    (env : Env) (w : World) (peer dial_addr policy_host : Bytes) (socks : Bool) (prebuf : Bytes)
    → IsReady w.fleet
    → IsSteady env (length w.fleet.lb_list)
    → (x : Dispatched) × (dispatch env w peer dial_addr policy_host socks prebuf ≡ some (returns x))
      × Ends env (length w.fleet.lb_list) x.dialled
      × IsAnswered socks prebuf x
unfolding dispatch
dispatch-Ends env w peer dial_addr policy_host socks prebuf ready steady =
    let (d, e, ends) =
      dispatch-Finishes env w (request_of peer dial_addr policy_host) ready steady in
    let (same, answered) = answer-IsAnswered socks prebuf d in
    (answer socks prebuf d, ap (map_run (answer socks prebuf)) e, rw same ends, answered)

-- A connection in tunnel mode ends in the same way; no byte of the program's goes to the client.
pub handle_tunnel_connection-Ends :
    (env : Env) (w : World)
    → IsReady w.fleet
    → IsSteady env (length w.fleet.lb_list)
    → (x : Dispatched) × (handle_tunnel_connection env w ≡ some (returns x))
      × Ends env (length w.fleet.lb_list) x.dialled
      × IsAnswered false [] x
unfolding handle_tunnel_connection
handle_tunnel_connection-Ends env w ready steady =
    let (d, e, ends) = tunnel-Finishes env w ready steady in
    let (same, answered) = answer-IsAnswered false [] d in
    (answer false [] d, ap (map_run (answer false [])) e, rw same ends, answered)
