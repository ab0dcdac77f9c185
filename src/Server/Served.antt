-- ===== src/Server/Served.antt =====
-- What a client is given whose messages arrive in one segment each.
use luci_app_gowan.Common.{
  ℕ, ◌+◌, ◌*◌, ◌≤◌, ◌≡◌, refl, ap, ◌∙◌, ℤ, pos, true, false, Option, none, some, List, [], ◌∷◌,
  ◌++◌, arith, Bytes, is_blank, if◌then◌else◌, contains, length, itoa_shown, itoa, All, atoi_value,
}
use luci_app_gowan.Net.{parse_ip}
use luci_app_gowan.Net.Print.{
  quad, host_port, IsPlain, quad-IsPlain, parse_ip-quad, split_host_port-host_port, atoi_value-itoa,
}
use luci_app_gowan.Balancer.{returns}
use luci_app_gowan.Balancer.Choice.{IsReady}
use luci_app_gowan.Selection.{World, Request}
use luci_app_gowan.Dispatch.{Env, Dispatched, client_ip_of, request_of}
use luci_app_gowan.Dispatch.Attempts.{IsSteady}
use luci_app_gowan.Dispatch.Replies.{IsDialledFor, dispatch_for}
use luci_app_gowan.Socks.{Credentials, auth_enabled, username_password}
use luci_app_gowan.Socks.Request.{Target, ip, host, target_text}
use luci_app_gowan.Socks.Complete.{
  opened, handshake, method_for, answer_for, handle_socks_connection_complete,
}
use luci_app_gowan.Server.{responded, server_response, after_handshake, handle_connection}

-- A target whose parts are bytes; a host name is not empty, has no colon and no bracket, and is no
-- address.
abbrev pub IsTarget : Target → Type 0
IsTarget (ip a b c d hi lo) =
    (a ≤ 255) × (b ≤ 255) × (c ≤ 255) × (d ≤ 255) × (hi ≤ 255) × (lo ≤ 255)
IsTarget (host name hi lo) =
    All IsPlain name × (is_blank name ≡ false) × (parse_ip name ≡ none) × (hi ≤ 255) × (lo ≤ 255)

-- What a target asks for.
abbrev pub wanted : Bytes → Target → Request
wanted peer (ip a b c d hi lo) = record {
  client_ip = client_ip_of peer;
  dest_ip = quad a b c d;
  dest_host = [];
  dest_port = pos (hi * 256 + lo);
}
wanted peer (host name hi lo) = record {
  client_ip = client_ip_of peer;
  dest_ip = [];
  dest_host = name;
  dest_port = pos (hi * 256 + lo);
}

append_shown : (x y : Bytes) → is_blank x ≡ false → is_blank (x ++ y) ≡ false
append_shown [] y e = cc e
append_shown (c ∷ x) y e = refl

pub quad_shown : (a b c d : ℕ) → is_blank (quad a b c d) ≡ false
unfolding quad
quad_shown a b c d = append_shown (itoa a) _ (itoa_shown a)

-- The request for a host, which is an address or not.
abbrev pub asked : Bytes → Bytes → Bytes → ℤ → Option ℕ → Request
asked peer h policy_host port (some _) = record {
  client_ip = client_ip_of peer;
  dest_ip = h;
  dest_host = policy_host;
  dest_port = port;
}
asked peer h policy_host port none = record {
  client_ip = client_ip_of peer;
  dest_ip = [];
  dest_host = if is_blank policy_host then h else policy_host;
  dest_port = port;
}

request_of-host_port :
    (peer h policy_host : Bytes) (p : ℕ)
    → All IsPlain h
    → is_blank h ≡ false
    → p ≤ 65535
    → request_of peer (host_port h p) policy_host ≡ asked peer h policy_host (pos p) (parse_ip h)
unfolding request_of
request_of-host_port peer h ph p k n bound =
    ap from_parts (split_host_port-host_port h p k n)
    ∙ ap (λ port. asked peer h ph port (parse_ip h)) (atoi_value-itoa p bound)
  where
    address_parts : Option (Bytes × Bytes) → Bytes × ℤ
    address_parts none = ([], pos 0)
    address_parts (some (h, port)) = (h, atoi_value port)

    from_parts : Option (Bytes × Bytes) → Request
    from_parts parts = let (h, port) = address_parts parts in asked peer h ph port (parse_ip h)

pub request_of-quad :
    (peer policy_host : Bytes) (a b c d p : ℕ)
    → a ≤ 255
    → b ≤ 255
    → c ≤ 255
    → d ≤ 255
    → p ≤ 65535
    → request_of peer (host_port (quad a b c d) p) policy_host
      ≡ asked peer (quad a b c d) policy_host (pos p) (some 0)
request_of-quad peer ph a b c d p ka kb kc kd kp =
    request_of-host_port peer (quad a b c d) ph p (quad-IsPlain a b c d) (quad_shown a b c d) kp
    ∙ ap (asked peer (quad a b c d) ph (pos p)) (parse_ip-quad a b c d ka kb kc kd)

request_of-target_text :
    (peer : Bytes) (t : Target) → IsTarget t → request_of peer (target_text t) [] ≡ wanted peer t
request_of-target_text peer (ip a b c d hi lo) (ka, kb, kc, kd, kh, kl) =
    request_of-quad peer [] a b c d (hi * 256 + lo) ka kb kc kd (omega (arith, kh, kl))
request_of-target_text peer (host name hi lo) (plain, shown, other, kh, kl) =
    request_of-host_port peer name [] (hi * 256 + lo) plain shown (omega (arith, kh, kl))
    ∙ ap (asked peer name [] (pos (hi * 256 + lo))) other

-- A client that sends, each in one segment, a greeting, where authentication is on the configured user
-- and password, and a CONNECT request is served, where the writes succeed, the method for user and
-- password is offered if authentication is on, and the target's parts are bytes, with a host name, if
-- it names one, that is no address and has no colon and no bracket: the handshake consumes these
-- messages and no more; then backends are picked for the destination it named, by address or by
-- name, and dialled until one answers or all that are active have failed, which ends, if `lb_index`
-- is in range and the others keep it there; the client is told of success or, with its connection
-- closed, that the network is unreachable.
pub handle_connection-IsDialledFor :
    (env : Env) (w : World) (a : Credentials) (peer : Bytes) (version : ℕ) (methods : Bytes)
    (reserved : ℕ) (t : Target) (rest : List Bytes) (sent : Bytes)
    → (auth_enabled a ≡ true → contains methods username_password ≡ true)
    → IsTarget t
    → IsReady w.fleet
    → IsSteady env (length w.fleet.lb_list)
    → (x : Dispatched) × (handle_connection env w a peer
          (opened (handshake a version methods reserved t rest) sent)
          false
        ≡ responded
            (opened rest ((sent ++ (5 ∷ method_for a ∷ [])) ++ answer_for a))
            (some (returns x)))
      × IsDialledFor env w (wanted peer t) true [] x
unfolding handle_connection server_response
handle_connection-IsDialledFor env w a peer v ms r t rest sent offered target ready steady =
    let (x, e, dialled) =
      dispatch_for env w peer (target_text t) [] true [] (request_of-target_text peer t target)
        ready steady in
    (
      x,
      ap (after_handshake env w peer)
            (handle_socks_connection_complete a v ms r t rest sent offered)
          ∙ ap (responded (opened rest ((sent ++ (5 ∷ method_for a ∷ [])) ++ answer_for a))) e,
      dialled,
    )
