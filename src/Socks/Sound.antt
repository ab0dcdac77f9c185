-- ===== src/Socks/Sound.antt =====
-- What a client must have sent for the server to hand out an address.
use luci_app_gowan.Common.{
  ℕ, ◌≡◌, sym, ap, ◌∙◌, inl, inr, true, [], ◌++◌, Bytes, contains, if◌then◌else◌, Bool-cases,
}
use luci_app_gowan.Socks.Conn.{ok, Connection, Action, ◌>>=◌}
use luci_app_gowan.Socks.{
  Credentials, auth_enabled, client_greeting, servers_choice, authenticate,
  client_connection_request, handle_socks_connection, username_password,
}
use luci_app_gowan.Socks.Reads.{stream, bind_ok, Takes}
use luci_app_gowan.Socks.Login.{
  greeting, auth_message, client_greeting_ok, servers_choice_ok, handle_socks_auth_ok,
}
use luci_app_gowan.Socks.Request.{Target, target_text, request_bytes, client_connection_request_ok}

authenticate_ok :
    (a : Credentials) (c : Connection) {u : Unit} {d : Connection}
    → authenticate a c ≡ (ok u, d)
    → Takes c d (if auth_enabled a then auth_message a else [])
unfolding authenticate
authenticate_ok a c {u} {d} e = elim (Bool-cases (auth_enabled a)) [
  | inl on ↦ rw on (handle_socks_auth_ok a c (rw on at e))
  | inr off ↦
      let same : c ≡ d = cc (rw off at e) in
      rw off (ap (λ (x : Connection). stream x.segments) same)
]

abbrev after_choice : Credentials → Action Bytes
after_choice a = do _ ← authenticate a; client_connection_request

abbrev after_greeting : Credentials → Bytes → Action Bytes
after_greeting a methods = do _ ← servers_choice a methods; after_choice a

-- An address is handed out only to a client that has sent, in any segments, a greeting, then, if
-- authentication is on, the configured user and password, with the method for them among those
-- offered, and then a CONNECT request, whose destination the address spells; nothing behind the
-- request has been read.
pub handle_socks_connection_sound :
    (a : Credentials) (c : Connection) {t : Bytes} {d : Connection}
    → handle_socks_connection a c ≡ (ok t, d)
    → (version : ℕ) × (methods : Bytes) × (reserved : ℕ) × (tg : Target) × (t ≡ target_text tg)
      × (auth_enabled a ≡ true → contains methods username_password ≡ true)
      × (stream c.segments
          ≡ greeting version methods
            ++ ((if auth_enabled a then auth_message a else [])
                ++ (request_bytes reserved tg ++ stream d.segments)))
unfolding handle_socks_connection
handle_socks_connection_sound a c {t} {d} e =
    let (ms, c1, e1, k1) = bind_ok client_greeting (after_greeting a) c e in
    let (v, s1) = client_greeting_ok c e1 in
    let (u2, c2, e2, k2) = bind_ok (servers_choice a ms) (λ _. after_choice a) c1 k1 in
    let (same, offered) = servers_choice_ok a ms c1 e2 in
    let (u3, c3, e3, k3) = bind_ok (authenticate a) (λ _. client_connection_request) c2 k2 in
    let s3 = authenticate_ok a c2 e3 in
    let (r, tg, text, s4) = client_connection_request_ok c3 k3 in
    (
      v,
      ms,
      r,
      tg,
      text,
      offered,
      s1
          ∙ ap (λ l. greeting v ms ++ stream l) (sym same)
          ∙ ap (λ b. greeting v ms ++ b)
              (s3 ∙ ap (◌++◌ (if auth_enabled a then auth_message a else [])) s4),
    )
