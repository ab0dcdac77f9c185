-- ===== src/Tests/Socks.antt =====
-- A client that authenticates as "u" with "p" and asks for "a.io" at port 443.
use luci_app_gowan.Common.{
  ℕ, ◌≡◌, refl, true, false, if◌then◌else◌, List, [], ◌∷◌, ◌++◌, Bytes, codes, contains, itoa, emit,
}
use luci_app_gowan.Net.Print.{host_port}
use luci_app_gowan.Socks.Conn.{
  ok, err, greeting_failed, unsupported_version, Connection, read_some, read_full, write, close,
}
use luci_app_gowan.Socks.{
  Credentials, auth_enabled, username_password, client_greeting, read_request, refuse,
  client_connection_request, request_of_header, handle_socks_connection,
}
use luci_app_gowan.Socks.Login.{greeting, auth_message}
use luci_app_gowan.Socks.Request.{Target, host, target_text, request_bytes}
use luci_app_gowan.Socks.Reads.{stream}
use luci_app_gowan.Socks.Sound.{handle_socks_connection_sound}
use luci_app_gowan.Socks.Complete.{opened, handshake, handle_socks_connection_complete}
use luci_app_gowan.Socks.Settled.{Closed}
use luci_app_gowan.Socks.Refused.{handle_socks_connection-Closed}

abbrev pub account : Credentials
account = record { user = codes "u"; pass = codes "p" }

abbrev pub site : Target
site = host (codes "a.io") 1 187

abbrev pub offered : List ℕ
offered = 0 ∷ 2 ∷ []

abbrev pub payload : Bytes
payload = codes "hello"

abbrev pub client : Connection
client = opened (handshake account 5 offered 0 site (payload ∷ [])) []

abbrev after : Connection
after = opened (payload ∷ []) (5 ∷ 2 ∷ 1 ∷ 0 ∷ [])

handle_socks_connection_complete_example :
    handle_socks_connection account client ≡ (ok (target_text site), after)
handle_socks_connection_complete_example =
    handle_socks_connection_complete account 5 offered 0 site (payload ∷ []) [] (λ on. refl)

served : handle_socks_connection account client ≡ (ok (target_text site), after)
served = handle_socks_connection_complete account 5 offered 0 site (payload ∷ []) [] (λ on. refl)

handle_socks_connection_sound_example :
    (version : ℕ) × (methods : Bytes) × (reserved : ℕ) × (tg : Target) × (target_text site
      ≡ target_text tg)
    × (auth_enabled account ≡ true → contains methods username_password ≡ true)
    × (stream client.segments
        ≡ greeting version methods
          ++ ((if auth_enabled account then auth_message account else [])
              ++ (request_bytes reserved tg ++ stream after.segments)))
handle_socks_connection_sound_example =
    handle_socks_connection_sound account client {t = target_text site} {d = after} served

handle_socks_connection-Closed_example : Closed false (handle_socks_connection account client)
handle_socks_connection-Closed_example = handle_socks_connection-Closed account client

-- The text of the address.
site_text : target_text site ≡ codes "a.io:443"
unfolding host_port itoa emit
site_text = refl

-- A greeting that arrives in two segments is refused, and the connection stays open.
split_greeting :
    client_greeting (opened ((5 ∷ []) ∷ (1 ∷ 0 ∷ []) ∷ []) [])
    ≡ (err greeting_failed, opened ((1 ∷ 0 ∷ []) ∷ []) [])
unfolding client_greeting read_full read_some
split_greeting = refl

-- A request of another version is answered, and the connection is closed.
other_version :
    (client_connection_request (opened ((4 ∷ 1 ∷ 0 ∷ 1 ∷ []) ∷ []) [])).0 ≡ err unsupported_version
unfolding client_connection_request request_of_header read_request refuse read_full read_some write
    close
other_version = refl
