-- ===== src/Server.antt =====
-- A connection of the SOCKS listener of gowan/src/main.go, `handle_connection`, with
-- `server_response` of gowan/src/dispatch.go.
pub mod Served
use luci_app_gowan.Common.{Bool, true, false, Option, [], Bytes}
use luci_app_gowan.Balancer.{Run}
use luci_app_gowan.Selection.{World}
use luci_app_gowan.Dispatch.{Env, Dispatched, dispatch, handle_tunnel_connection}
use luci_app_gowan.Socks.{Credentials, handle_socks_connection}
use luci_app_gowan.Socks.Conn.{SocksError, Result, ok, err, Connection}

-- How a connection is handled: it ends with an error of the handshake, or it is dispatched.
pub data Handled : Type 0 where
  failed : SocksError → Connection → Handled
  tunnelled : Option (Run Dispatched) → Handled
  responded : Connection → Option (Run Dispatched) → Handled

unfoldable pub server_response : Env → World → Bytes → Bytes → Option (Run Dispatched)
server_response env w peer remote_address = dispatch env w peer remote_address [] true []

abbrev pub after_handshake : Env → World → Bytes → Result Bytes × Connection → Handled
after_handshake env w peer (err e, c) = failed e c
after_handshake env w peer (ok address, c) = responded c (server_response env w peer address)

-- An error of the handshake is dropped.
unfoldable pub handle_connection : Env → World → Credentials → Bytes → Connection → Bool → Handled
unfolding server_response handle_socks_connection handle_tunnel_connection
handle_connection env w auth peer conn true = tunnelled (handle_tunnel_connection env w)
handle_connection env w auth peer conn false =
    after_handshake env w peer (handle_socks_connection auth conn)
