-- ===== src/Socks/Refused.antt =====
-- What an error leaves behind: the end of the connection, or not.
use luci_app_gowan.Common.{ℕ, refl, not, Bytes, ◌==◌, if◌then◌else◌}
use luci_app_gowan.Net.Print.{quad, host_port}
use luci_app_gowan.Socks.Conn.{
  unsupported_version, unsupported_command, unsupported_address, Connection, ◌>>=◌, pure,
}
use luci_app_gowan.Socks.{
  Credentials, at, client_greeting, servers_choice, authenticate, refuse, read_request,
  ipv4_address, domain_address, request_address, request_of_header, client_connection_request,
  handle_socks_connection, big_endian, ipv4, domain_name, connect, server_failure,
  command_not_supported, address_not_supported,
}
use luci_app_gowan.Socks.Settled.{
  Closed, Settled, bind-Settled, refuse-Settled, read_request-Settled, if-Settled,
  client_greeting-Settled, servers_choice-Settled, authenticate-Settled,
}

ipv4_address-Settled : Settled ipv4_address
unfolding ipv4_address
ipv4_address-Settled =
    bind-Settled (read_request 4)
      (λ a. read_request 2 >>= λ port.
        pure (host_port (quad (at a 0) (at a 1) (at a 2) (at a 3)) (big_endian port)))
      (read_request-Settled 4)
      (λ a.
        bind-Settled (read_request 2)
          (λ port. pure (host_port (quad (at a 0) (at a 1) (at a 2) (at a 3)) (big_endian port)))
          (read_request-Settled 2) (λ _ c. refl))

domain_address-Settled : Settled domain_address
unfolding domain_address
domain_address-Settled =
    bind-Settled (read_request 1)
      (λ len. read_request (at len 0) >>= λ name.
        read_request 2 >>= λ port. pure (host_port name (big_endian port)))
      (read_request-Settled 1)
      (λ len.
        bind-Settled (read_request (at len 0))
          (λ name. read_request 2 >>= λ port. pure (host_port name (big_endian port)))
          (read_request-Settled (at len 0))
          (λ name.
            bind-Settled (read_request 2) (λ port. pure (host_port name (big_endian port)))
              (read_request-Settled 2) (λ _ c. refl)))

request_address-Settled : (kind : ℕ) → Settled (request_address kind)
unfolding request_address
request_address-Settled kind =
    if-Settled (kind == ipv4) ipv4_address
      (if kind == domain_name
        then domain_address
        else refuse address_not_supported unsupported_address)
      ipv4_address-Settled
      (if-Settled (kind == domain_name) domain_address
        (refuse address_not_supported unsupported_address) domain_address-Settled
        (refuse-Settled Bytes address_not_supported unsupported_address refl))

request_of_header-Settled : (header : Bytes) → Settled (request_of_header header)
unfolding request_of_header
request_of_header-Settled header =
    if-Settled (not (at header 0 == 5)) (refuse server_failure unsupported_version)
      (if not (at header 1 == connect)
        then refuse command_not_supported unsupported_command
        else request_address (at header 3))
      (refuse-Settled Bytes server_failure unsupported_version refl)
      (if-Settled (not (at header 1 == connect)) (refuse command_not_supported unsupported_command)
        (request_address (at header 3))
        (refuse-Settled Bytes command_not_supported unsupported_command refl)
        (request_address-Settled (at header 3)))

client_connection_request-Settled : Settled client_connection_request
unfolding client_connection_request
client_connection_request-Settled =
    bind-Settled (read_request 4) request_of_header (read_request-Settled 4)
      request_of_header-Settled

-- An error of the request closes the connection; one of the greeting, of the choice of a method or of
-- the authentication leaves it as it was, as does a success.
pub handle_socks_connection-Closed :
    (a : Credentials) (c : Connection) → Closed c.closed (handle_socks_connection a c)
unfolding handle_socks_connection
handle_socks_connection-Closed a =
    bind-Settled client_greeting
      (λ ms. servers_choice a ms >>= λ _. authenticate a >>= λ _. client_connection_request)
      client_greeting-Settled
      (λ ms.
        bind-Settled (servers_choice a ms) (λ _. authenticate a >>= λ _. client_connection_request)
          (servers_choice-Settled a ms)
          (λ _.
            bind-Settled (authenticate a) (λ _. client_connection_request) (authenticate-Settled a)
              (λ _. client_connection_request-Settled)))
