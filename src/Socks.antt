-- ===== src/Socks.antt =====
-- The SOCKS5 server of gowan/src/socks.go with gowan/src/constants.go and gowan/src/auth.go: the
-- greeting, the choice of a method, the user and password of RFC 1929, and the request. A method on
-- a connection is an action on what is left to read and what has been written.
pub mod Conn
pub mod Reads
pub mod Login
pub mod Request
pub mod Sound
pub mod Complete
pub mod Settled
pub mod Refused
use Conn.{
  SocksError, greeting_failed, choice_failed, no_acceptable_method, bad_auth_version,
  username_failed, password_length_failed, password_failed, authentication_failed, request_failed,
  unsupported_version, unsupported_command, unsupported_address, Result, ok, err, Connection,
  Action, ◌>>=◌, pure, raise, read_full, write, close,
}
use luci_app_gowan.Common.{
  ℕ, zero, suc, ◌+◌, ◌*◌, Bool, true, false, not, ◌&&◌, ◌||◌, List, [], ◌∷◌, Bytes, is_blank,
  text_eq, contains, ◌==◌, if◌then◌else◌,
}
use luci_app_gowan.Net.Print.{quad, host_port}
use luci_app_gowan.Dispatch.{socks_reply}

abbrev pub no_auth : ℕ
no_auth = 0

abbrev pub username_password : ℕ
username_password = 2

abbrev pub no_method : ℕ
no_method = 0xff

abbrev pub connect : ℕ
connect = 1

abbrev pub ipv4 : ℕ
ipv4 = 1

abbrev pub domain_name : ℕ
domain_name = 3

abbrev pub server_failure : ℕ
server_failure = 1

abbrev pub command_not_supported : ℕ
command_not_supported = 7

abbrev pub address_not_supported : ℕ
address_not_supported = 8

-- The variables `auth_user` and `auth_pass`.
pub record Credentials : Type 0 where
  pub user : Bytes
  pub pass : Bytes

abbrev pub auth_enabled : Credentials → Bool
auth_enabled a = not (is_blank a.user)

abbrev pub credentials_ok : Credentials → Bytes → Bytes → Bool
credentials_ok a user pass = text_eq user a.user && text_eq pass a.pass

-- `b[i]` in a buffer that has an index `i`.
abbrev pub at : Bytes → ℕ → ℕ
at [] i = 0
at (c ∷ b) zero = c
at (c ∷ b) (suc i) = at b i

-- The methods that the client offers; the version is not looked at.
unfoldable pub client_greeting : Action Bytes
client_greeting = do buf ← read_full 2 greeting_failed; read_full (at buf 1) greeting_failed

write_choice : ℕ → Action Unit
write_choice method = do
  written ← write (5 ∷ method ∷ [])
  if written then pure tt else raise choice_failed

unfoldable pub servers_choice : Credentials → Bytes → Action Unit
unfolding write_choice
servers_choice a methods =
    if not (auth_enabled a)
    then write_choice no_auth
    else if contains methods username_password
    then write_choice username_password
    else do _ ← write (5 ∷ no_method ∷ []); raise no_acceptable_method

answer_auth : Bool → Action Unit
answer_auth true = do _ ← write (1 ∷ 0 ∷ []); pure tt
answer_auth false = do _ ← write (1 ∷ 1 ∷ []); raise authentication_failed

read_credentials : Credentials → ℕ → Action Unit
unfolding answer_auth
read_credentials a ulen = do
  uname ← read_full ulen username_failed
  plenbuf ← read_full 1 password_length_failed
  passwd ← read_full (at plenbuf 0) password_failed
  answer_auth (credentials_ok a uname passwd)

-- The user and the password of RFC 1929.
unfoldable pub handle_socks_auth : Credentials → Action Unit
unfolding read_credentials
handle_socks_auth a = do
  header ← read_full 2 bad_auth_version
  if at header 0 == 1 then read_credentials a (at header 1) else raise bad_auth_version

-- An error reply, and the end of the connection.
unfoldable pub refuse : {A : Type 0} → ℕ → SocksError → Action A
refuse status e = do _ ← write (socks_reply status); _ ← close; raise e

abbrev pub or_refuse : {A : Type 0} → Result A → Action A
or_refuse (ok a) = pure a
or_refuse (err e) = refuse server_failure request_failed

-- A read of the request: without it the request is refused.
unfoldable pub read_request : ℕ → Action Bytes
unfolding refuse
read_request n c = let (r, d) = read_full n request_failed c in or_refuse r d

-- `binary.BigEndian.Uint16(port)`
abbrev pub big_endian : Bytes → ℕ
big_endian port = at port 0 * 256 + at port 1

unfoldable pub ipv4_address : Action Bytes
unfolding read_request
ipv4_address = do
  a ← read_request 4
  port ← read_request 2
  pure (host_port (quad (at a 0) (at a 1) (at a 2) (at a 3)) (big_endian port))

unfoldable pub domain_address : Action Bytes
unfolding read_request
domain_address = do
  len ← read_request 1
  name ← read_request (at len 0)
  port ← read_request 2
  pure (host_port name (big_endian port))

unfoldable pub request_address : ℕ → Action Bytes
unfolding ipv4_address domain_address
request_address kind =
    if kind == ipv4
    then ipv4_address
    else if kind == domain_name
    then domain_address
    else refuse address_not_supported unsupported_address

-- What is done with the header of a request.
unfoldable pub request_of_header : Bytes → Action Bytes
unfolding request_address
request_of_header header =
    if not (at header 0 == 5)
    then refuse server_failure unsupported_version
    else if not (at header 1 == connect)
    then refuse command_not_supported unsupported_command
    else request_address (at header 3)

-- The address to dial, as a text.
unfoldable pub client_connection_request : Action Bytes
unfolding request_of_header
client_connection_request = do header ← read_request 4; request_of_header header

unfoldable pub authenticate : Credentials → Action Unit
unfolding handle_socks_auth
authenticate a = if auth_enabled a then handle_socks_auth a else pure tt

unfoldable pub handle_socks_connection : Credentials → Action Bytes
unfolding client_greeting servers_choice authenticate client_connection_request
handle_socks_connection a = do
  methods ← client_greeting
  _ ← servers_choice a methods
  _ ← authenticate a
  client_connection_request
