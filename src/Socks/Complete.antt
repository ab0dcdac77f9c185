-- ===== src/Socks/Complete.antt =====
-- The handshake of a client that keeps to RFC 1928 and RFC 1929.
use luci_app_gowan.Common.{
  ℕ, ◌≡◌, refl, sym, ap, ◌∙◌, inl, inr, true, false, some, List, [], ◌∷◌, ◌++◌, Bytes, text_eq_iff,
  contains, length, drop, take-append, drop-append, ◌==◌, ==_iff, if◌then◌else◌, Bool-cases,
}
use mathlib.Core.List.{append_assoc, append-nil}
use luci_app_gowan.Net.Print.{quad, host_port}
use luci_app_gowan.Socks.Conn.{
  SocksError, bad_auth_version, username_failed, password_length_failed, password_failed,
  greeting_failed, request_failed, ok, Connection, Action, ◌>>=◌, pure, raise, push, read_some,
  read_full, write,
}
use luci_app_gowan.Socks.{
  Credentials, at, auth_enabled, credentials_ok, client_greeting, write_choice, servers_choice,
  answer_auth, read_credentials, handle_socks_auth, authenticate, read_request, ipv4_address,
  domain_address, request_address, no_auth, request_of_header, client_connection_request,
  handle_socks_connection, big_endian, username_password,
}
use luci_app_gowan.Socks.Reads.{bind_run}
use luci_app_gowan.Socks.Login.{greeting, auth_message}
use luci_app_gowan.Socks.Request.{Target, ip, host, target_bytes, target_text, request_bytes}

-- An open connection whose writes succeed.
abbrev pub opened : List Bytes → Bytes → Connection
opened l b = record { segments = l; writes = []; sent = b; closed = false }

read_some-push :
    (b s : Bytes) (l : List Bytes) → read_some (length b) (push (b ++ s) l) ≡ some (b, push s l)
unfolding read_some
read_some-push [] s l = refl
read_some-push (x ∷ b) s l = rw (take-append b s, drop-append b s) refl

-- A read is given the bytes that come next in the segment.
read_full-push :
    (b s : Bytes) (x : SocksError) (l : List Bytes) (w : Bytes)
    → read_full (length b) x (opened (push (b ++ s) l) w) ≡ (ok b, opened (push s l) w)
unfolding read_full
read_full-push b s x l w =
    rw (read_full, read_some-push b s l, (==_iff (length b) (length b)).1 refl) refl

client_greeting_run :
    (v : ℕ) (ms s : Bytes) (l : List Bytes) (w : Bytes)
    → client_greeting (opened (push (greeting v ms ++ s) l) w) ≡ (ok ms, opened (push s l) w)
unfolding client_greeting
client_greeting_run v ms s l w =
    bind_run (read_full 2 greeting_failed) (λ buf. read_full (at buf 1) greeting_failed)
      (opened (push (greeting v ms ++ s) l) w)
      (read_full-push (v ∷ length ms ∷ []) (ms ++ s) greeting_failed l w)
    ∙ read_full-push ms s greeting_failed l w

-- The method that is answered to a client whose greeting is in order.
abbrev pub method_for : Credentials → ℕ
method_for a = if auth_enabled a then username_password else no_auth

servers_choice_run :
    (a : Credentials) (ms : Bytes) (l : List Bytes) (w : Bytes)
    → (auth_enabled a ≡ true → contains ms username_password ≡ true)
    → servers_choice a ms (opened l w) ≡ (ok tt, opened l (w ++ (5 ∷ method_for a ∷ [])))
unfolding servers_choice write_choice write
servers_choice_run a ms l w offered = elim (Bool-cases (auth_enabled a)) [
  | inl on ↦ rw (on, offered on) refl
  | inr off ↦ rw off refl
]

abbrev pub answer_for : Credentials → Bytes
answer_for a = if auth_enabled a then 1 ∷ 0 ∷ [] else []

credentials_ok_refl : (a : Credentials) → credentials_ok a a.user a.pass ≡ true
credentials_ok_refl a =
    rw ((text_eq_iff a.user a.user).1 refl, (text_eq_iff a.pass a.pass).1 refl) refl

read_credentials_run :
    (a : Credentials) (s : Bytes) (l : List Bytes) (w : Bytes)
    → read_credentials a
        (length a.user)
        (opened (push (a.user ++ (length a.pass ∷ (a.pass ++ s))) l) w)
      ≡ (ok tt, opened (push s l) (w ++ (1 ∷ 0 ∷ [])))
unfolding read_credentials answer_auth write
read_credentials_run a s l w =
    let after_length : Bytes → Action Unit = λ len.
      read_full (at len 0) password_failed >>= λ pass. answer_auth (credentials_ok a a.user pass) in
    bind_run (read_full (length a.user) username_failed)
      (λ user. read_full 1 password_length_failed >>= λ len.
        read_full (at len 0) password_failed >>= λ pass. answer_auth (credentials_ok a user pass))
      (opened (push (a.user ++ (length a.pass ∷ (a.pass ++ s))) l) w)
      (read_full-push a.user (length a.pass ∷ (a.pass ++ s)) username_failed l w)
    ∙ bind_run (read_full 1 password_length_failed) after_length
        (opened (push (length a.pass ∷ (a.pass ++ s)) l) w)
        (read_full-push (length a.pass ∷ []) (a.pass ++ s) password_length_failed l w)
    ∙ bind_run (read_full (length a.pass) password_failed)
        (λ pass. answer_auth (credentials_ok a a.user pass)) (opened (push (a.pass ++ s) l) w)
        (read_full-push a.pass s password_failed l w)
    ∙ ap (λ good. answer_auth good (opened (push s l) w)) (credentials_ok_refl a)

abbrev pub auth_part : Credentials → Bytes
auth_part a = if auth_enabled a then auth_message a else []

authenticate_run :
    (a : Credentials) (s : Bytes) (l : List Bytes) (w : Bytes)
    → authenticate a (opened (push (auth_part a ++ s) l) w)
      ≡ (ok tt, opened (push s l) (w ++ answer_for a))
unfolding authenticate handle_socks_auth
authenticate_run a s l w = elim (Bool-cases (auth_enabled a)) [
  | inr off ↦ rw (off, append-nil w) refl
  | inl on ↦ rw on (
      bind_run (read_full 2 bad_auth_version)
        (λ header.
          if at header 0 == 1 then read_credentials a (at header 1) else raise bad_auth_version)
        (opened (push (auth_message a ++ s) l) w)
        (read_full-push (1 ∷ length a.user ∷ []) ((a.user ++ (length a.pass ∷ a.pass)) ++ s)
          bad_auth_version l w)
      ∙ ap (λ b. read_credentials a (length a.user) (opened (push b l) w))
          (append_assoc a.user (length a.pass ∷ a.pass) s)
      ∙ read_credentials_run a s l w)
]

read_request-push :
    (b s : Bytes) (l : List Bytes) (w : Bytes)
    → read_request (length b) (opened (push (b ++ s) l) w) ≡ (ok b, opened (push s l) w)
unfolding read_request
read_request-push b s l w = rw (read_full-push b s request_failed l w) refl

request_address_run :
    (t : Target) (s : Bytes) (l : List Bytes) (w : Bytes)
    → request_address (at (target_bytes t) 0) (opened (push (drop 1 (target_bytes t) ++ s) l) w)
      ≡ (ok (target_text t), opened (push s l) w)
unfolding request_address ipv4_address domain_address
request_address_run (ip a b c d hi lo) s l w =
    bind_run (read_request 4)
      (λ x. read_request 2 >>= λ port.
        pure (host_port (quad (at x 0) (at x 1) (at x 2) (at x 3)) (big_endian port)))
      (opened (push (a ∷ b ∷ c ∷ d ∷ hi ∷ lo ∷ s) l) w)
      (read_request-push (a ∷ b ∷ c ∷ d ∷ []) (hi ∷ lo ∷ s) l w)
    ∙ bind_run (read_request 2) (λ port. pure (host_port (quad a b c d) (big_endian port)))
        (opened (push (hi ∷ lo ∷ s) l) w) (read_request-push (hi ∷ lo ∷ []) s l w)
request_address_run (host name hi lo) s l w =
    ap (λ b. request_address 3 (opened (push (length name ∷ b) l) w))
      (append_assoc name (hi ∷ lo ∷ []) s)
    ∙ bind_run (read_request 1)
        (λ len. read_request (at len 0) >>= λ x.
          read_request 2 >>= λ port. pure (host_port x (big_endian port)))
        (opened (push (length name ∷ (name ++ (hi ∷ lo ∷ s))) l) w)
        (read_request-push (length name ∷ []) (name ++ (hi ∷ lo ∷ s)) l w)
    ∙ bind_run (read_request (length name))
        (λ x. read_request 2 >>= λ port. pure (host_port x (big_endian port)))
        (opened (push (name ++ (hi ∷ lo ∷ s)) l) w) (read_request-push name (hi ∷ lo ∷ s) l w)
    ∙ bind_run (read_request 2) (λ port. pure (host_port name (big_endian port)))
        (opened (push (hi ∷ lo ∷ s) l) w) (read_request-push (hi ∷ lo ∷ []) s l w)

client_connection_request_run :
    (reserved : ℕ) (t : Target) (s : Bytes) (l : List Bytes) (w : Bytes)
    → client_connection_request (opened (push (request_bytes reserved t ++ s) l) w)
      ≡ (ok (target_text t), opened (push s l) w)
unfolding client_connection_request request_of_header
client_connection_request_run r (ip a b c d hi lo) s l w =
    bind_run (read_request 4) request_of_header
      (opened (push (request_bytes r (ip a b c d hi lo) ++ s) l) w)
      (read_request-push (5 ∷ 1 ∷ r ∷ 1 ∷ []) (a ∷ b ∷ c ∷ d ∷ hi ∷ lo ∷ s) l w)
    ∙ request_address_run (ip a b c d hi lo) s l w
client_connection_request_run r (host name hi lo) s l w =
    bind_run (read_request 4) request_of_header
      (opened (push (request_bytes r (host name hi lo) ++ s) l) w)
      (read_request-push (5 ∷ 1 ∷ r ∷ 3 ∷ []) ((length name ∷ (name ++ (hi ∷ lo ∷ []))) ++ s) l w)
    ∙ request_address_run (host name hi lo) s l w

-- The segments of a client that sends each of its messages at once.
abbrev pub handshake : Credentials → ℕ → Bytes → ℕ → Target → List Bytes → List Bytes
handshake a version methods reserved t rest =
    greeting version methods ∷ push (auth_part a) (request_bytes reserved t ∷ rest)

-- A client that sends, each in one segment, a greeting, where authentication is on the configured
-- user and password, and a CONNECT request, is handed the address that the request spells, where the
-- method for user and password is offered if authentication is on, and the writes succeed: the
-- method chosen and, with authentication, its acceptance are all that was written, nothing behind
-- the request is read, and the connection stays open.
pub handle_socks_connection_complete :
    (a : Credentials) (version : ℕ) (methods : Bytes) (reserved : ℕ) (t : Target)
    (rest : List Bytes) (w : Bytes)
    → (auth_enabled a ≡ true → contains methods username_password ≡ true)
    → handle_socks_connection a (opened (handshake a version methods reserved t rest) w)
      ≡ (ok (target_text t), opened rest ((w ++ (5 ∷ method_for a ∷ [])) ++ answer_for a))
unfolding handle_socks_connection
handle_socks_connection_complete a v ms r t rest w offered =
    let w1 = w ++ (5 ∷ method_for a ∷ []) in
    let after : List Bytes = push (auth_part a) (request_bytes r t ∷ rest) in
    ap (λ b. handle_socks_connection a (opened (push b after) w)) (sym (append-nil (greeting v ms)))
    ∙ bind_run client_greeting
        (λ x. servers_choice a x >>= λ _. authenticate a >>= λ _. client_connection_request)
        (opened (push (greeting v ms ++ []) after) w) (client_greeting_run v ms [] after w)
    ∙ bind_run (servers_choice a ms) (λ _. authenticate a >>= λ _. client_connection_request)
        (opened after w) (servers_choice_run a ms after w offered)
    ∙ ap
        (λ b.
          (authenticate a >>= λ _. client_connection_request)
            (opened (push b (request_bytes r t ∷ rest)) w1))
        (sym (append-nil (auth_part a)))
    ∙ bind_run (authenticate a) (λ _. client_connection_request)
        (opened (push (auth_part a ++ []) (request_bytes r t ∷ rest)) w1)
        (authenticate_run a [] (request_bytes r t ∷ rest) w1)
    ∙ ap (λ b. client_connection_request (opened (push b rest) (w1 ++ answer_for a)))
        (sym (append-nil (request_bytes r t)))
    ∙ client_connection_request_run r t [] rest (w1 ++ answer_for a)
