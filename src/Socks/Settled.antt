-- ===== src/Socks/Settled.antt =====
-- Actions that close the connection behind an error of the request and leave it else.
use luci_app_gowan.Common.{
  ℕ, ◌≡◌, refl, sym, subst, ◌∙◌, inl, inr, Bool, true, false, not, [], ◌∷◌, Bytes, contains, length,
  ◌==◌, if◌then◌else◌, Bool-cases, Option-cases,
}
use luci_app_gowan.Socks.Conn.{
  SocksError, greeting_failed, choice_failed, no_acceptable_method, bad_auth_version,
  username_failed, password_length_failed, password_failed, authentication_failed, request_failed,
  unsupported_version, unsupported_command, unsupported_address, Result, ok, err, Connection,
  Action, ◌>>=◌, pure, raise, read_some, read_full, write,
}
use luci_app_gowan.Socks.{
  no_auth, no_method, Credentials, at, auth_enabled, credentials_ok, client_greeting, write_choice,
  servers_choice, answer_auth, read_credentials, handle_socks_auth, authenticate, refuse,
  read_request, or_refuse, username_password, server_failure,
}
use luci_app_gowan.Socks.Reads.{write-Written, refuse_err}

-- The errors of the request, which the client is answered with a reply.
abbrev pub at_request : SocksError → Bool
at_request greeting_failed = false
at_request choice_failed = false
at_request no_acceptable_method = false
at_request bad_auth_version = false
at_request username_failed = false
at_request password_length_failed = false
at_request password_failed = false
at_request authentication_failed = false
at_request request_failed = true
at_request unsupported_version = true
at_request unsupported_command = true
at_request unsupported_address = true

-- Whether the connection is closed behind a result, if it was so or not before.
abbrev pub Closed : {A : Type 0} → Bool → Result A × Connection → Type 0
Closed before (ok a, d) = d.closed ≡ before
Closed before (err e, d) = d.closed ≡ (if at_request e then true else before)

abbrev pub Settled : {A : Type 0} → Action A → Type 0
Settled m = (c : Connection) → Closed c.closed (m c)

pub bind-Settled :
    {A B : Type 0} (m : Action A) (f : A → Action B)
    → Settled m
    → ((a : A) → Settled (f a))
    → Settled (m >>= f)
bind-Settled {A} {B} m f p q c = by_result (m c) (p c)
  where
    by_result :
        (x : Result A × Connection)
        → Closed c.closed x
        → Closed c.closed (◌>>=◌ {A = A} {B = B} (λ _. x) f c)
    by_result (ok a, d) h = subst (λ k. Closed k (f a d)) h (q a d)
    by_result (err e, d) h = h

read_full-Settled : (n : ℕ) (x : SocksError) → at_request x ≡ false → Settled (read_full n x)
unfolding read_full
read_full-Settled n x early c = elim (Option-cases (read_some n c.segments)) [
  | inl p ↦ rw (read_full, p, early) refl
  | inr ((b, l), p) ↦ elim (Bool-cases (length b == n)) [
    | inl full ↦ rw (read_full, p, full) refl
    | inr short ↦ rw (read_full, p, short, early) refl
  ]
]

write-Settled : (b : Bytes) → Settled (write b)
write-Settled b c = let w = write-Written b c in rw w.result w.same_closed

pub refuse-Settled :
    (A : Type 0) (status : ℕ) (x : SocksError)
    → at_request x ≡ true
    → Settled (refuse {A = A} status x)
refuse-Settled A status x late c =
    let (is_err, is_closed) = refuse_err {A = A} status x c in
    by_result (refuse status x c) is_err is_closed
  where
    by_result : (r : Result A × Connection) → r.0 ≡ err x → r.1.closed ≡ true → Closed c.closed r
    by_result (ok a, d) p q = cc p
    by_result (err e, d) p q = let same : e ≡ x = cc p in q ∙ sym (rw (same, late) refl)

-- A read that fails leaves the connection to the refusal, which closes it.
or_refuse-Settled :
    (before : Bool) (r : Result Bytes) (d : Connection)
    → ((b : Bytes) → r ≡ ok b → d.closed ≡ before)
    → Closed before (or_refuse r d)
or_refuse-Settled before (ok b) d same = same b refl
or_refuse-Settled before (err x) d same =
    by_result (refuse {A = Bytes} server_failure request_failed d)
      (refuse_err {A = Bytes} server_failure request_failed d)
  where
    by_result :
        (r : Result Bytes × Connection)
        → (r.0 ≡ err request_failed) × (r.1.closed ≡ true)
        → Closed before r
    by_result (ok b, c) (p, q) = cc p
    by_result (err e, c) (p, q) =
        let same_error : e ≡ request_failed = cc p in q ∙ sym (rw same_error refl)

read_full_closed : (n : ℕ) (x : SocksError) (c : Connection) → (read_full n x c).1.closed ≡ c.closed
unfolding read_full
read_full_closed n x c = elim (Option-cases (read_some n c.segments)) [
  | inl p ↦ rw (read_full, p) refl
  | inr (b, p) ↦ rw (read_full, p) refl
]

pub read_request-Settled : (n : ℕ) → Settled (read_request n)
unfolding read_request
read_request-Settled n c =
    or_refuse-Settled c.closed (read_full n request_failed c).0 (read_full n request_failed c).1
      (λ _ _. read_full_closed n request_failed c)

pub if-Settled :
    {A : Type 0} (b : Bool) (m n : Action A) → Settled m → Settled n → Settled (if b then m else n)
if-Settled true m n p q = p
if-Settled false m n p q = q

pub client_greeting-Settled : Settled client_greeting
unfolding client_greeting
client_greeting-Settled =
    bind-Settled (read_full 2 greeting_failed) (λ buf. read_full (at buf 1) greeting_failed)
      (read_full-Settled 2 greeting_failed refl)
      (λ buf. read_full-Settled (at buf 1) greeting_failed refl)

write_then-Settled :
    {A : Type 0} (b : Bytes) (f : Bool → Action A)
    → ((good : Bool) → Settled (f good))
    → Settled (write b >>= f)
write_then-Settled b f p = bind-Settled (write b) f (write-Settled b) p

write_choice-Settled : (m : ℕ) → Settled (write_choice m)
unfolding write_choice
write_choice-Settled m =
    write_then-Settled (5 ∷ m ∷ []) (λ good. if good then pure tt else raise choice_failed)
      (λ good. if-Settled good (pure tt) (raise choice_failed) (λ c. refl) (λ c. refl))

pub servers_choice-Settled : (a : Credentials) (ms : Bytes) → Settled (servers_choice a ms)
unfolding servers_choice
servers_choice-Settled a ms =
    if-Settled (not (auth_enabled a)) (write_choice no_auth)
      (if contains ms username_password
        then write_choice username_password
        else write (5 ∷ no_method ∷ []) >>= λ _. raise no_acceptable_method)
      (write_choice-Settled no_auth)
      (if-Settled (contains ms username_password) (write_choice username_password)
        (write (5 ∷ no_method ∷ []) >>= λ _. raise no_acceptable_method)
        (write_choice-Settled username_password)
        (write_then-Settled (5 ∷ no_method ∷ []) (λ _. raise no_acceptable_method) (λ _ c. refl)))

answer_auth-Settled : (good : Bool) → Settled (answer_auth good)
unfolding answer_auth
answer_auth-Settled true = write_then-Settled (1 ∷ 0 ∷ []) (λ _. pure tt) (λ _ c. refl)
answer_auth-Settled false =
    write_then-Settled (1 ∷ 1 ∷ []) (λ _. raise authentication_failed) (λ _ c. refl)

read_credentials-Settled : (a : Credentials) (n : ℕ) → Settled (read_credentials a n)
unfolding read_credentials
read_credentials-Settled a n =
    bind-Settled (read_full n username_failed)
      (λ user. read_full 1 password_length_failed >>= λ len.
        read_full (at len 0) password_failed >>= λ pass. answer_auth (credentials_ok a user pass))
      (read_full-Settled n username_failed refl)
      (λ user.
        bind-Settled (read_full 1 password_length_failed)
          (λ len. read_full (at len 0) password_failed >>= λ pass.
            answer_auth (credentials_ok a user pass))
          (read_full-Settled 1 password_length_failed refl)
          (λ len.
            bind-Settled (read_full (at len 0) password_failed)
              (λ pass. answer_auth (credentials_ok a user pass))
              (read_full-Settled (at len 0) password_failed refl)
              (λ pass. answer_auth-Settled (credentials_ok a user pass))))

handle_socks_auth-Settled : (a : Credentials) → Settled (handle_socks_auth a)
unfolding handle_socks_auth
handle_socks_auth-Settled a =
    bind-Settled (read_full 2 bad_auth_version)
      (λ header.
        if at header 0 == 1 then read_credentials a (at header 1) else raise bad_auth_version)
      (read_full-Settled 2 bad_auth_version refl)
      (λ header.
        if-Settled (at header 0 == 1) (read_credentials a (at header 1)) (raise bad_auth_version)
          (read_credentials-Settled a (at header 1)) (λ c. refl))

pub authenticate-Settled : (a : Credentials) → Settled (authenticate a)
unfolding authenticate
authenticate-Settled a =
    if-Settled (auth_enabled a) (handle_socks_auth a) (pure tt) (handle_socks_auth-Settled a)
      (λ c. refl)
