-- ===== src/Socks/Login.antt =====
-- The greeting, the choice of a method, and the user and password.
use luci_app_gowan.Common.{
  ℕ, ◌≡◌, refl, sym, ap, ◌∙◌, inl, inr, Bool, true, false, [], ◌∷◌, ◌++◌, arith, Bytes, text_eq_iff,
  contains, length, ◌==◌, ==_iff, if◌then◌else◌, Bool-cases,
}
use luci_app_gowan.Socks.Conn.{
  greeting_failed, choice_failed, no_acceptable_method, authentication_failed, bad_auth_version,
  username_failed, password_length_failed, password_failed, ok, Connection, Action, ◌>>=◌, pure,
  raise, read_full, write,
}
use luci_app_gowan.Socks.{
  Credentials, at, auth_enabled, credentials_ok, client_greeting, write_choice, servers_choice,
  answer_auth, read_credentials, handle_socks_auth, username_password,
}
use luci_app_gowan.Socks.Reads.{
  stream, bind_ok, read_full_ok, Takes, Takes-trans, one_byte, two_bytes, write-Written, bind_run,
}

abbrev pub greeting : ℕ → Bytes → Bytes
greeting version methods = version ∷ length methods ∷ methods

abbrev pub auth_message : Credentials → Bytes
auth_message a = 1 ∷ length a.user ∷ (a.user ++ (length a.pass ∷ a.pass))

pub client_greeting_ok :
    (c : Connection) {ms : Bytes} {d : Connection}
    → client_greeting c ≡ (ok ms, d)
    → (v : ℕ) × Takes c d (greeting v ms)
unfolding client_greeting
client_greeting_ok c {ms} {d} e =
    let (buf, c1, e1, e2) =
      bind_ok (read_full 2 greeting_failed) (λ buf. read_full (at buf 1) greeting_failed) c e in
    let (l1, s1) = read_full_ok 2 greeting_failed c e1 in
    let (l2, s2) = read_full_ok (at buf 1) greeting_failed c1 e2 in
    let len : at buf 0 ∷ at buf 1 ∷ [] ≡ at buf 0 ∷ length ms ∷ [] =
      ap (λ n. at buf 0 ∷ n ∷ []) (sym l2) in
    (
      at buf 0,
      Takes-trans c c1 d buf ms s1 s2
          ∙ ap (λ b. (b ++ ms) ++ stream d.segments) (two_bytes buf l1 ∙ len),
    )

write_choice_ok :
    (m : ℕ) (c : Connection) {u : Unit} {d : Connection}
    → write_choice m c ≡ (ok u, d)
    → d.segments ≡ c.segments
unfolding write_choice
write_choice_ok m c {u} {d} e =
    let w = write-Written (5 ∷ m ∷ []) c in
    let q =
      sym (
        bind_run (write (5 ∷ m ∷ [])) (λ good. if good then pure tt else raise choice_failed) c
          w.result)
      ∙ e in
    elim (Bool-cases w.good) [
      | inl good ↦ cc (rw good at q, w.same_segments)
      | inr bad ↦ cc (rw bad at q)
    ]

pub servers_choice_ok :
    (a : Credentials) (ms : Bytes) (c : Connection) {u : Unit} {d : Connection}
    → servers_choice a ms c ≡ (ok u, d)
    → (d.segments ≡ c.segments) × (auth_enabled a ≡ true → contains ms username_password ≡ true)
unfolding servers_choice
servers_choice_ok a ms c {u} {d} e = elim (Bool-cases (auth_enabled a)) [
  | inr off ↦ (write_choice_ok 0 c (rw off at e), λ on. cc (off, on))
  | inl on ↦ elim (Bool-cases (contains ms username_password)) [
    | inl offered ↦ (write_choice_ok 2 c (rw (on, offered) at e), λ _. offered)
    | inr missing ↦
        let w = write-Written (5 ∷ 0xff ∷ []) c in
        cc (
          sym (bind_run (write (5 ∷ 0xff ∷ [])) (λ _. raise no_acceptable_method) c w.result)
          ∙ rw (on, missing) at e)
  ]
]

answer_auth_ok :
    (b : Bool) (c : Connection) {u : Unit} {d : Connection}
    → answer_auth b c ≡ (ok u, d)
    → (b ≡ true) × (d.segments ≡ c.segments)
unfolding answer_auth
answer_auth_ok true c e =
    let w = write-Written (1 ∷ 0 ∷ []) c in
    (refl, cc (sym (bind_run (write (1 ∷ 0 ∷ [])) (λ _. pure tt) c w.result) ∙ e, w.same_segments))
answer_auth_ok false c e =
    let w = write-Written (1 ∷ 1 ∷ []) c in
    cc (sym (bind_run (write (1 ∷ 1 ∷ [])) (λ _. raise authentication_failed) c w.result) ∙ e)

abbrev after_length : Credentials → Bytes → Bytes → Action Unit
after_length a user len = do
  pass ← read_full (at len 0) password_failed
  answer_auth (credentials_ok a user pass)

abbrev after_user : Credentials → Bytes → Action Unit
after_user a user = do len ← read_full 1 password_length_failed; after_length a user len

credentials_ok-eq :
    (a : Credentials) (user pass : Bytes)
    → credentials_ok a user pass ≡ true
    → (user ≡ a.user) × (pass ≡ a.pass)
credentials_ok-eq a user pass e = (
  (text_eq_iff user a.user).0 (ground (arith, e)),
  (text_eq_iff pass a.pass).0 (ground (arith, e)),
)

read_credentials_ok :
    (a : Credentials) (n : ℕ) (c : Connection) {u : Unit} {d : Connection}
    → read_credentials a n c ≡ (ok u, d)
    → (n ≡ length a.user) × Takes c d (a.user ++ (length a.pass ∷ a.pass))
unfolding read_credentials
read_credentials_ok a n c {u} {d} e =
    let (user, c1, e1, k1) = bind_ok (read_full n username_failed) (after_user a) c e in
    let (l1, s1) = read_full_ok n username_failed c e1 in
    let (len, c2, e2, k2) =
      bind_ok (read_full 1 password_length_failed) (after_length a user) c1 k1 in
    let (l2, s2) = read_full_ok 1 password_length_failed c1 e2 in
    let (pass, c3, e3, k3) =
      bind_ok (read_full (at len 0) password_failed)
        (λ pass. answer_auth (credentials_ok a user pass)) c2 k2 in
    let (l3, s3) = read_full_ok (at len 0) password_failed c2 e3 in
    let (good, same) = answer_auth_ok (credentials_ok a user pass) c3 k3 in
    let (u≡, p≡) = credentials_ok-eq a user pass good in
    let parts : user ++ (len ++ pass) ≡ a.user ++ (length a.pass ∷ a.pass) =
      ap (λ x. x ++ (len ++ pass)) u≡
      ∙ ap (λ x. a.user ++ (x ++ pass)) (one_byte len l2 ∙ ap (λ x. x ∷ []) (sym l3))
      ∙ ap (λ x. a.user ++ (length x ∷ x)) p≡ in
    (
      sym l1 ∙ ap length u≡,
      Takes-trans c c1 c3 user (len ++ pass) s1 (Takes-trans c1 c2 c3 len pass s2 s3)
          ∙ ap (λ b. b ++ stream c3.segments) parts
          ∙ ap (λ l. (a.user ++ (length a.pass ∷ a.pass)) ++ stream l) (sym same),
    )

-- A correct answer took the configured user and password off the stream.
pub handle_socks_auth_ok :
    (a : Credentials) (c : Connection) {u : Unit} {d : Connection}
    → handle_socks_auth a c ≡ (ok u, d)
    → Takes c d (auth_message a)
unfolding handle_socks_auth
handle_socks_auth_ok a c {u} {d} e =
    let (header, c1, e1, k1) =
      bind_ok (read_full 2 bad_auth_version)
        (λ header.
          if at header 0 == 1 then read_credentials a (at header 1) else raise bad_auth_version)
        c e in
    let (l1, s1) = read_full_ok 2 bad_auth_version c e1 in
    elim (Bool-cases (at header 0 == 1)) [
      | inr wrong ↦ cc (rw wrong at k1)
      | inl right ↦
          let v : at header 0 ≡ 1 = (==_iff (at header 0) 1).0 right in
          let (n, t) = read_credentials_ok a (at header 1) c1 (rw right at k1) in
          let h : header ≡ 1 ∷ length a.user ∷ [] =
            two_bytes header l1 ∙ ap (λ x. x ∷ at header 1 ∷ []) v ∙ ap (λ x. 1 ∷ x ∷ []) n in
          s1 ∙ ap (λ b. b ++ stream c1.segments) h ∙ ap (λ b. 1 ∷ length a.user ∷ b) t
    ]
