-- ===== src/Socks/Reads.antt =====
-- Reads and writes: what is taken off the stream of the client.
use luci_app_gowan.Common.{
  ℕ, zero, suc, ◌≡◌, refl, sym, ap, ◌∙◌, inl, inr, Bool, true, some, List, [], ◌∷◌, ◌++◌, arith,
  Bytes, length, take, drop, ◌==◌, ==_iff, if◌then◌else◌, Bool-cases, Option-cases,
}
use mathlib.Core.List.{append_assoc}
use luci_app_gowan.Dispatch.{socks_reply}
use luci_app_gowan.Socks.Conn.{
  SocksError, Result, ok, err, Connection, Action, ◌>>=◌, raise, push, read_some, read_full, write,
  close,
}
use luci_app_gowan.Socks.{at, refuse}

-- All that the client has still sent.
abbrev pub stream : List Bytes → Bytes
stream [] = []
stream (s ∷ l) = s ++ stream l

pub bind_ok :
    {A B : Type 0} (m : Action A) (f : A → Action B) (c : Connection) {b : B} {e : Connection}
    → (m >>= f) c ≡ (ok b, e)
    → (a : A) × (d : Connection) × (m c ≡ (ok a, d)) × (f a d ≡ (ok b, e))
bind_ok {A} {B} m f c {b} {e} h = by_result (m c).0 (m c).1 refl h
  where
    by_result :
        (r : Result A) (d : Connection)
        → m c ≡ (r, d)
        → (elim r [ ok a ↦ f a d | err x ↦ raise x d ]) ≡ (ok b, e)
        → (a : A) × (d : Connection) × (m c ≡ (ok a, d)) × (f a d ≡ (ok b, e))
    by_result (ok a) d p q = (a, d, p, q)
    by_result (err x) d p q = cc q

pub take-drop : (n : ℕ) (s : Bytes) → take n s ++ drop n s ≡ s
take-drop zero s = refl
take-drop (suc n) [] = refl
take-drop (suc n) (c ∷ s) = ap (◌∷◌ c) (take-drop n s)

stream-push : (s : Bytes) (l : List Bytes) → stream (push s l) ≡ s ++ stream l
stream-push [] l = refl
stream-push (c ∷ s) l = refl

read_some-stream :
    (n : ℕ) (l : List Bytes) {b : Bytes} {r : List Bytes}
    → read_some n l ≡ some (b, r)
    → stream l ≡ b ++ stream r
unfolding read_some
read_some-stream zero l {b} {r} e =
    let p : [] ≡ b = cc e in let q : l ≡ r = cc e in rw (← p, ← q) refl
read_some-stream (suc n) [] e = cc
read_some-stream (suc n) (s ∷ l) {b} {r} e =
    let p : take (suc n) s ≡ b = cc e in
    let q : push (drop (suc n) s) l ≡ r = cc e in
    rw (← p, ← q)
      (ap (λ x. x ++ stream l) (sym (take-drop (suc n) s))
        ∙ append_assoc (take (suc n) s) (drop (suc n) s) (stream l)
        ∙ ap (◌++◌ (take (suc n) s)) (sym (stream-push (drop (suc n) s) l)))

-- A read that fills its buffer takes as many bytes off the stream.
pub read_full_ok :
    (n : ℕ) (x : SocksError) (c : Connection) {b : Bytes} {d : Connection}
    → read_full n x c ≡ (ok b, d)
    → (length b ≡ n) × (stream c.segments ≡ b ++ stream d.segments)
unfolding read_full
read_full_ok n x c {b} {d} e = elim (Option-cases (read_some n c.segments)) [
  | inl p ↦ cc (rw (p, read_full) at e)
  | inr ((a, l), p) ↦
      let q = rw (p, read_full) at e in
      elim (Bool-cases (length a == n)) [
        | inl full ↦
            let same : a ≡ b = ground (arith, q, full) in
            let left : l ≡ d.segments = ground (arith, q, full) in
            (
              rw (← same) ((==_iff (length a) n).0 full),
              rw (← same, ← left) (read_some-stream n c.segments p),
            )
        | inr short ↦ ground (arith, q, short)
      ]
]

-- What was read between two states of a connection.
abbrev pub Takes : Connection → Connection → Bytes → Type 0
Takes c d b = stream c.segments ≡ b ++ stream d.segments

pub Takes-trans :
    (c d e : Connection) (a b : Bytes) → Takes c d a → Takes d e b → Takes c e (a ++ b)
Takes-trans c d e a b p q = p ∙ ap (◌++◌ a) q ∙ sym (append_assoc a b (stream e.segments))

pub one_byte : (b : Bytes) → length b ≡ 1 → b ≡ at b 0 ∷ []
one_byte [] h = cc h
one_byte (x ∷ []) h = refl
one_byte (x ∷ y ∷ b) h = absurd (omega (arith, h))

pub two_bytes : (b : Bytes) → length b ≡ 2 → b ≡ at b 0 ∷ at b 1 ∷ []
two_bytes [] h = cc h
two_bytes (x ∷ b) h = ap (◌∷◌ x) (one_byte b (omega (arith, h)))

pub four_bytes : (b : Bytes) → length b ≡ 4 → b ≡ at b 0 ∷ at b 1 ∷ at b 2 ∷ at b 3 ∷ []
four_bytes [] h = cc h
four_bytes (x ∷ []) h = absurd (omega (arith, h))
four_bytes (x ∷ y ∷ b) h = ap (λ t. x ∷ y ∷ t) (two_bytes b (omega (arith, h)))

-- A write that comes to an end, well or not, reads nothing and closes nothing.
pub record Written (b : Bytes) (c : Connection) : Type 0 where
  pub good : Bool
  pub after : Connection
  pub result : write b c ≡ (ok good, after)
  pub same_segments : after.segments ≡ c.segments
  pub same_closed : after.closed ≡ c.closed

pub write-Written : (b : Bytes) (c : Connection) → Written b c
unfolding write
write-Written b c = by_writes c.writes refl
  where
    by_writes : (l : List Bool) → c.writes ≡ l → Written b c
    by_writes [] e = record {
      good = true;
      after = record c { writes = []; sent = c.sent ++ b };
      result = rw (e, write) refl;
      same_segments = refl;
      same_closed = refl;
    }
    by_writes (w ∷ ws) e = record {
      good = w;
      after = record c { writes = ws; sent = if w then c.sent ++ b else c.sent };
      result = rw (e, write) refl;
      same_segments = refl;
      same_closed = refl;
    }

pub bind_run :
    {A B : Type 0} (m : Action A) (f : A → Action B) (c : Connection) {a : A} {d : Connection}
    → m c ≡ (ok a, d)
    → (m >>= f) c ≡ f a d
bind_run {A} {B} m f c e = ap (λ (x : Result A × Connection). ◌>>=◌ {A = A} {B = B} (λ y. x) f c) e

-- A refusal is an error, behind which the connection is closed.
pub refuse_err :
    {A : Type 0} (status : ℕ) (x : SocksError) (c : Connection)
    → ((refuse {A = A} status x c).0 ≡ err x) × ((refuse {A = A} status x c).1.closed ≡ true)
unfolding refuse close
refuse_err {A} status x c =
    let w = write-Written (socks_reply status) c in
    let run : refuse {A = A} status x c ≡ (err x, record w.after { closed = true }) =
      bind_run (write (socks_reply status)) (λ _. close >>= λ _. raise x) c w.result in
    (
      ap (λ (r : Result A × Connection). r.0) run,
      ap (λ (r : Result A × Connection). r.1.closed) run,
    )

pub refuse_not_ok :
    {A : Type 0} (status : ℕ) (x : SocksError) (c : Connection) {a : A} {d : Connection}
    → refuse status x c ≡ (ok a, d)
    → ⊥
refuse_not_ok {A} status x c e = cc ((refuse_err {A = A} status x c).0, e)
