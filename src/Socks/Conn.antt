-- ===== src/Socks/Conn.antt =====
-- A connection as a program sees it: `Read`, `Write` and `Close` of `net.Conn`.
use luci_app_gowan.Common.{
  ℕ, zero, suc, Bool, true, Option, none, some, List, [], ◌∷◌, ◌++◌, Bytes, length, take, drop,
  ◌==◌, if◌then◌else◌,
}

-- The errors of gowan/src/socks.go, by their texts.
pub data SocksError : Type 0 where
  greeting_failed : SocksError
  choice_failed : SocksError
  no_acceptable_method : SocksError
  bad_auth_version : SocksError
  username_failed : SocksError
  password_length_failed : SocksError
  password_failed : SocksError
  authentication_failed : SocksError
  request_failed : SocksError
  unsupported_version : SocksError
  unsupported_command : SocksError
  unsupported_address : SocksError

pub data Result (A : Type 0) : Type 0 where
  ok : A → Result A
  err : SocksError → Result A

-- What the client sends, in the segments in which it arrives; whether each write that comes
-- succeeds, all where the list has ended; and what has been written.
pub record Connection : Type 0 where
  pub segments : List Bytes
  pub writes : List Bool
  pub sent : Bytes
  pub closed : Bool

abbrev pub Action : Type 0 → Type 0
Action A = Connection → Result A × Connection

module _ {A : Type 0} where
  abbrev pub pure : A → Action A
  pure a c = (ok a, c)

  abbrev pub raise : SocksError → Action A
  raise e c = (err e, c)

infixl 5 ◌>>=◌
abbrev pub ◌>>=◌ : {A B : Type 0} → Action A → (A → Action B) → Action B
◌>>=◌ m f c = let (r, d) = m c in elim r [ ok a ↦ f a d | err e ↦ raise e d ]

-- The rest of a segment of which some bytes were read.
abbrev pub push : Bytes → List Bytes → List Bytes
push [] l = l
push (c ∷ s) l = (c ∷ s) ∷ l

-- `conn.Read(buf)` with a buffer of the given length gives at most one segment's bytes, at once if
-- the buffer is empty; none is the error at the end.
unfoldable pub read_some : ℕ → List Bytes → Option (Bytes × List Bytes)
read_some zero l = some ([], l)
read_some (suc n) [] = none
read_some (suc n) (s ∷ l) = some (take (suc n) s, push (drop (suc n) s) l)

-- `if nRead, err := conn.Read(buf); err != nil || nRead != len(buf) { return …, e }`
unfoldable pub read_full : ℕ → SocksError → Action Bytes
unfolding read_some
read_full n e c = elim (read_some n c.segments) [
  | none ↦ (err e, c)
  | some (b, l) ↦ (if length b == n then ok b else err e, record c { segments = l })
]

-- `conn.Write(b)`, and whether it wrote all.
unfoldable pub write : Bytes → Action Bool
write b c = elim c.writes [
  | [] ↦ (ok true, record c { writes = []; sent = c.sent ++ b })
  | w ∷ ws ↦ (ok w, record c { writes = ws; sent = if w then c.sent ++ b else c.sent })
]

unfoldable pub close : Action Unit
close c = (ok tt, record c { closed = true })
