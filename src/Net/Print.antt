-- ===== src/Net/Print.antt =====
-- The texts "%d.%d.%d.%d" and "%s:%d" of an address and a port, and how `net` reads them.
use luci_app_gowan.Common.{
  ℕ, zero, suc, ◌+◌, ◌*◌, ◌≤◌, ◌<◌, ◌≡◌, refl, sym, ap, ◌∙◌, ◌≢◌, ◌⊎◌, inl, inr, true, false, none,
  some, List, [], ◌∷◌, ◌++◌, All, arith, Bytes, is_blank, split, decimal, digits, atoi, atoi_value,
  pos, int_max, emit, itoa, pow10, decimal-emit, IsDigit, emit-IsDigit, emit-HasHead, HasHead,
  itoa_shown, ◌==◌,
}
use luci_app_gowan.Net.{
  parse_ip4, parse_ip, octet, ip_kind, v4_prefix, cut_last, has_byte, plain, split_host_port,
}

unfoldable pub quad : ℕ → ℕ → ℕ → ℕ → Bytes
quad a b c d = itoa a ++ (b'.' ∷ (itoa b ++ (b'.' ∷ (itoa c ++ (b'.' ∷ itoa d)))))

unfoldable pub host_port : Bytes → ℕ → Bytes
host_port h p = h ++ (b':' ∷ itoa p)

abbrev pub Without : ℕ → Bytes → Type 0
Without sep s = All (λ c. c ≢ sep) s

pub All-append {ℓ κ} :
    {A : Type ℓ} (P : A → Type κ) (xs ys : List A) → All P xs → All P ys → All P (xs ++ ys)
All-append P [] ys h k = k
All-append P (x ∷ xs) ys h k = (h.0, All-append P xs ys h.1 k)

pub All-map {ℓ κ μ} :
    {A : Type ℓ} {P : A → Type κ} {Q : A → Type μ} (xs : List A)
    → ((x : A) → P x → Q x)
    → All P xs
    → All Q xs
All-map [] f h = tt
All-map (x ∷ xs) f h = (f x h.0, All-map xs f h.1)

pub itoa-IsDigit : (n : ℕ) → All IsDigit (itoa n)
unfolding itoa
itoa-IsDigit n = emit-IsDigit 20 n [] tt

pub itoa-Without : (sep n : ℕ) → (sep < 48) ⊎ (57 < sep) → Without sep (itoa n)
itoa-Without sep n h = All-map (itoa n) (λ c d e. apart c d h e) (itoa-IsDigit n)
  where
    apart : (c : ℕ) → IsDigit c → (sep < 48) ⊎ (57 < sep) → c ≢ sep
    apart c d (inl l) e = omega (arith, d)
    apart c d (inr g) e = omega (arith, d)

pub split-append :
    (sep : ℕ) (x r : Bytes) → Without sep x → split sep (x ++ (sep ∷ r)) ≡ x ∷ split sep r
unfolding split
split-append sep [] r h = ground arith
split-append sep (c ∷ x) r h = ground (arith, h.0, split-append sep x r h.1)

pub split_whole : (sep : ℕ) (x : Bytes) → Without sep x → split sep x ≡ x ∷ []
unfolding split
split_whole sep [] h = refl
split_whole sep (c ∷ x) h = ground (arith, h.0, split_whole sep x h.1)

pub decimal-itoa : (n : ℕ) → n < pow10 20 → decimal 0 (itoa n) ≡ some n
unfolding itoa decimal
decimal-itoa n h = decimal-emit 20 n [] h

pub itoa_inj : (m n : ℕ) → m ≤ 65535 → n ≤ 65535 → itoa m ≡ itoa n → m ≡ n
itoa_inj m n km kn e =
    let same : some m ≡ some n =
      sym (decimal-itoa m (omega (arith, km)))
      ∙ ap (decimal 0) e
      ∙ decimal-itoa n (omega (arith, kn)) in
    cc same

octet_of_decimal :
    (s : Bytes) (n : ℕ) → HasHead s → decimal 0 s ≡ some n → n ≤ 255 → octet s ≡ some n
unfolding octet
octet_of_decimal [] n h e b = absurd h
octet_of_decimal (c ∷ s) n h e b = rw e (ground (arith, h, b))

octet-itoa_zero : octet (itoa 0) ≡ some 0
unfolding octet itoa emit decimal
octet-itoa_zero = refl

itoa-HasHead : (n : ℕ) → n < pow10 20 → 0 < n → HasHead (itoa n)
unfolding itoa
itoa-HasHead n h p = emit-HasHead 20 n [] h p

octet-itoa : (n : ℕ) → n ≤ 255 → octet (itoa n) ≡ some n
octet-itoa zero h = octet-itoa_zero
octet-itoa (suc n) h =
    octet_of_decimal (itoa (suc n)) (suc n) (itoa-HasHead (suc n) (omega arith) (omega arith))
      (decimal-itoa (suc n) (omega arith)) h

dotless : (n : ℕ) → Without b'.' (itoa n)
dotless n = itoa-Without b'.' n (inl (omega arith))

pub split-quad : (a b c d : ℕ) → split b'.' (quad a b c d) ≡ itoa a ∷ itoa b ∷ itoa c ∷ itoa d ∷ []
unfolding quad
split-quad a b c d =
    split-append b'.' (itoa a) _ (dotless a)
    ∙ ap (◌∷◌ (itoa a)) (
        split-append b'.' (itoa b) _ (dotless b)
        ∙ ap (◌∷◌ (itoa b)) (
            split-append b'.' (itoa c) _ (dotless c)
            ∙ ap (◌∷◌ (itoa c)) (split_whole b'.' (itoa d) (dotless d))))

-- The 32-bit value of a quad.
abbrev pub value32 : ℕ → ℕ → ℕ → ℕ → ℕ
value32 a b c d = ((a * 256 + b) * 256 + c) * 256 + d

pub parse_ip4-quad :
    (a b c d : ℕ)
    → a ≤ 255
    → b ≤ 255
    → c ≤ 255
    → d ≤ 255
    → parse_ip4 (quad a b c d) ≡ some (value32 a b c d)
unfolding parse_ip4
parse_ip4-quad a b c d p q r s =
    rw (split-quad a b c d)
      (rw (octet-itoa a p, octet-itoa b q, octet-itoa c r, octet-itoa d s) refl)

ip_kind_dot : (x r : Bytes) → All IsDigit x → ip_kind (x ++ (b'.' ∷ r)) ≡ some true
ip_kind_dot [] r h = refl
ip_kind_dot (c ∷ x) r h = ground (arith, h.0, ip_kind_dot x r h.1)

-- `net.ParseIP` reads a printed quad back.
pub parse_ip-quad :
    (a b c d : ℕ)
    → a ≤ 255
    → b ≤ 255
    → c ≤ 255
    → d ≤ 255
    → parse_ip (quad a b c d) ≡ some (v4_prefix + value32 a b c d)
unfolding parse_ip
parse_ip-quad a b c d p q r s = rw (kind, parse_ip) (rw (parse_ip4-quad a b c d p q r s) refl)
  where
    kind : ip_kind (quad a b c d) ≡ some true
    kind = unfold quad in ip_kind_dot (itoa a) _ (itoa-IsDigit a)

-- Neither a colon nor a bracket.
abbrev pub IsPlain : ℕ → Type 0
IsPlain c = (c ≢ b':') × (c ≢ b'[') × (c ≢ b']')

digit-IsPlain : (c : ℕ) → IsDigit c → IsPlain c
digit-IsPlain c (l, h) = (λ e. omega (arith, e), λ e. omega (arith, e), λ e. omega (arith, e))

pub itoa-IsPlain : (n : ℕ) → All IsPlain (itoa n)
itoa-IsPlain n = All-map (itoa n) digit-IsPlain (itoa-IsDigit n)

dot-IsPlain : IsPlain b'.'
dot-IsPlain = (λ e. omega (arith, e), λ e. omega (arith, e), λ e. omega (arith, e))

pub quad-IsPlain : (a b c d : ℕ) → All IsPlain (quad a b c d)
unfolding quad
quad-IsPlain a b c d = All-append IsPlain (itoa a) _ (itoa-IsPlain a) (
  dot-IsPlain,
  All-append IsPlain (itoa b) _ (itoa-IsPlain b)
      (dot-IsPlain, All-append IsPlain (itoa c) _ (itoa-IsPlain c) (dot-IsPlain, itoa-IsPlain d)),
)

pub cut_last_free : (s : Bytes) → All IsPlain s → cut_last b':' s ≡ none
unfolding cut_last
cut_last_free [] h = refl
cut_last_free (c ∷ s) h = rw (cut_last_free s h.1, cut_last) (ground (arith, h.0.0))

pub cut_last_colon : (h p : Bytes) → All IsPlain p → cut_last b':' (h ++ (b':' ∷ p)) ≡ some (h, p)
unfolding cut_last
cut_last_colon [] p k = rw (cut_last_free p k, cut_last) refl
cut_last_colon (c ∷ h) p k = rw (cut_last_colon h p k, cut_last) refl

pub has_byte_free : (b : ℕ) (s : Bytes) → All (λ c. c ≢ b) s → has_byte b s ≡ false
has_byte_free b [] h = refl
has_byte_free b (c ∷ s) h = ground (arith, h.0, has_byte_free b s h.1)

has_byte_behind :
    (b : ℕ) (h p : Bytes)
    → b ≢ b':'
    → Without b h
    → Without b p
    → has_byte b (h ++ (b':' ∷ p)) ≡ false
has_byte_behind b h p n x y =
    has_byte_free b (h ++ (b':' ∷ p)) (All-append (λ c. c ≢ b) h _ x (λ e. n (sym e), y))

plain-host_port : (h : Bytes) (p : ℕ) → All IsPlain h → plain (host_port h p) ≡ some (h, itoa p)
unfolding plain host_port
plain-host_port h p k =
    let port = itoa-IsPlain p in
    let no_colon = has_byte_free b':' h (All-map {P = IsPlain} h (λ x q. q.0) k) in
    let no_open =
      has_byte_behind b'[' h (itoa p) (cc) (All-map {P = IsPlain} h (λ x q. q.1) k)
        (All-map {P = IsPlain} (itoa p) (λ x q. q.1) port) in
    let no_close =
      has_byte_behind b']' h (itoa p) (cc) (All-map {P = IsPlain} h (λ x q. q.2) k)
        (All-map {P = IsPlain} (itoa p) (λ x q. q.2) port) in
    rw (cut_last_colon h (itoa p) port, plain) (ground (arith, no_colon, no_open, no_close))

-- `net.SplitHostPort` splits a plain host, a colon and a port.
pub split_host_port-host_port :
    (h : Bytes) (p : ℕ)
    → All IsPlain h
    → is_blank h ≡ false
    → split_host_port (host_port h p) ≡ some (h, itoa p)
unfolding split_host_port host_port
split_host_port-host_port [] p k e = cc
split_host_port-host_port (c ∷ h) p k e =
    let start : (c == b'[') ≡ false = ground (arith, k.0.1) in
    rw start (plain-host_port (c ∷ h) p k)

pub digits-itoa : (n : ℕ) → n < pow10 20 → digits (itoa n) ≡ some n
digits-itoa n h = digits_of (itoa n) (decimal-itoa n h) (itoa_shown n)
  where
    digits_of : (s : Bytes) → decimal 0 s ≡ some n → is_blank s ≡ false → digits s ≡ some n
    digits_of [] e b = cc
    digits_of (c ∷ s) e b = e

-- `strconv.Atoi` reads a printed port back.
pub atoi_value-itoa : (n : ℕ) → n ≤ 65535 → atoi_value (itoa n) ≡ pos n
unfolding atoi_value
atoi_value-itoa n h = of_digits (itoa n) (itoa-IsDigit n) (digits-itoa n (omega arith))
  where
    of_digits : (s : Bytes) → All IsDigit s → digits s ≡ some n → atoi_value s ≡ pos n
    of_digits [] d e = cc
    of_digits (c ∷ s) d e = ground (arith, d.0, e, h)

pub atoi-itoa : (n : ℕ) → n ≤ int_max → atoi (itoa n) ≡ some (pos n)
unfolding atoi
atoi-itoa n h = of_digits (itoa n) (itoa-IsDigit n) (digits-itoa n (omega (arith, h)))
  where
    of_digits : (s : Bytes) → All IsDigit s → digits s ≡ some n → atoi s ≡ some (pos n)
    of_digits [] d e = cc
    of_digits (c ∷ s) d e = ground (arith, d.0, e, h)
