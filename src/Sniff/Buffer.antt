-- ===== src/Sniff/Buffer.antt =====
-- Reads at a position of a buffer, and the extensions of a ClientHello.
use luci_app_gowan.Common.{
  ℕ, zero, suc, ◌+◌, ◌-◌, ◌*◌, ◌/◌, ◌%◌, ◌≤◌, ◌<◌, ◌≡◌, ◌≢◌, refl, sym, ap, subst, ◌∙◌, inl, inr,
  Bool-cases, true, false, ◌&&◌, Option, some, List, [], ◌∷◌, ◌++◌, arith, Bytes, to_lower, length,
  length-append, get_elem?, take, drop, take-append, drop-append, leb, ltb, ◌==◌, All,
}
use mathlib.Core.List.{append_assoc}
use luci_app_gowan.Balancer.{Run, returns}
use luci_app_gowan.Sniff.{byte, and_then, word, slice, server_name, then_go, extensions}

-- What stands in a buffer from a position on, up to its end.
pub record Rest (b : Bytes) (p : ℕ) (r : Bytes) : Type 0 where
  pub from : drop p b ≡ r
  pub room : p + length r ≡ length b

drop_nil : (n : ℕ) → drop {A = ℕ} n [] ≡ []
drop_nil zero = refl
drop_nil (suc n) = refl

drop-add : (p n : ℕ) (b : Bytes) → drop (p + n) b ≡ drop n (drop p b)
drop-add zero n b = ap (λ k. drop k b) (none_more n)
  where
    none_more : (n : ℕ) → 0 + n ≡ n
    none_more n = omega arith
drop-add (suc p) n [] = drop_nil (suc p + n) ∙ sym (drop_nil n)
drop-add (suc p) n (c ∷ b) = ap (λ k. drop k (c ∷ b)) (one_more p n) ∙ drop-add p n b
  where
    one_more : (p n : ℕ) → suc p + n ≡ suc (p + n)
    one_more p n = omega arith

-- Behind what has been read.
pub Rest-append :
    {b : Bytes} (p n : ℕ) (x r : Bytes) → length x ≡ n → Rest b p (x ++ r) → Rest b (p + n) r
Rest-append {b} p n x r e h = record {
  from = drop-add p n b ∙ ap (drop n) h.from ∙ ap (λ k. drop k (x ++ r)) (sym e) ∙ drop-append x r;
  room = omega (arith, h.room, length-append x r, e);
}

get_elem?-drop : (p : ℕ) (b : Bytes) {c : ℕ} {r : Bytes} → drop p b ≡ c ∷ r → get_elem? b p ≡ some c
get_elem?-drop zero [] e = cc e
get_elem?-drop zero (x ∷ b) e = cc e
get_elem?-drop (suc p) [] e = cc e
get_elem?-drop (suc p) (x ∷ b) e = get_elem?-drop p b e

pub byte_at : {b : Bytes} (p c : ℕ) (r : Bytes) → Rest b p (c ∷ r) → byte b p ≡ returns c
unfolding byte
byte_at {b} p c r h = rw (get_elem?-drop p b h.from, byte) refl

-- A number in two bytes.
abbrev pub two_bytes_of : ℕ → Bytes
two_bytes_of n = n / 256 ∷ n % 256 ∷ []

pub word_at :
    {b : Bytes} (p n : ℕ) (r : Bytes) → Rest b p (two_bytes_of n ++ r) → word b p ≡ returns n
unfolding word and_then
word_at {b} p n r h =
    let low = Rest-append p 1 (n / 256 ∷ []) (n % 256 ∷ r) refl h in
    rw (byte_at p (n / 256) (n % 256 ∷ r) h, byte_at (p + 1) (n % 256) r low) (ap returns (both n))
  where
    both : (n : ℕ) → n / 256 * 256 + n % 256 ≡ n
    both n = omega arith

slice_at :
    {b : Bytes} (p q : ℕ) (x r : Bytes)
    → p + length x ≡ q
    → Rest b p (x ++ r)
    → slice b p q ≡ returns x
unfolding slice
slice_at {b} p q x r e h =
    let inside : (leb p q && leb q (length b)) ≡ true =
      ground (arith, e, h.room, length-append x r) in
    rw inside (
      ap returns (
        ap (take (q - p)) h.from
        ∙ ap (λ k. take k (x ++ r)) (width p q (length x) e)
        ∙ take-append x r))
  where
    width : (p q n : ℕ) → p + n ≡ q → q - p ≡ n
    width p q n e = omega (arith, e)

pub whole_Rest : (b : Bytes) → Rest b 0 b
whole_Rest b = record { from = refl; room = omega arith }

-- The contents of the extension `server_name`, which starts with the host name.
abbrev pub name_entry : ℕ → Bytes → Bytes → Bytes
name_entry list_len name more =
    two_bytes_of list_len ++ (0 ∷ (two_bytes_of (length name) ++ (name ++ more)))

server_name_at :
    (e name more : Bytes)
    → Rest e 2 (0 ∷ (two_bytes_of (length name) ++ (name ++ more)))
    → server_name e ≡ returns (to_lower name)
unfolding server_name and_then
server_name_at e name more h2 =
    let h3 = Rest-append 2 1 (0 ∷ []) (two_bytes_of (length name) ++ (name ++ more)) refl h2 in
    let h5 = Rest-append 3 2 (two_bytes_of (length name)) (name ++ more) refl h3 in
    let long : ltb (length e) 5 ≡ false = ground (arith, h5.room) in
    let enough : ltb (length e) (5 + length name) ≡ false =
      ground (arith, h5.room, length-append name more) in
    rw
      (
        long,
        byte_at 2 0 (two_bytes_of (length name) ++ (name ++ more)) h2,
        word_at 3 (length name) (name ++ more) h3,
        enough,
        slice_at 5 (5 + length name) name more refl h5,
      )
      refl

pub server_name-name_entry :
    (list_len : ℕ) (name more : Bytes)
    → server_name (name_entry list_len name more) ≡ returns (to_lower name)
server_name-name_entry list_len name more =
    server_name_at (name_entry list_len name more) name more (
      Rest-append 0 2 (two_bytes_of list_len) (0 ∷ (two_bytes_of (length name) ++ (name ++ more)))
        refl (whole_Rest (name_entry list_len name more)))

-- An extension, with its type in front.
pub record Extension : Type 0 where
  pub kind : ℕ
  pub body : Bytes

abbrev pub extension_bytes : Extension → Bytes
extension_bytes x = two_bytes_of x.kind ++ (two_bytes_of (length x.body) ++ x.body)

abbrev pub all_bytes : List Extension → Bytes
all_bytes [] = []
all_bytes (x ∷ xs) = extension_bytes x ++ all_bytes xs

abbrev pub IsOther : Extension → Type 0
IsOther x = x.kind ≢ 0

-- One round of the loop, at an extension that ends in time.
abbrev pub one_round : ℕ → Bytes → ℕ → ℕ → ℕ → Bytes → Option (Run Bytes)
one_round fuel b stop p kind body = elim (kind == 0) [
  | true ↦ some (server_name body)
  | false ↦ extensions fuel b stop (p + 4 + length body)
]

extensions-one_round :
    {b : Bytes} (fuel p stop kind : ℕ) (body r : Bytes)
    → Rest b p (two_bytes_of kind ++ (two_bytes_of (length body) ++ (body ++ r)))
    → p + 4 + length body ≤ stop
    → extensions (suc fuel) b stop p ≡ one_round fuel b stop p kind body
unfolding extensions then_go and_then
extensions-one_round {b} fuel p stop kind body r h le =
    let h2 =
      Rest-append p 2 (two_bytes_of kind) (two_bytes_of (length body) ++ (body ++ r)) refl h in
    let h4 = Rest-append (p + 2) 2 (two_bytes_of (length body)) (body ++ r) refl h2 in
    let h4' : Rest b (p + 4) (body ++ r) = subst (λ q. Rest b q (body ++ r)) (four p) h4 in
    let starts : ltb stop (p + 4) ≡ false = ground (arith, le) in
    let ends : ltb stop (p + 4 + length body) ≡ false = ground (arith, le) in
    let kind_word = word_at p kind (two_bytes_of (length body) ++ (body ++ r)) h in
    let length_word = word_at (p + 2) (length body) (body ++ r) h2 in
    elim (Bool-cases (kind == 0)) [
      | inl zero_kind ↦
          rw (starts, kind_word, length_word, ends, one_round, zero_kind)
            (ap (λ x. some (and_then x server_name))
              (slice_at (p + 4) (p + 4 + length body) body r refl h4'))
      | inr other ↦ rw (starts, kind_word, length_word, ends, one_round, other) refl
    ]
  where
    four : (p : ℕ) → p + 2 + 2 ≡ p + 4
    four p = omega arith

extension_append :
    (x : Extension) (r : Bytes)
    → extension_bytes x ++ r
      ≡ two_bytes_of x.kind ++ (two_bytes_of (length x.body) ++ (x.body ++ r))
extension_append x r = refl

-- The loop passes over other extensions, and stops at the server name.
pub extensions_found :
    {b : Bytes} (fuel : ℕ) (xs : List Extension) (p stop : ℕ) (body name trail : Bytes)
    → All IsOther xs
    → length xs < fuel
    → p + length (all_bytes xs) + 4 + length body ≤ stop
    → server_name body ≡ returns name
    → Rest b p (all_bytes xs ++ (extension_bytes (record { kind = 0; body = body }) ++ trail))
    → extensions fuel b stop p ≡ some (returns name)
extensions_found zero xs p stop body name trail o f e n h = absurd (omega (arith, f))
extensions_found {b} (suc fuel) [] p stop body name trail o f e n h =
    extensions-one_round fuel p stop 0 body trail h (omega (arith, e)) ∙ ap some n
extensions_found {b} (suc fuel) (x ∷ xs) p stop body name trail o f e n h =
    let r = all_bytes xs ++ (extension_bytes (record { kind = 0; body = body }) ++ trail) in
    let size = length-append (extension_bytes x) (all_bytes xs) in
    let other : (x.kind == 0) ≡ false = ground (arith, o.0) in
    let h' : Rest b p (extension_bytes x ++ r) =
      subst (Rest b p)
        (append_assoc (extension_bytes x) (all_bytes xs)
          (extension_bytes (record { kind = 0; body = body }) ++ trail))
        h in
    extensions-one_round fuel p stop x.kind x.body r h' (omega (arith, e, size))
    ∙ rw (other, one_round)
        (extensions_found fuel xs (p + 4 + length x.body) stop body name trail o.1
          (omega (arith, f)) (omega (arith, e, size)) n
          (rounded p (length x.body) r
            (Rest-append p (length (extension_bytes x)) (extension_bytes x) r refl h')))
  where
    rounded : (p n : ℕ) (r : Bytes) → Rest b (p + suc (suc (suc (suc n)))) r → Rest b (p + 4 + n) r
    rounded p n r h = subst (λ q. Rest b q r) (four p n) h
      where
        four : (p n : ℕ) → p + suc (suc (suc (suc n))) ≡ p + 4 + n
        four p n = omega arith
