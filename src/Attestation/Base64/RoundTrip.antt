-- ===== src/Attestation/Base64/RoundTrip.antt =====
-- `_b64` and `_b64dec` of src/vectorpin/attestation.py, one after the other.
use vector_pin.Prelude.{
  ℕ, suc, ◌+◌, ◌*◌, ◌/◌, ◌%◌, ◌<◌, ◌≡◌, ◌↔◌, refl, sym, ap, ◌∙◌, true, false, not, [], ◌∷◌, ◌++◌,
  append-nil, Option, none, some, map, all, ltb, ◌==◌, length, arith, not-false,
}
use vector_pin.Outcome.{ok, Exc, raise_if, raise_if-eq-ok, >>=-eq-ok, ok-injective}
use vector_pin.Text.{Text, Bytes}
use vector_pin.Text.Equality.{text_eq, text_eq_refl, text_eq→eq}
use vector_pin.Attestation.Base64.{
  url_char, b64, is_url_char, b64url_re, to_std, std_value, pad_char, last_group, full_group,
  b64decode, padding, b64dec, from_option,
}

-- A character of the encoding, in the standard alphabet.
abbrev std_char : ℕ → ℕ
std_char n = to_std (url_char n)

std_value-std_char : (n : ℕ) → n < 64 → std_value (std_char n) ≡ some n
unfolding std_value to_std url_char
std_value-std_char n h = ground arith

std_char-ne_pad : (n : ℕ) → n < 64 → (std_char n == pad_char) ≡ false
unfolding to_std url_char
std_char-ne_pad n h = ground arith

url_char-is_url_char : (n : ℕ) → is_url_char (url_char n) ≡ true
unfolding url_char
url_char-is_url_char n = ground arith

padding_four : (n : ℕ) → padding (suc (suc (suc (suc n)))) ≡ padding n
unfolding padding
padding_four n = ground arith

-- The four characters of three bytes.
abbrev c1 : ℕ → ℕ
c1 x = std_char (x / 4)

abbrev c2 : ℕ → ℕ → ℕ
c2 x y = std_char (x % 4 * 16 + y / 16)

abbrev c3 : ℕ → ℕ → ℕ
c3 y z = std_char (y % 16 * 4 + z / 64)

abbrev c4 : ℕ → ℕ
c4 z = std_char (z % 64)

full_group_bytes :
    (x y z : ℕ)
    → x < 256
    → y < 256
    → z < 256
    → full_group (c1 x) (c2 x y) (c3 y z) (c4 z) ≡ some (x ∷ y ∷ z ∷ [])
unfolding full_group
full_group_bytes x y z hx hy hz =
    let first : x / 4 * 4 + (x % 4 * 16 + y / 16) / 16 ≡ x = omega arith in
    let second : (x % 4 * 16 + y / 16) % 16 * 16 + (y % 16 * 4 + z / 64) / 4 ≡ y = omega arith in
    let third : (y % 16 * 4 + z / 64) % 4 * 64 + z % 64 ≡ z = omega arith in
    rw (
      std_value-std_char (x / 4) (omega arith),
      std_value-std_char (x % 4 * 16 + y / 16) (omega arith),
      std_value-std_char (y % 16 * 4 + z / 64) (omega arith),
      std_value-std_char (z % 64) (omega arith),
      first,
      second,
      third,
    )

last_group_full : (a b c d : ℕ) → (d == pad_char) ≡ false → last_group a b c d ≡ full_group a b c d
unfolding last_group full_group
last_group_full a b c d h = rw h

some_nil : {y : Bytes} → some [] ≡ some y → [] ≡ y
some_nil {y} h = ap (λ (o : Option Bytes). elim o [ none ↦ [] | some z ↦ z ]) h

last_one :
    (x : ℕ) → x < 256 → last_group (c1 x) (std_char (x % 4 * 16)) pad_char pad_char ≡ some (x ∷ [])
unfolding last_group
last_one x hx =
    let first : x / 4 * 4 + x % 4 * 16 / 16 ≡ x = omega arith in
    rw (
      std_value-std_char (x / 4) (omega arith),
      std_value-std_char (x % 4 * 16) (omega arith),
      first,
    )

last_two :
    (x y : ℕ)
    → x < 256
    → y < 256
    → last_group (c1 x) (c2 x y) (std_char (y % 16 * 4)) pad_char ≡ some (x ∷ y ∷ [])
unfolding last_group
last_two x y hx hy =
    let first : x / 4 * 4 + (x % 4 * 16 + y / 16) / 16 ≡ x = omega arith in
    let second : (x % 4 * 16 + y / 16) % 16 * 16 + y % 16 * 4 / 4 ≡ y = omega arith in
    rw (
      std_value-std_char (x / 4) (omega arith),
      std_value-std_char (x % 4 * 16 + y / 16) (omega arith),
      std_char-ne_pad (y % 16 * 4) (omega arith),
      std_value-std_char (y % 16 * 4) (omega arith),
      first,
      second,
    )

-- A group with a text behind it.
b64decode_step :
    (a b c d : ℕ) (s : Text) (x y : Bytes)
    → (d == pad_char) ≡ false
    → full_group a b c d ≡ some x
    → b64decode s ≡ some y
    → b64decode (a ∷ b ∷ c ∷ d ∷ s) ≡ some (x ++ y)
unfolding b64decode
b64decode_step a b c d [] x y h e f =
    last_group_full a b c d h ∙ e ∙ ap some (sym (append-nil x) ∙ ap (λ z. x ++ z) (some_nil f))
b64decode_step a b c d (u ∷ s) x y h e f = rw (e, f)

b64decode-b64 :
    (b : Bytes)
    → all (λ c. ltb c 256) b ≡ true
    → b64decode (map to_std (b64 b) ++ padding (length (b64 b))) ≡ some b
unfolding b64 b64decode padding
b64decode-b64 [] h = refl
b64decode-b64 (x ∷ []) h = last_one x (ground arith)
b64decode-b64 (x ∷ y ∷ []) h = last_two x y (ground arith) (ground arith)
b64decode-b64 (x ∷ y ∷ z ∷ r) h =
    ap (λ (s : Text). b64decode (c1 x ∷ c2 x y ∷ c3 y z ∷ c4 z ∷ (map to_std (b64 r) ++ s)))
      (padding_four (length (b64 r)))
    ∙ b64decode_step (c1 x) (c2 x y) (c3 y z) (c4 z)
        (map to_std (b64 r) ++ padding (length (b64 r))) (x ∷ y ∷ z ∷ []) r
        (std_char-ne_pad (z % 64) (omega arith))
        (full_group_bytes x y z (ground arith) (ground arith) (ground arith))
        (b64decode-b64 r (ground arith))

b64url_re_cons :
    (c : ℕ) (s : Text) → is_url_char c ≡ true → b64url_re s ≡ true → b64url_re (c ∷ s) ≡ true
unfolding b64url_re
b64url_re_cons c [] h e = rw h
b64url_re_cons c (d ∷ s) h e = rw (h, e)

b64url_re-b64 : (b : Bytes) → b64url_re (b64 b) ≡ true
unfolding b64 b64url_re
b64url_re-b64 [] = refl
b64url_re-b64 (x ∷ []) = rw (url_char-is_url_char (x / 4), url_char-is_url_char (x % 4 * 16))
b64url_re-b64 (x ∷ y ∷ []) = rw (
  url_char-is_url_char (x / 4),
  url_char-is_url_char (x % 4 * 16 + y / 16),
  url_char-is_url_char (y % 16 * 4),
)
b64url_re-b64 (x ∷ y ∷ z ∷ r) = rw (
  url_char-is_url_char (x / 4),
  url_char-is_url_char (x % 4 * 16 + y / 16),
  url_char-is_url_char (y % 16 * 4 + z / 64),
  b64url_re_cons (url_char (z % 64)) (b64 r) (url_char-is_url_char (z % 64)) (b64url_re-b64 r),
)

length-b64 : (b : Bytes) → (length (b64 b) % 4 == 1) ≡ false
unfolding b64
length-b64 [] = refl
length-b64 (x ∷ []) = refl
length-b64 (x ∷ y ∷ []) = refl
length-b64 (x ∷ y ∷ z ∷ r) = ground (arith, length-b64 r)

-- Decoding the encoding of bytes gives the bytes back.
b64dec-b64 : (b : Bytes) → all (λ c. ltb c 256) b ≡ true → b64dec (b64 b) ≡ ok b
unfolding b64dec
b64dec-b64 b h = rw (b64url_re-b64 b, length-b64 b, b64decode-b64 b h, text_eq_refl (b64 b))

-- What is decoded has one encoding: a text that `_b64dec` accepts is the encoding of its bytes.
pub b64dec-eq-ok : (s : Text) (b : Bytes) → b64dec s ≡ ok b → b64 b ≡ s
unfolding b64dec
b64dec-eq-ok s b h =
    let (_, _, h) = >>=-eq-ok (raise_if (not (b64url_re s)) Exc.value_error) _ h in
    let (_, _, h) = >>=-eq-ok (raise_if (length s % 4 == 1) Exc.value_error) _ h in
    let (d, _, h) = >>=-eq-ok (from_option (b64decode (map to_std s ++ padding (length s)))) _ h in
    let (_, e, h) = >>=-eq-ok (raise_if (not (text_eq (b64 d) s)) Exc.value_error) _ h in
    ap b64 (sym (ok-injective h))
    ∙ text_eq→eq (b64 d) s (not-false _ (raise_if-eq-ok _ Exc.value_error e))

-- On bytes, `_b64dec` is the inverse of `_b64` and accepts nothing else: a text decodes to the
-- bytes exactly when it is their encoding.
pub b64dec_iff :
    (s : Text) (b : Bytes) → all (λ c. ltb c 256) b ≡ true → (b64dec s ≡ ok b) ↔ (s ≡ b64 b)
b64dec_iff s b h = (λ e. sym (b64dec-eq-ok s b e), λ e. ap b64dec e ∙ b64dec-b64 b h)
