-- ===== src/Attestation/Parse/Sizes.antt =====
-- The size of a parsed pin's dict, against the limit of `_check_dict_size`.
use vector_pin.Prelude.{
  ℕ, zero, suc, ◌+◌, ◌-◌, ◌*◌, ◌≤◌, ◌≡◌, refl, Bool, true, false, [], ◌∷◌, Option, none, some,
  length, arith, All,
}
use vector_pin.Outcome.{ok}
use vector_pin.Text.{Text, codes, encode_pass, utf8_char}
use vector_pin.Json.{Fields, end, field}
use vector_pin.Attestation.{Extra, max_pin_json_bytes, max_extra_key_bytes, max_extra_value_bytes}
use vector_pin.Attestation.Encode.{of_extra}
use vector_pin.Attestation.Pattern.{
  ◌>>=◌, hash_re, ts_re, read_stamp, Stamp, literal, repeated, two_digits, is_lower_hex, at_end,
  holds_at_end,
}
use vector_pin.Attestation.Parse.{fields_length, dict_text_size, value_size, check_dict_size}
use vector_pin.Attestation.Parse.Extras.{EntryFits}

-- The total that `_check_dict_size` reaches.
unfoldable pub dict_size : Fields → ℕ
dict_size end = 0
dict_size (field k v fs) = length k + value_size v + dict_size fs

pub check_dict_size_within :
    (total : ℕ) (fs : Fields)
    → total + dict_size fs ≤ max_pin_json_bytes
    → check_dict_size total fs ≡ ok tt
unfolding check_dict_size dict_size
check_dict_size_within total end h = refl
check_dict_size_within total (field k v fs) h =
    ground (arith, check_dict_size_within (total + length k + value_size v) fs)

pub length-encode_pass : (s : Text) → length s ≤ length (encode_pass s)
unfolding encode_pass utf8_char
length-encode_pass [] = omega arith
length-encode_pass (c ∷ s) = ground (arith, length-encode_pass s)

pub dict_text_size-of_extra :
    (m : Extra)
    → All EntryFits m
    → dict_text_size (of_extra m) ≤ length m * (max_extra_key_bytes + max_extra_value_bytes)
unfolding dict_text_size of_extra
dict_text_size-of_extra [] a = omega arith
dict_text_size-of_extra ((k, v) ∷ m) a =
    omega (
      arith,
      length-encode_pass k,
      length-encode_pass v,
      dict_text_size-of_extra m a.1,
      a.0.0,
      a.0.1,
    )

pub fields_length-of_extra : (m : Extra) → fields_length (of_extra m) ≡ length m
unfolding fields_length of_extra
fields_length-of_extra [] = refl
fields_length-of_extra (e ∷ m) = omega (arith, fields_length-of_extra m)

length-literal : (l s r : Text) → literal l s ≡ some r → length s ≡ length l + length r
unfolding literal
length-literal [] s r h = ground arith
length-literal (c ∷ l) [] r h = cc
length-literal (c ∷ l) (d ∷ s) r h = ground (arith, length-literal l s r)

length-repeated :
    (q : ℕ → Bool) (n : ℕ) (s r : Text) → repeated q n s ≡ some r → length s ≡ n + length r
unfolding repeated
length-repeated q zero s r h = ground arith
length-repeated q (suc n) [] r h = cc
length-repeated q (suc n) (c ∷ s) r h = ground (arith, length-repeated q n s r)

length-at_end : (s : Text) → at_end s ≡ true → length s ≤ 1
length-at_end [] h = omega arith
length-at_end (c ∷ []) h = omega arith
length-at_end (c ∷ d ∷ s) h = cc

pub >>=-eq-some :
    {A B : Type 0} (o : Option A) (next : A → Option B) {b : B}
    → o >>= next ≡ some b
    → (a : A) × (o ≡ some a) × (next a ≡ some b)
>>=-eq-some none next h = cc
>>=-eq-some (some a) next h = (a, refl, h)

holds_at_end-eq-true :
    (o : Option Text) → holds_at_end o ≡ true → (r : Text) × (o ≡ some r) × (length r ≤ 1)
holds_at_end-eq-true none h = cc
holds_at_end-eq-true (some r) h = (r, refl, length-at_end r h)

pub length-hash_re : (s : Text) → hash_re s ≡ true → length s ≤ 72
unfolding hash_re
length-hash_re s h =
    let (u, e, n) =
      holds_at_end-eq-true (literal (codes "sha256:") s >>= λ r. repeated is_lower_hex 64 r) h in
    let (r, f, g) = >>=-eq-some (literal (codes "sha256:") s) _ e in
    omega (arith, length-literal (codes "sha256:") s r f, length-repeated is_lower_hex 64 r u g)

-- One step of the pattern, before a rest of which the length is bounded.
module _ (t : Stamp) (n : ℕ) where
  two_digits_then :
      (next : ℕ × Text → Option Stamp)
      → ((x : ℕ) (r : Text) → next (x, r) ≡ some t → length r ≤ length t.rest + n)
      → (s : Text) → two_digits s >>= next ≡ some t
      → length s ≤ length t.rest + (n + 2)
  unfolding two_digits
  two_digits_then next k [] h = cc
  two_digits_then next k (a ∷ []) h = cc
  two_digits_then next k (a ∷ b ∷ s) h = ground (arith, k ((a - b'0') * 10 + (b - b'0')) s)

  literal_then :
      (c : ℕ) (next : Text → Option Stamp)
      → ((r : Text) → next r ≡ some t → length r ≤ length t.rest + n)
      → (s : Text) → literal (c ∷ []) s >>= next ≡ some t
      → length s ≤ length t.rest + (n + 1)
  unfolding literal
  literal_then c next k [] h = cc
  literal_then c next k (d ∷ s) h = ground (arith, k s)

stamp_rest :
    (o : Option Stamp)
    → elim o [ none ↦ false | some t ↦ at_end t.rest ] ≡ true
    → (t : Stamp) × (o ≡ some t) × (length t.rest ≤ 1)
stamp_rest none h = cc
stamp_rest (some t) h = (t, refl, length-at_end t.rest h)

rest_eq : (a t : Stamp) → some a ≡ some t → length a.rest ≤ length t.rest + 0
rest_eq a t h = ground arith

pub length-ts_re : (s : Text) → ts_re s ≡ true → length s ≤ 21
unfolding ts_re read_stamp
length-ts_re s h =
    let (t, e, m) = stamp_rest (read_stamp s) h in
    let n : length s ≤ length t.rest + 20 =
      two_digits_then t 18 _
        (λ _. two_digits_then t 16 _ (λ _. literal_then t 15 b'-' _ (
          two_digits_then t 13 _ (λ _. literal_then t 12 b'-' _ (
            two_digits_then t 10 _ (λ _. literal_then t 9 b'T' _ (
              two_digits_then t 7 _ (λ _. literal_then t 6 b':' _ (
                two_digits_then t 4 _ (λ _. literal_then t 3 b':' _ (
                  two_digits_then t 1 _
                    (λ _. literal_then t 0 b'Z' _ (λ r q. rest_eq _ t q)))))))))))))
        s e in
    omega arith
