-- ===== src/Attestation/Printed.antt =====
-- `Pin.to_json` of src/vectorpin/attestation.py: the characters of the text.
use vector_pin.Prelude.{
  ℕ, ◌+◌, ◌-◌, ◌/◌, ◌%◌, ◌≡◌, ap, refl, Bool, true, false, ◌||◌, [], ◌∷◌, ◌++◌, Option, none, some,
  all, all-append, any, ltb, arith, if◌then◌else◌,
}
use vector_pin.Outcome.{ok}
use vector_pin.Text.{Text, codes, encode_utf8, encode_pass, utf8_char, is_surrogate}
use vector_pin.Json.{Fields, obj, raw_ascii, unicode_escape}
use vector_pin.Json.Characters.{
  is_printable, unicode_escape-printable, Writes, Clean, CleanFields, dumps-Within,
}
use vector_pin.Attestation.{Pin, Extra}
use vector_pin.Attestation.Base64.{b64}
use vector_pin.Attestation.Encode.{
  of_extra, sorted_items, with_model_hash, with_extra, pin_to_dict, to_json,
}

-- ASCII escapes write every string with printable characters.
raw_ascii-printable : (c : ℕ) → (ltb c 0x20 || all is_printable (raw_ascii c)) ≡ true
unfolding raw_ascii
raw_ascii-printable c = by_range (ltb c 0x7F) refl (ltb c 0x1_0000)
  where
    high : Text
    high = unicode_escape (0xD800 + (c - 0x1_0000) / 1024 % 1024)

    low : Text
    low = unicode_escape (0xDC00 + (c - 0x1_0000) % 1024)

    pair : all is_printable (high ++ low) ≡ true
    pair = ground (
      arith,
      all-append is_printable high low,
      unicode_escape-printable (0xD800 + (c - 0x1_0000) / 1024 % 1024),
      unicode_escape-printable (0xDC00 + (c - 0x1_0000) % 1024),
    )

    by_range :
        (b : Bool)
        → ltb c 0x7F ≡ b
        → (w : Bool)
        → (ltb c 0x20
            || all is_printable (if b then c ∷ [] else if w then unicode_escape c else high ++ low))
          ≡ true
    by_range true e w = ground arith
    by_range false e true = ground (arith, unicode_escape-printable c)
    by_range false e false = ground (arith, pair)

printable_plain : (c : ℕ) → is_printable c ≡ true → is_printable c ≡ true
printable_plain c h = h

writes : (s : Text) → Writes is_printable printable_plain raw_ascii s
writes [] = refl
writes (c ∷ s) = ground (arith, raw_ascii-printable c, writes s)

abbrev CleanAscii : Fields → Type 0
CleanAscii = CleanFields is_printable printable_plain raw_ascii

of_extra-CleanAscii : (m : Extra) → CleanAscii (of_extra m)
unfolding of_extra CleanFields Clean
of_extra-CleanAscii [] = tt
of_extra-CleanAscii ((k, v) ∷ m) = (writes k, writes v, of_extra-CleanAscii m)

with_extra-CleanAscii :
    (m : Extra) (rest : Fields) → CleanAscii rest → CleanAscii (with_extra m rest)
unfolding CleanFields Clean
with_extra-CleanAscii [] rest h = h
with_extra-CleanAscii (e ∷ m) rest h = (writes (codes "extra"), of_extra-CleanAscii (e ∷ m), h)

with_model_hash-CleanAscii :
    (o : Option Text) (rest : Fields) → CleanAscii rest → CleanAscii (with_model_hash o rest)
unfolding CleanFields Clean
with_model_hash-CleanAscii none rest h = h
with_model_hash-CleanAscii (some s) rest h = (writes (codes "model_hash"), writes s, h)

pin_to_dict-CleanAscii : (pin : Pin) → CleanAscii (pin_to_dict pin)
unfolding pin_to_dict CleanFields Clean
pin_to_dict-CleanAscii pin =
    let h = pin.header in
    (
      writes (codes "v"),
      tt,
      (
        writes (codes "kid"),
        writes h.kid,
        (
          writes (codes "model"),
          writes h.model,
          (
            writes (codes "source_hash"),
            writes h.source_hash,
            (
              writes (codes "vec_hash"),
              writes h.vec_hash,
              (
                writes (codes "vec_dtype"),
                writes h.vec_dtype,
                (
                  writes (codes "vec_dim"),
                  tt,
                  (
                    writes (codes "ts"),
                    writes h.ts,
                    with_model_hash-CleanAscii h.model_hash _ (
                        with_extra-CleanAscii (sorted_items h.extra) _
                          (writes (codes "sig"), writes (b64 pin.sig), tt)),
                  ),
                ),
              ),
            ),
          ),
        ),
      ),
    )

encode_pass-printable : (s : Text) → all is_printable s ≡ true → encode_pass s ≡ s
unfolding encode_pass utf8_char
encode_pass-printable [] h = refl
encode_pass-printable (c ∷ s) h = ground (arith, encode_pass-printable s)

is_surrogate-printable : (s : Text) → all is_printable s ≡ true → any is_surrogate s ≡ false
is_surrogate-printable [] h = refl
is_surrogate-printable (c ∷ s) h = ground (arith, is_surrogate-printable s)

encode_utf8-printable : (s : Text) → all is_printable s ≡ true → encode_utf8 s ≡ ok s
unfolding encode_utf8
encode_utf8-printable s h = rw (is_surrogate-printable s h) (ap ok (encode_pass-printable s h))

-- The JSON text of every pin consists of printable ASCII characters, and is its own UTF-8 form.
pub to_json-printable :
    (pin : Pin)
    → (all is_printable (to_json pin) ≡ true) × (encode_utf8 (to_json pin) ≡ ok (to_json pin))
unfolding to_json Clean CleanFields
to_json-printable pin =
    let h : all is_printable (to_json pin) ≡ true =
      dumps-Within is_printable printable_plain raw_ascii (obj (pin_to_dict pin))
        (pin_to_dict-CleanAscii pin) in
    (h, encode_utf8-printable (to_json pin) h)
