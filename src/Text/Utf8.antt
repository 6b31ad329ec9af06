-- ===== src/Text/Utf8.antt =====
-- `str.encode("utf-8")`: what its bytes say of the text.
use vector_pin.Prelude.{◌≡◌, refl, sym, ◌∙◌, false, [], ◌∷◌, ◌++◌, arith, any, ℕ}
use vector_pin.Outcome.{ok}
use vector_pin.Text.{Bytes, Text, utf8_char, encode_pass, encode_utf8, is_surrogate}

-- The first character of an encoded text is determined by the bytes, and so is the rest.
pub utf8_char-append_injective :
    (c d : ℕ) (x y : Bytes) → utf8_char c ++ x ≡ utf8_char d ++ y → (c ≡ d) × (x ≡ y)
unfolding utf8_char
utf8_char-append_injective c d x y h = ground arith

utf8_char-ne_nil : (c : ℕ) (x : Bytes) → utf8_char c ++ x ≡ [] → ⊥
unfolding utf8_char
utf8_char-ne_nil c x h = ground arith

pub encode_pass_injective : (s t : Text) → encode_pass s ≡ encode_pass t → s ≡ t
unfolding encode_pass
encode_pass_injective [] [] h = refl
encode_pass_injective [] (d ∷ t) h = absurd (utf8_char-ne_nil d (encode_pass t) (sym h))
encode_pass_injective (c ∷ s) [] h = absurd (utf8_char-ne_nil c (encode_pass s) h)
encode_pass_injective (c ∷ s) (d ∷ t) h =
    let (e, r) = utf8_char-append_injective c d (encode_pass s) (encode_pass t) h in
    cc (e, encode_pass_injective s t r)

-- A text that encodes has no lone surrogate, and its bytes are those of `encode_pass`.
pub encode_utf8-eq-ok :
    (s : Text) (b : Bytes)
    → encode_utf8 s ≡ ok b
    → (any is_surrogate s ≡ false) × (encode_pass s ≡ b)
unfolding encode_utf8
encode_utf8-eq-ok s b h = ground arith

pub encode_utf8_injective :
    (s t : Text) (b : Bytes) → encode_utf8 s ≡ ok b → encode_utf8 t ≡ ok b → s ≡ t
encode_utf8_injective s t b hs ht =
    encode_pass_injective s t ((encode_utf8-eq-ok s b hs).1 ∙ sym (encode_utf8-eq-ok t b ht).1)
