-- ===== src/Attestation/Checks.antt =====
-- The string checks of attestation.py: `_check_string_safe`, `_check_byte_cap`,
-- `_check_surrogates` and `_check_nfc`.
use vector_pin.Prelude.{ℕ, Bool, not, ◌||◌, [], ◌∷◌, ltb, if◌then◌else◌, length}
use vector_pin.Outcome.{Checked, ok, err, Exc, ◌>>◌, raise_if}
use vector_pin.Text.{Text, between, is_surrogate, encode_pass}
use vector_pin.Text.Equality.{text_eq}
use vector_pin.Platform.{Platform}

abbrev pub is_control : ℕ → Bool
is_control c = ltb c 0x20

abbrev pub is_bidi : ℕ → Bool
is_bidi c = between 0x202A 0x202E c || between 0x2066 0x2069 c

unfoldable pub check_string_safe : Text → Checked
check_string_safe [] = ok tt
check_string_safe (c ∷ value) =
    if is_control c
    then err Exc.value_error
    else if is_bidi c
    then err Exc.value_error
    else if is_surrogate c
    then err Exc.value_error
    else check_string_safe value

unfoldable pub check_byte_cap : Text → ℕ → Checked
check_byte_cap value limit = do
  raise_if (ltb limit (length value)) Exc.value_error
  raise_if (ltb limit (length (encode_pass value))) Exc.value_error

unfoldable pub check_surrogates : Text → Checked
check_surrogates [] = ok tt
check_surrogates (c ∷ value) =
    if is_surrogate c then err Exc.value_error else check_surrogates value

unfoldable pub check_nfc : {K S A : Type 0} → Platform K S A → Text → Checked
check_nfc p value = raise_if (not (text_eq (p.nfc value) value)) Exc.value_error
