-- ===== src/Hash.antt =====
-- src/vectorpin/hash.py: canonical bytes and hashes of vectors and texts.
pub mod Binding
pub mod Files
use vector_pin.Prelude.{
  ℕ, ◌/◌, ◌%◌, Bool, true, false, not, List, [], ◌∷◌, ◌++◌, Option, none, some, ltb, leb, ◌==◌,
  if◌then◌else◌,
}
use vector_pin.Outcome.{Result, ok, err, Exc, ◌>>=◌, ◌>>◌, raise_if, is_value_error}
use vector_pin.Text.{Text, Bytes, codes, encode_utf8}
use vector_pin.Text.Equality.{text_eq}
use vector_pin.Json.{hex_digit}
use vector_pin.Platform.{Platform, Dtype}

abbrev pub f32 : Text
f32 = codes "f32"

abbrev pub f64 : Text
f64 = codes "f64"

-- The `kind` of floating-point dtypes.
abbrev pub float_kind : ℕ
float_kind = b'f'

abbrev pub little_float : ℕ → Dtype
little_float w = record { kind = float_kind; itemsize = w; is_little = true }

unfoldable pub np_dtype : Text → Result Dtype
np_dtype dtype =
    if text_eq dtype f32
    then ok (little_float 4)
    else if text_eq dtype f64
    then ok (little_float 8)
    else err Exc.value_error

unfoldable pub dtype_itemsize : Text → Result ℕ
dtype_itemsize dtype =
    if text_eq dtype f32 then ok 4 else if text_eq dtype f64 then ok 8 else err Exc.value_error

-- `b.hex()`
unfoldable pub hex : Bytes → Text
unfolding hex_digit
hex [] = []
hex (b ∷ r) = hex_digit (b / 16) ∷ hex_digit (b % 16) ∷ hex r

abbrev pub hash_prefix : Text
hash_prefix = codes "sha256:"

-- `len(a.shape) == 1`
abbrev pub is_1d : List ℕ → Bool
is_1d [] = false
is_1d (n ∷ []) = true
is_1d (n ∷ m ∷ r) = false

module _ {K S A : Type 0} (p : Platform K S A) where
  unfoldable pub native_dtype : A → Result Text
  native_dtype vector =
      let dt = p.dtype vector in
      if not (dt.kind == float_kind)
      then err Exc.value_error
      else if leb dt.itemsize 4
      then ok f32
      else if dt.itemsize == 8
      then ok f64
      else err Exc.value_error

  unfoldable pub is_wider_than : A → Text → Result Bool
  unfolding dtype_itemsize
  is_wider_than vector dtype =
      let dt = p.dtype vector in
      if not (dt.kind == float_kind)
      then ok true
      else do width ← dtype_itemsize dtype; ok (ltb width dt.itemsize)

  unfoldable pub canonical_vector_bytes : A → Text → Result Bytes
  unfolding np_dtype
  canonical_vector_bytes vector dtype = do
    raise_if (not (is_1d (p.shape vector))) Exc.value_error
    target ← np_dtype dtype
    ok (p.tobytes (p.astype target vector))

  unfoldable pub hash_bytes : Bytes → Text
  hash_bytes b = hash_prefix ++ hex (p.sha256 b)

  unfoldable pub hash_vector : A → Text → Result Text
  unfolding canonical_vector_bytes hash_bytes
  hash_vector vector dtype = do bytes ← canonical_vector_bytes vector dtype; ok (hash_bytes bytes)

  -- `except UnicodeEncodeError: raise ValueError`
  abbrev pub reraise_value_error : {B : Type 0} → Result B → Result B
  reraise_value_error (ok b) = ok b
  reraise_value_error (err e) = err (if is_value_error e then Exc.value_error else e)

  unfoldable pub hash_text : Text → Result Text
  unfolding hash_bytes
  hash_text text = do
    encoded ← reraise_value_error (encode_utf8 (p.nfc text))
    ok (hash_bytes encoded)
