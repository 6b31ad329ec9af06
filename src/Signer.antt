-- ===== src/Signer.antt =====
-- src/vectorpin/signer.py: `Signer` and `Signer.pin`.
pub mod RoundTrip
pub mod Domain
pub mod Verifies
pub mod Keys
pub mod Clean
pub mod Returns
use vector_pin.Prelude.{
  ℕ, zero, ℤ, pos, Bool, true, false, not, ◌&&◌, ◌||◌, List, [], ◌∷◌, ◌++◌, Option, none, some,
  ◌==◌, if◌then◌else◌, is_empty,
}
use vector_pin.Outcome.{Result, Checked, ok, err, Exc, ◌>>=◌, ◌>>◌, raise_if}
use vector_pin.Text.{Text, Bytes}
use vector_pin.Text.Equality.{text_eq}
use vector_pin.Dict.{Dict, put}
use vector_pin.Platform.{Platform, Datetime}
use vector_pin.Hash.{f32, f64, is_1d, little_float, native_dtype, hash_text, hash_vector}
use vector_pin.Attestation.{PinHeader, Pin, Extra, protocol_version, domain_tag}
use vector_pin.Attestation.Checks.{check_string_safe, check_nfc}
use vector_pin.Attestation.Encode.{canonicalize}
use vector_pin.Verifier.{Supplied, ndarray, not_array}

pub record Signer (S : Type 0) : Type 0 where
  pub private_key : S
  pub key_id : Text

-- The arguments of `pin`.
pub record PinRequest (A : Type 0) : Type 0 where
  pub source : Text
  pub model : Text
  pub vector : Supplied A
  pub vec_dtype : Option Text
  pub model_hash : Option Text
  pub timestamp : Datetime
  pub extra : Extra

-- `vector.shape[0] == 0`
abbrev pub is_empty_shape : List ℕ → Bool
is_empty_shape [] = false
is_empty_shape (n ∷ r) = n == 0

abbrev pub first_dim : List ℕ → ℕ
first_dim [] = 0
first_dim (n ∷ r) = n

module _ {K S A : Type 0} (p : Platform K S A) where
  -- `_normalize_str`
  unfoldable pub normalize_str : Text → Result Text
  unfolding check_string_safe
  normalize_str value = do let nfc = p.nfc value; check_string_safe nfc; ok nfc

  -- `Signer(private_key, key_id)`
  unfoldable pub new_signer : S → Text → Result (Signer S)
  unfolding normalize_str
  new_signer key key_id = do
    raise_if (is_empty key_id) Exc.value_error
    normalized ← normalize_str key_id
    ok (record { private_key = key; key_id = normalized })

  -- `Signer.from_private_bytes`
  unfoldable pub signer_from_private_bytes : Bytes → Text → Result (Signer S)
  unfolding new_signer
  signer_from_private_bytes raw key_id = do key ← p.from_private_bytes raw; new_signer key key_id

  -- `_sign_with_domain`
  unfoldable pub sign_with_domain : Signer S → Bytes → Bytes → Result Bytes
  sign_with_domain signer tag payload = do
    raise_if (is_empty tag || text_eq tag domain_tag) Exc.value_error
    ok (p.sign signer.private_key (tag ++ payload))

  -- The `vec_dtype` argument, or the array's own
  unfoldable pub choose_dtype : Option Text → A → Result Text
  unfolding native_dtype
  choose_dtype none vector = native_dtype p vector
  choose_dtype (some d) vector =
      if text_eq d f32 || text_eq d f64 then ok d else err Exc.value_error

  -- The dict `extra_norm`
  unfoldable pub normalize_extra : Extra → Extra → Result Extra
  unfolding normalize_str put
  normalize_extra acc [] = ok acc
  normalize_extra acc ((k, v) ∷ m) =
      normalize_str k >>= λ k'. normalize_str v >>= λ v'. normalize_extra (put k' v' acc) m

  -- The array that is hashed, cast to the chosen dtype and finite before and after. The test of
  -- each element as a Python float is part of `all_finite`: the conversion keeps NaN and infinity.
  unfoldable pub cast_vector : A → Text → Result A
  cast_vector vector vec_dtype = do
    let target = little_float (if text_eq vec_dtype f32 then 4 else 8)
    let cast = p.astype target vector
    raise_if (not (p.all_finite cast)) Exc.value_error
    raise_if (not (p.all_finite vector)) Exc.value_error
    ok cast

  unfoldable pub pin_array : Signer S → PinRequest A → A → Result Pin
  unfolding choose_dtype cast_vector normalize_str normalize_extra check_nfc
  pin_array signer r vector = do
    raise_if (not (is_1d (p.shape vector))) Exc.value_error
    raise_if (is_empty_shape (p.shape vector)) Exc.value_error
    vec_dtype ← choose_dtype r.vec_dtype vector
    cast ← cast_vector vector vec_dtype
    model ← normalize_str r.model
    raise_if (is_empty model) Exc.value_error
    extra ← normalize_extra [] r.extra
    let ts = p.strftime_utc r.timestamp
    check_nfc p ts
    source_hash ← hash_text p (p.nfc r.source)
    vec_hash ← hash_vector p cast vec_dtype
    let header : PinHeader = record {
      v = protocol_version;
      kid = signer.key_id;
      model = model;
      source_hash = source_hash;
      vec_hash = vec_hash;
      vec_dtype = vec_dtype;
      vec_dim = pos (first_dim (p.shape cast));
      ts = ts;
      model_hash = r.model_hash;
      extra = extra;
    }
    payload ← canonicalize p header
    ok (record { header = header; sig = p.sign signer.private_key payload })

  -- `Signer.pin`
  unfoldable pub pin : Signer S → PinRequest A → Result Pin
  unfolding pin_array
  pin signer r = elim r.vector [
    | not_array ↦ err Exc.type_error
    | ndarray vector ↦ pin_array signer r vector
  ]
