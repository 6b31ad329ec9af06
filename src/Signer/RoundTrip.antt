-- ===== src/Signer/RoundTrip.antt =====
-- `Signer.pin` of src/vectorpin/signer.py: the pin that it returns.
use vector_pin.Prelude.{pos, ◌≡◌, refl, subst, true, false, not, [], is_empty, not-false}
use vector_pin.Outcome.{ok, >>=-eq-ok, raise_if-eq-ok, ok-injective, raise_if, Exc}
use vector_pin.Text.{Text, Bytes}
use vector_pin.Platform.{Platform}
use vector_pin.Hash.{is_1d, hash_text, hash_vector}
use vector_pin.Attestation.{PinHeader, Pin, Extra, protocol_version}
use vector_pin.Attestation.Encode.{canonicalize}
use vector_pin.Signer.{
  Signer, PinRequest, pin_array, choose_dtype, cast_vector, normalize_str, normalize_extra,
  is_empty_shape, first_dim,
}
use vector_pin.Attestation.Checks.{check_nfc}

-- What `pin_array` commits to when it returns.
pub record Commits {K S A : Type 0} (p : Platform K S A) (signer : Signer S) (r : PinRequest A)
    (vector : A) (pin : Pin) : Type 0 where
  pub cast : A
  pub is_cast : cast_vector p vector pin.header.vec_dtype ≡ ok cast
  pub one_dim : is_1d (p.shape vector) ≡ true
  pub nonempty : is_empty_shape (p.shape vector) ≡ false
  pub chosen : choose_dtype p r.vec_dtype vector ≡ ok pin.header.vec_dtype
  pub version : pin.header.v ≡ protocol_version
  pub kid : pin.header.kid ≡ signer.key_id
  pub model : normalize_str p r.model ≡ ok pin.header.model
  pub model_nonempty : is_empty pin.header.model ≡ false
  pub model_hash : pin.header.model_hash ≡ r.model_hash
  pub extra : normalize_extra p [] r.extra ≡ ok pin.header.extra
  pub source_hash : hash_text p (p.nfc r.source) ≡ ok pin.header.source_hash
  pub vec_hash : hash_vector p cast pin.header.vec_dtype ≡ ok pin.header.vec_hash
  pub vec_dim : pin.header.vec_dim ≡ pos (first_dim (p.shape cast))
  pub ts : pin.header.ts ≡ p.strftime_utc r.timestamp
  pub payload : Bytes
  pub is_payload : canonicalize p pin.header ≡ ok payload
  pub sig : pin.sig ≡ p.sign signer.private_key payload

module _ {K S A : Type 0} (p : Platform K S A) (signer : Signer S) (r : PinRequest A)
    (vector : A) where
  abbrev header : Text → A → Text → Extra → Text → Text → PinHeader
  header dtype cast model extra sh vh = record {
    v = protocol_version;
    kid = signer.key_id;
    model = model;
    source_hash = sh;
    vec_hash = vh;
    vec_dtype = dtype;
    vec_dim = pos (first_dim (p.shape cast));
    ts = p.strftime_utc r.timestamp;
    model_hash = r.model_hash;
    extra = extra;
  }

  -- When `pin_array` returns a pin: the array is one-dimensional and not empty, the dtype is the
  -- one asked for or the array's own, the cast is finite, model and extra are the normalized
  -- arguments, the hashes are those of the source and of the cast array, `vec_dim` is its length,
  -- version, key id, timestamp and model hash are those of the request and the signer, and the
  -- signature is the signer's over the canonical bytes of the header.
  pub pin_array-Commits :
      (pin : Pin) → pin_array p signer r vector ≡ ok pin → Commits p signer r vector pin
  unfolding pin_array
  pin_array-Commits pin h =
      let (_, e1, h) = >>=-eq-ok (raise_if (not (is_1d (p.shape vector))) Exc.value_error) _ h in
      let (_, e2, h) = >>=-eq-ok (raise_if (is_empty_shape (p.shape vector)) Exc.value_error) _ h in
      let (dtype, e3, h) = >>=-eq-ok (choose_dtype p r.vec_dtype vector) _ h in
      let (cast, e4, h) = >>=-eq-ok (cast_vector p vector dtype) _ h in
      let (model, e5, h) = >>=-eq-ok (normalize_str p r.model) _ h in
      let (_, e6, h) = >>=-eq-ok (raise_if (is_empty model) Exc.value_error) _ h in
      let (extra, e7, h) = >>=-eq-ok (normalize_extra p [] r.extra) _ h in
      let (_, e8, h) = >>=-eq-ok (check_nfc p (p.strftime_utc r.timestamp)) _ h in
      let (sh, e9, h) = >>=-eq-ok (hash_text p (p.nfc r.source)) _ h in
      let (vh, e10, h) = >>=-eq-ok (hash_vector p cast dtype) _ h in
      let (payload, e11, h) =
        >>=-eq-ok (canonicalize p (header dtype cast model extra sh vh)) _ h in
      subst (λ q. Commits p signer r vector q) (ok-injective h)
        (record {
          cast = cast;
          is_cast = e4;
          one_dim = not-false _ (raise_if-eq-ok _ Exc.value_error e1);
          nonempty = raise_if-eq-ok _ Exc.value_error e2;
          chosen = e3;
          version = refl;
          kid = refl;
          model = e5;
          model_nonempty = raise_if-eq-ok _ Exc.value_error e6;
          model_hash = refl;
          extra = e7;
          source_hash = e9;
          vec_hash = e10;
          vec_dim = refl;
          ts = refl;
          payload = payload;
          is_payload = e11;
          sig = refl;
        })
