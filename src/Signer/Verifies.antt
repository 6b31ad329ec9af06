-- ===== src/Signer/Verifies.antt =====
-- `Signer.pin` of src/vectorpin/signer.py, read by `Verifier.verify` of src/vectorpin/verifier.py.
use vector_pin.Prelude.{
  ℕ, pos, ◌≡◌, refl, sym, ap, ◌∙◌, subst, true, false, not, ◌⊎◌, List, [], ◌∷◌, Option, none, some,
  arith, inl, inr, if◌then◌else◌, not-false,
}
use vector_pin.Outcome.{ok, >>=-eq-ok, raise_if-eq-ok, ok-injective, raise_if, Exc}
use vector_pin.Text.{Text}
use vector_pin.Text.Equality.{text_eq, text_eq→eq}
use vector_pin.Dict.{lookup}
use vector_pin.Platform.{Platform, PlatformLaws}
use vector_pin.Hash.{
  f32, f64, is_1d, little_float, native_dtype, hash_text, hash_vector, is_wider_than,
}
use vector_pin.Attestation.{Pin, protocol_version}
use vector_pin.Attestation.Encode.{canonicalize}
use vector_pin.Attestation.Parse.{elem_ℤ}
use vector_pin.Signer.{Signer, PinRequest, pin, choose_dtype, cast_vector, first_dim}
use vector_pin.Signer.RoundTrip.{Commits, pin_array-Commits}
use vector_pin.Verifier.{Verifier, ndarray, Expected, accepted, verify, canonical_for}
use vector_pin.Verifier.Accepts.{ArrayAgrees}
use vector_pin.Verifier.Refinement.{verify_refines}

-- The element width of a pinned dtype.
abbrev pub width_of : Text → ℕ
width_of d = if text_eq d f32 then 4 else 8

-- The ground truth that is checked: the source, the stored array and the model.
abbrev pub ground_truth : {A : Type 0} → Text → A → Text → Expected A
ground_truth source stored model = record {
  source = some source;
  vector = some (ndarray stored);
  model = some model;
  model_hash = none;
  record_id = none;
  collection_id = none;
  tenant_id = none;
  trusted_time = none;
}

module _ {K S A : Type 0} (p : Platform K S A) (laws : PlatformLaws p) where
  pub dtype_cases :
      (o : Option Text) (a : A) (d : Text) → choose_dtype p o a ≡ ok d → (d ≡ f32) ⊎ (d ≡ f64)
  unfolding choose_dtype native_dtype
  dtype_cases none a d h = ground arith
  dtype_cases (some e) a d h = ground (arith, text_eq→eq e f32, text_eq→eq e f64)

  not_wider :
      (a : A) (d : Text)
      → (d ≡ f32) ⊎ (d ≡ f64)
      → p.dtype a ≡ little_float (width_of d)
      → is_wider_than p a d ≡ ok false
  unfolding is_wider_than
  not_wider a d (inl e) h = rw (h, e)
  not_wider a d (inr e) h = rw (h, e)

  cast_facts :
      (a : A) (d : Text) (c : A)
      → cast_vector p a d ≡ ok c
      → (c ≡ p.astype (little_float (width_of d)) a) × (p.all_finite c ≡ true)
  unfolding cast_vector
  cast_facts a d c h =
      let (_, e1, h) =
        >>=-eq-ok
          (raise_if (not (p.all_finite (p.astype (little_float (width_of d)) a))) Exc.value_error) _
          h in
      let (_, e2, h) = >>=-eq-ok (raise_if (not (p.all_finite a)) Exc.value_error) _ h in
      let same = ok-injective h in
      (
        sym same,
        subst (λ z. p.all_finite z ≡ true) same (not-false _ (raise_if-eq-ok _ Exc.value_error e1)),
      )

  one_dim_shape : (s : List ℕ) → is_1d s ≡ true → s ≡ first_dim s ∷ []
  one_dim_shape [] h = cc
  one_dim_shape (n ∷ []) h = refl
  one_dim_shape (n ∷ m ∷ s) h = cc

  stored_agrees :
      (signer : Signer S) (r : PinRequest A) (vector : A) (q : Pin)
      → Commits p signer r vector q
      → ArrayAgrees p q.header (p.astype (little_float (width_of q.header.vec_dtype)) vector)
  stored_agrees signer r vector q c =
      let d = q.header.vec_dtype in
      let stored = p.astype (little_float (width_of d)) vector in
      let (same, finite) = cast_facts vector d c.cast c.is_cast in
      let shape : p.shape stored ≡ p.shape vector =
        laws.shape_astype (little_float (width_of d)) vector in
      (
        (
          first_dim (p.shape stored),
          one_dim_shape (p.shape stored) (rw shape c.one_dim),
          rw c.vec_dim (ap (λ z. pos (first_dim (p.shape z))) (sym same)),
        ),
        not_wider stored d (dtype_cases r.vec_dtype vector d c.chosen)
            (laws.dtype_astype (little_float (width_of d)) vector),
        subst (λ z. p.all_finite z ≡ true) same finite,
        subst (λ z. hash_vector p z d ≡ ok q.header.vec_hash) same c.vec_hash,
      )

  hash_text-nfc : (s : Text) → hash_text p (p.nfc s) ≡ hash_text p s
  unfolding hash_text
  hash_text-nfc s = rw (laws.nfc_idem s)

  canonical_current :
      (q : Pin) → q.header.v ≡ protocol_version → canonical_for p q ≡ canonicalize p q.header
  unfolding canonical_for
  canonical_current q e = rw e

  -- A pin that `Signer.pin` returns verifies against the source that it was made from, the model
  -- that it names and the array cast to the pinned dtype, under every verifier that accepts
  -- protocol 2 and holds the signer's public key without a validity window.
  pub pin_verifies :
      (signer : Signer S) (r : PinRequest A) (vector : A) (q : Pin) (vf : Verifier K)
      → r.vector ≡ ndarray vector
      → pin p signer r ≡ ok q
      → elem_ℤ protocol_version (accepted vf) ≡ true
      → lookup signer.key_id vf.keys
        ≡ some (record {
          public_key = p.public_key signer.private_key;
          valid_from = none;
          valid_until = none;
        })
      → (verify p vf q (
          ground_truth r.source
            (p.astype (little_float (width_of q.header.vec_dtype)) vector)
            q.header.model)).is_ok
        ≡ true
  unfolding pin
  pin_verifies signer r vector q vf is_array pinned versions known =
      let c = pin_array-Commits p signer r vector q (rw is_array at pinned) in
      (verify_refines p vf q _).1 (record {
        version = rw c.version versions;
        sig_length = rw c.sig (laws.sign_length signer.private_key c.payload);
        registered = record {
          public_key = p.public_key signer.private_key;
          valid_from = none;
          valid_until = none;
        };
        found = rw c.kid known;
        in_window = inl (refl, refl, refl);
        trusted_aware = λ t e. cc;
        signed = (
          c.payload,
          canonical_current q c.version ∙ c.is_payload,
          rw c.sig (laws.sign_verifies signer.private_key c.payload),
        );
        source = sym (hash_text-nfc r.source) ∙ c.source_hash;
        vector = stored_agrees signer r vector q c;
        model = refl;
        model_hash = tt;
        record_id = tt;
        collection_id = tt;
        tenant_id = tt;
      })
