-- ===== src/Cli/Commands.antt =====
-- `_cmd_verify_pin` of src/vectorpin/cli.py: its exit codes.
use vector_pin.Prelude.{ℕ, ◌≡◌, refl, Bool, true, [], ◌∷◌, Option, none, some, if◌then◌else◌, arith}
use vector_pin.Outcome.{Result, ok, err, Exc, ◌>>=◌, >>=-eq-ok, ok-injective, is_value_error}
use vector_pin.Text.{Text}
use vector_pin.Platform.{Platform}
use vector_pin.Attestation.{Pin, protocol_version}
use vector_pin.Attestation.Parse.{from_json}
use vector_pin.Verifier.{Verifier, ndarray, Expected}
use vector_pin.Verifier.Accepts.{Accepts}
use vector_pin.Verifier.Refinement.{verify_refines}
use vector_pin.Cli.{
  Inputs, VerifyArgs, read_if, load_vector, one_key_verifier, verify_parsed, or_parse_error,
  cmd_verify_pin,
}

-- The ground truth that the flags of `verify-pin` name.
abbrev pub truth_of : {A : Type 0} → VerifyArgs → Option Text → Option A → Expected A
truth_of a source vector = record {
  source = source;
  vector = elim vector [ none ↦ none | some v ↦ some (ndarray v) ];
  model = a.expected_model;
  model_hash = a.expected_model_hash;
  record_id = a.record_id;
  collection_id = a.collection_id;
  tenant_id = a.tenant_id;
  trusted_time = none;
}

module _ {K S A : Type 0} (p : Platform K S A) (i : Inputs A) (a : VerifyArgs) where
  -- The pin file parses, the named files are read, and the pin is accepted.
  pub record Verified : Type 0 where
    pub verifier : Verifier K
    pub is_verifier : one_key_verifier p i a.public_key a.key_id ≡ ok verifier
    pub pin_text : Text
    pub is_pin_text : i.read_text a.pin ≡ ok pin_text
    pub signed : Pin
    pub is_signed : from_json p (protocol_version ∷ []) pin_text ≡ ok signed
    pub source : Option Text
    pub is_source : read_if i.read_text a.source ≡ ok source
    pub vector : Option A
    pub is_vector : read_if (λ path. load_vector p i path a.vector_dtype) a.vector ≡ ok vector
    pub accepted : Accepts p verifier signed (truth_of a source vector)

  code_zero : (b : Bool) (code : ℕ) → (if b then 0 else 2) ≡ code → code ≡ 0 → b ≡ true
  code_zero b code h z = ground arith

  refused :
      (x : Exc) (code : ℕ) → (if is_value_error x then ok 2 else err x) ≡ ok code → code ≡ 0 → ⊥
  refused x code h z = ground arith

  Verified_of : (code : ℕ) → cmd_verify_pin p i a ≡ ok code → code ≡ 0 → Verified
  unfolding cmd_verify_pin verify_parsed
  Verified_of code h z =
      let (vf, e, h) = >>=-eq-ok (one_key_verifier p i a.public_key a.key_id) _ h in
      go vf e (i.read_text a.pin) refl h
    where
      parsed :
          (vf : Verifier K) (text : Text) (r : Result Pin)
          → one_key_verifier p i a.public_key a.key_id ≡ ok vf
          → i.read_text a.pin ≡ ok text
          → from_json p (protocol_version ∷ []) text ≡ r
          → or_parse_error p i r (verify_parsed p i a vf) ≡ ok code
          → Verified
      parsed vf text (err x) e q f h = absurd (refused x code h z)
      parsed vf text (ok signed) e q f h =
          let (source, e1, h) = >>=-eq-ok (read_if i.read_text a.source) _ h in
          let (vector, e2, h) =
            >>=-eq-ok (read_if (λ path. load_vector p i path a.vector_dtype) a.vector) _ h in
          record {
            verifier = vf;
            is_verifier = e;
            pin_text = text;
            is_pin_text = q;
            signed = signed;
            is_signed = f;
            source = source;
            is_source = e1;
            vector = vector;
            is_vector = e2;
            accepted =
                (verify_refines p vf signed (truth_of a source vector)).0
                  (code_zero _ code (ok-injective h) z);
          }

      go :
          (vf : Verifier K)
          → one_key_verifier p i a.public_key a.key_id ≡ ok vf
          → (r : Result Text) → i.read_text a.pin ≡ r
          → or_parse_error p i
              (r >>= λ text. from_json p (protocol_version ∷ []) text)
              (verify_parsed p i a vf)
            ≡ ok code
          → Verified
      go vf e (err x) q h = absurd (refused x code h z)
      go vf e (ok text) q h = parsed vf text (from_json p (protocol_version ∷ []) text) e q refl h

  zero_of_Verified : Verified → cmd_verify_pin p i a ≡ ok 0
  unfolding cmd_verify_pin verify_parsed
  zero_of_Verified v =
      let good =
        (verify_refines p v.verifier v.signed (truth_of a v.source v.vector)).1 v.accepted in
      rw (v.is_verifier, v.is_pin_text, v.is_signed, v.is_source, v.is_vector, good)

  -- `verify-pin` exits with 0 exactly when the key file makes a verifier, the pin file parses as a
  -- pin of protocol 2, the source and vector files that are named are read, and the verifier
  -- accepts the pin against them and the identifiers of the flags.
  pub cmd_verify_pin_iff :
      (cmd_verify_pin p i a ≡ ok 0 → Verified) × (Verified → cmd_verify_pin p i a ≡ ok 0)
  cmd_verify_pin_iff = (λ h. Verified_of 0 h refl, zero_of_Verified)
