-- ===== src/Verifier.antt =====
-- src/vectorpin/verifier.py: the key registry and `Verifier.verify`.
pub mod Rotation
pub mod Steps
pub mod Accepts
pub mod Checks
pub mod Vectors
pub mod Refinement
pub mod Codes
pub mod Faults
pub mod Meaning
pub mod Diagnosis
pub mod Tampering
use vector_pin.Prelude.{
  ℕ, ℤ, pos, eqb_ℤ, Bool, true, false, not, ◌&&◌, ◌||◌, List, [], ◌∷◌, ◌++◌, Option, none, some,
  ltb, leb, ◌==◌, if◌then◌else◌, length,
}
use vector_pin.Outcome.{Result, Checked, ok, err, Exc, ◌>>=◌, ◌>>◌, raise_if, is_value_error}
use vector_pin.Text.{Text, Bytes, codes}
use vector_pin.Text.Equality.{text_eq, option_eq}
use vector_pin.Dict.{Dict, lookup, put}
use vector_pin.Json.{Json}
use vector_pin.Platform.{Platform, Datetime}
use vector_pin.Hash.{is_wider_than, is_1d, hash_vector, native_dtype, hash_text}
use vector_pin.Attestation.{PinHeader, Pin, Extra, protocol_version}
use vector_pin.Attestation.Encode.{canonicalize, canonicalize_v1}
use vector_pin.Attestation.Parse.{elem_ℤ, from_dict, from_json}
use Steps.{VerifyError, Step, pass, fail, raised, ◌▹◌, fail_if, attempt}

pub record VerificationResult : Type 0 where
  pub is_ok : Bool
  pub error : VerifyError

-- `_require_aware`
unfoldable pub require_aware : Option Datetime → Checked
require_aware none = ok tt
require_aware (some t) = raise_if (not t.is_aware) Exc.value_error

-- `a < b` on datetimes, which raises `TypeError` between a naive and an aware one.
unfoldable pub datetime_lt : Datetime → Datetime → Result Bool
datetime_lt a b =
    if a.is_aware
    then (if b.is_aware then ok (ltb a.instant b.instant) else err Exc.type_error)
    else (if b.is_aware then err Exc.type_error else ok (ltb a.instant b.instant))

pub record KeyEntry (K : Type 0) : Type 0 where
  pub public_key : K
  pub valid_from : Option Datetime
  pub valid_until : Option Datetime

-- `KeyEntry(...)` with its `__post_init__`
unfoldable pub key_entry :
    {K : Type 0} → K → Option Datetime → Option Datetime → Result (KeyEntry K)
unfolding require_aware
key_entry key from until = do
  require_aware from
  require_aware until
  ok (record { public_key = key; valid_from = from; valid_until = until })

-- What a caller may register: a key object, raw bytes, or an entry.
pub data KeyArg (K : Type 0) : Type 0 where
  of_key : K → KeyArg K
  of_bytes : Bytes → KeyArg K
  of_entry : KeyEntry K → KeyArg K
  unsupported : KeyArg K

-- `Verifier`; a subclass sets `accepted_versions`.
pub record Verifier (K : Type 0) : Type 0 where
  pub keys : Dict (KeyEntry K)
  pub accept_v1_legacy : Bool
  pub accepted_versions : List ℤ

-- A `vector` argument: an array, or any other object.
pub data Supplied (A : Type 0) : Type 0 where
  ndarray : A → Supplied A
  not_array : Supplied A

-- The optional ground truth of `verify`.
pub record Expected (A : Type 0) : Type 0 where
  pub source : Option Text
  pub vector : Option (Supplied A)
  pub model : Option Text
  pub model_hash : Option Text
  pub record_id : Option Text
  pub collection_id : Option Text
  pub tenant_id : Option Text
  pub trusted_time : Option Datetime

-- `verify(pin)` with no ground truth
abbrev pub nothing_expected : {A : Type 0} → Expected A
nothing_expected = record {
  source = none;
  vector = none;
  model = none;
  model_hash = none;
  record_id = none;
  collection_id = none;
  tenant_id = none;
  trusted_time = none;
}

abbrev pub record_id_key : Text
record_id_key = codes "vectorpin.record_id"

abbrev pub collection_id_key : Text
collection_id_key = codes "vectorpin.collection_id"

abbrev pub tenant_id_key : Text
tenant_id_key = codes "vectorpin.tenant_id"

-- `accepted | {1}` in legacy mode
unfoldable pub accepted : {K : Type 0} → Verifier K → List ℤ
accepted vf = if vf.accept_v1_legacy then pos 1 ∷ vf.accepted_versions else vf.accepted_versions

-- `a if a is not None else b`
abbrev pub or_else : Option Datetime → Option Datetime → Option Datetime
or_else none b = b
or_else (some t) b = some t

abbrev pub is_some : {A : Type 0} → Option A → Bool
is_some none = false
is_some (some a) = true

-- `bound is not None and window_ts < bound`
unfoldable pub check_from : Option Datetime → Datetime → Step
unfolding datetime_lt
check_from none t = pass
check_from (some bound) t =
    attempt (datetime_lt t bound) (λ early. fail_if early VerifyError.key_expired)

-- `bound is not None and window_ts >= bound`
unfoldable pub check_until : Option Datetime → Datetime → Step
unfolding datetime_lt
check_until none t = pass
check_until (some bound) t =
    attempt (datetime_lt t bound) (λ before. fail_if (not before) VerifyError.key_expired)

-- The instant at which the window is evaluated, when the pin's `ts` does not postdate it.
unfoldable pub window_instant : Option Datetime → Datetime → (Datetime → Step) → Step
unfolding datetime_lt
window_instant none pin_ts k = k pin_ts
window_instant (some trusted) pin_ts k =
    attempt (datetime_lt trusted pin_ts) (λ late. fail_if late VerifyError.key_expired ▹ k trusted)

-- Step 7: model identifier and model hash
unfoldable pub check_expected : Option Text → Option Text → VerifyError → Step
check_expected none actual e = pass
check_expected (some x) actual e = fail_if (not (option_eq actual (some x))) e

unfoldable pub check_model : {A : Type 0} → PinHeader → Expected A → Step
unfolding check_expected
check_model h x =
    check_expected x.model (some h.model) VerifyError.model_mismatch
    ▹ check_expected x.model_hash h.model_hash VerifyError.model_mismatch

-- Step 8: the loop over the three reserved keys
unfoldable pub check_replay : {A : Type 0} → Extra → Expected A → Step
unfolding check_expected
check_replay extra x =
    check_expected x.record_id (lookup record_id_key extra) VerifyError.record_mismatch
    ▹ check_expected x.collection_id (lookup collection_id_key extra)
        VerifyError.collection_mismatch
    ▹ check_expected x.tenant_id (lookup tenant_id_key extra) VerifyError.tenant_mismatch

module _ {K S A : Type 0} (p : Platform K S A) where
  -- `_coerce_entry`
  unfoldable pub coerce_entry : KeyArg K → Result (KeyEntry K)
  unfolding key_entry
  coerce_entry (KeyArg.of_entry e) = ok e
  coerce_entry (KeyArg.of_bytes b) = do k ← p.from_public_bytes b; key_entry k none none
  coerce_entry (KeyArg.of_key k) = key_entry k none none
  coerce_entry KeyArg.unsupported = err Exc.type_error

  -- The dict comprehension of `__init__`
  unfoldable pub coerce_all : Dict (KeyEntry K) → Dict (KeyArg K) → Result (Dict (KeyEntry K))
  unfolding coerce_entry put
  coerce_all acc [] = ok acc
  coerce_all acc ((kid, key) ∷ r) = coerce_entry key >>= λ entry. coerce_all (put kid entry acc) r

  -- `Verifier(public_keys, accept_v1_legacy=...)`
  unfoldable pub new_verifier : Dict (KeyArg K) → Bool → Result (Verifier K)
  unfolding coerce_all
  new_verifier public_keys legacy = do
    keys ← coerce_all [] public_keys
    ok (record {
      keys = keys;
      accept_v1_legacy = legacy;
      accepted_versions = protocol_version ∷ [];
    })

  -- `LegacyV1Verifier(public_keys)`
  unfoldable pub legacy_verifier : Dict (KeyArg K) → Result (Verifier K)
  unfolding coerce_all
  legacy_verifier public_keys = do
    keys ← coerce_all [] public_keys
    ok (record {
      keys = keys;
      accept_v1_legacy = true;
      accepted_versions = pos 1 ∷ protocol_version ∷ [];
    })

  -- `LegacyV1Verifier.parse_pin`, on a dict and on a string
  unfoldable pub parse_pin_dict : Json → Result Pin
  unfolding from_dict
  parse_pin_dict = from_dict p (pos 1 ∷ protocol_version ∷ [])

  unfoldable pub parse_pin : Text → Result Pin
  unfolding from_json
  parse_pin = from_json p (pos 1 ∷ protocol_version ∷ [])

  -- `add_key`
  unfoldable pub add_key :
      Verifier K → Text → KeyArg K → Option Datetime → Option Datetime → Result (Verifier K)
  unfolding coerce_entry key_entry put
  add_key vf kid key from until = do
    entry ← coerce_entry key
    entry ←
        if is_some from || is_some until
        then key_entry entry.public_key (or_else from entry.valid_from)
            (or_else until entry.valid_until)
        else ok entry
    ok (record vf { keys = put kid entry vf.keys })

  -- `public_key_for`
  unfoldable pub public_key_for : Verifier K → Text → Option K
  public_key_for vf kid = elim (lookup kid vf.keys) [ none ↦ none | some e ↦ some e.public_key ]

  -- `_canonical_for`
  unfoldable pub canonical_for : Pin → Result Bytes
  canonical_for pin =
      if eqb_ℤ pin.header.v (pos 1) then canonicalize_v1 pin.header else canonicalize p pin.header

  -- `_parse_ts`: a trailing `Z` is read as `+00:00`.
  unfoldable pub replace_z : Text → Text
  replace_z [] = []
  replace_z (c ∷ []) = if c == b'Z' then codes "+00:00" else c ∷ []
  replace_z (c ∷ d ∷ s) = c ∷ replace_z (d ∷ s)

  unfoldable pub parse_ts : Text → Option Datetime
  unfolding replace_z
  parse_ts ts = p.fromisoformat (replace_z ts)

  -- Step 2: the validity window
  unfoldable pub check_window : KeyEntry K → Text → Option Datetime → Step
  unfolding parse_ts window_instant check_from check_until
  check_window entry ts trusted =
      if is_some entry.valid_from || is_some entry.valid_until || is_some trusted
      then elim (parse_ts ts) [
        | none ↦ fail VerifyError.key_expired
        | some pin_ts ↦
            window_instant trusted pin_ts
              (λ t. check_from entry.valid_from t ▹ check_until entry.valid_until t)
      ]
      else pass

  -- Step 4: the signature
  unfoldable pub check_signature : KeyEntry K → Pin → Step
  check_signature entry pin =
      attempt (canonical_for pin)
        (λ m. fail_if (not (p.verifies entry.public_key pin.sig m)) VerifyError.signature_invalid)

  -- Step 5: the source
  unfoldable pub check_source : PinHeader → Option Text → Step
  check_source h none = pass
  check_source h (some source) = elim (hash_text p source) [
    | ok hash ↦ fail_if (not (text_eq hash h.source_hash)) VerifyError.source_mismatch
    | err e ↦ if is_value_error e then fail VerifyError.parse_error else raised e
  ]

  -- `vector.shape[0] != pin.header.vec_dim`
  abbrev pub has_dim : List ℕ → ℤ → Bool
  has_dim [] d = false
  has_dim (n ∷ r) d = eqb_ℤ (pos n) d

  -- Step 6: the vector. A mismatch also computes `native_dtype` for its message.
  unfoldable pub check_array : PinHeader → A → Step
  check_array h vector =
      fail_if (not (is_1d (p.shape vector) && has_dim (p.shape vector) h.vec_dim))
        VerifyError.shape_mismatch
      ▹ attempt (is_wider_than p vector h.vec_dtype)
          (λ wide. fail_if wide VerifyError.shape_mismatch)
      ▹ fail_if (not (p.all_finite vector)) VerifyError.parse_error
      ▹ attempt (hash_vector p vector h.vec_dtype) (λ hash.
        if text_eq hash h.vec_hash
        then pass
        else attempt (native_dtype p vector) (λ _. fail VerifyError.vector_tampered))

  unfoldable pub check_vector : PinHeader → Option (Supplied A) → Step
  check_vector h none = pass
  check_vector h (some not_array) = fail VerifyError.shape_mismatch
  check_vector h (some (ndarray vector)) = check_array h vector

  -- Everything that follows the key lookup
  unfoldable pub verify_with : KeyEntry K → Pin → Expected A → Step
  verify_with entry pin x =
      attempt (require_aware x.trusted_time) (λ _. pass)
      ▹ check_window entry pin.header.ts x.trusted_time
      ▹ check_signature entry pin
      ▹ check_source pin.header x.source
      ▹ check_vector pin.header x.vector
      ▹ check_model pin.header x
      ▹ check_replay pin.header.extra x

  -- `_verify_inner`
  unfoldable pub verify_inner : Verifier K → Pin → Expected A → Step
  verify_inner vf pin x =
      fail_if (not (elem_ℤ pin.header.v (accepted vf))) VerifyError.unsupported_version
      ▹ fail_if (not (length pin.sig == 64)) VerifyError.signature_invalid
      ▹ elim (lookup pin.header.kid vf.keys) [
        | none ↦ fail VerifyError.unknown_key
        | some entry ↦ verify_with entry pin x
      ]

  -- `Verifier.verify`: an exception becomes `PARSE_ERROR`.
  unfoldable pub outcome : Step → VerificationResult
  outcome pass = record { is_ok = true; error = VerifyError.ok }
  outcome (fail e) = record { is_ok = false; error = e }
  outcome (raised x) = record { is_ok = false; error = VerifyError.parse_error }

  unfoldable pub verify : Verifier K → Pin → Expected A → VerificationResult
  unfolding outcome
  verify vf pin x = outcome (verify_inner vf pin x)
