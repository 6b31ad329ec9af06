-- ===== src/Adapters.antt =====
-- src/vectorpin/adapters/base.py: stored records, the parsing of a pin field, and
-- `verify_record` with the read wrappers.
pub mod Accepts
pub mod Transport
pub mod Sql
pub mod Stream
pub mod Vectors
pub mod Backends
use vector_pin.Prelude.{
  ℕ, Bool, true, false, ◌&&◌, ◌||◌, List, [], ◌∷◌, Option, none, some, ◌==◌, if◌then◌else◌, all,
  map,
}
use vector_pin.Outcome.{Result, ok, err, Exc}
use vector_pin.Text.{Text, between}
use vector_pin.Dict.{Dict, lookup, has_key}
use vector_pin.Json.{Fields, end, field, obj}
use vector_pin.Platform.{Platform}
use vector_pin.Attestation.{Pin, protocol_version}
use vector_pin.Attestation.Parse.{from_dict, from_json}
use vector_pin.Verifier.{Verifier, VerificationResult, ndarray, record_id_key, verify}
use vector_pin.Verifier.Steps.{VerifyError}

-- Why a pin field did not parse.
pub data ParseError : Type 0 where
  empty_field empty_object unsupported_type : ParseError
  raised : Exc → ParseError

-- `metadata` holds what `str(...)` gives of each value; `none` stands for `None`.
pub record PinnedRecord (A : Type 0) : Type 0 where
  pub id : Text
  pub vector : A
  pub pin : Option Pin
  pub metadata : Dict (Option Text)
  pub parse_error : Option ParseError

pub record VerifiedRecord (A : Type 0) : Type 0 where
  pub stored : PinnedRecord A
  pub result : VerificationResult

-- A stored pin field, as the backend delivers it.
pub data RawField : Type 0 where
  absent : RawField
  text : Text → RawField
  dict : Fields → RawField
  unsupported : RawField

-- The keyword arguments of `verify_record`.
pub record Policy : Type 0 where
  pub source_key : Option Text
  pub allow_unpinned : Bool
  pub enforce_record_id : Bool
  pub expected_model : Option Text
  pub expected_model_hash : Option Text
  pub expected_collection_id : Option Text
  pub expected_tenant_id : Option Text

-- The characters that `str.strip` removes.
abbrev pub is_space : ℕ → Bool
is_space c =
    between 9 13 c
    || between 28 32 c
    || c == 0x85
    || c == 0xA0
    || c == 0x1680
    || between 0x2000 0x200A c
    || between 0x2028 0x2029 c
    || c == 0x202F
    || c == 0x205F
    || c == 0x3000

abbrev pub refused : VerifyError → VerificationResult
refused e = record { is_ok = false; error = e }

-- `record.metadata.get(source_key)`
unfoldable pub metadata_get : Text → Dict (Option Text) → Option Text
metadata_get k m = elim (lookup k m) [ none ↦ none | some v ↦ v ]

-- `kwargs["expected_record_id"]`, set where the pin carries the reserved key
unfoldable pub bound_record_id : {A : Type 0} → PinnedRecord A → Pin → Policy → Option Text
bound_record_id r pin policy =
    if policy.enforce_record_id && has_key record_id_key pin.header.extra then some r.id else none

module _ {K S A : Type 0} (p : Platform K S A) where
  abbrev parsed : Result Pin → Option Pin × Option ParseError
  parsed (ok pin) = (some pin, none)
  parsed (err e) = (none, some (raised e))

  -- `parse_pin_field`
  unfoldable pub parse_pin_field : RawField → Option Pin × Option ParseError
  parse_pin_field absent = (none, none)
  parse_pin_field (text s) =
      if all is_space s
      then (none, some empty_field)
      else parsed (from_json p (protocol_version ∷ []) s)
  parse_pin_field (dict end) = (none, some empty_object)
  parse_pin_field (dict (field k v fs)) =
      parsed (from_dict p (protocol_version ∷ []) (obj (field k v fs)))
  parse_pin_field unsupported = (none, some unsupported_type)

  -- The call of `verifier.verify`, the source being known
  unfoldable pub verify_pinned :
      PinnedRecord A → Pin → Option Text → Verifier K → Policy → VerificationResult
  unfolding bound_record_id
  verify_pinned r pin source verifier policy = verify p verifier pin (record {
    source = source;
    vector = some (ndarray r.vector);
    model = policy.expected_model;
    model_hash = policy.expected_model_hash;
    record_id = bound_record_id r pin policy;
    collection_id = policy.expected_collection_id;
    tenant_id = policy.expected_tenant_id;
    trusted_time = none;
  })

  unfoldable pub verify_source :
      PinnedRecord A → Pin → Option Text → Verifier K → Policy → VerificationResult
  unfolding metadata_get
  verify_source r pin none verifier policy = verify_pinned r pin none verifier policy
  verify_source r pin (some key) verifier policy = elim (metadata_get key r.metadata) [
    | none ↦ refused VerifyError.source_mismatch
    | some src ↦ verify_pinned r pin (some src) verifier policy
  ]

  -- `verify_record`
  unfoldable pub verify_record : PinnedRecord A → Verifier K → Policy → VerificationResult
  verify_record r verifier policy = elim r.parse_error [
    | some e ↦ refused VerifyError.parse_error
    | none ↦ elim r.pin [
      | none ↦
          if policy.allow_unpinned
          then record { is_ok = true; error = VerifyError.ok }
          else refused VerifyError.parse_error
      | some pin ↦ verify_source r pin policy.source_key verifier policy
    ]
  ]

  -- `get_verified`, over the adapter's `get`
  unfoldable pub get_verified :
      (Text → Result (PinnedRecord A)) → Text → Verifier K → Policy → Result (VerifiedRecord A)
  get_verified get id verifier policy = elim (get id) [
    | ok r ↦ ok (record { stored = r; result = verify_record r verifier policy })
    | err e ↦ err e
  ]

  -- `iter_verified`, over what `iter_records` yields
  unfoldable pub iter_verified :
      List (PinnedRecord A) → Verifier K → Policy → List (VerifiedRecord A)
  iter_verified records verifier policy =
      map (λ r. record { stored = r; result = verify_record r verifier policy }) records
