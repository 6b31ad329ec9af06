-- ===== src/Verifier/Meaning.antt =====
-- What each error code of `Verifier.verify` in src/vectorpin/verifier.py means.
use vector_pin.Prelude.{◌≡◌, ◌≢◌, ◌⊎◌, true, false, Option, none, some, length}
use vector_pin.Text.{Text}
use vector_pin.Dict.{lookup}
use vector_pin.Platform.{Platform, Datetime}
use vector_pin.Attestation.{Pin}
use vector_pin.Attestation.Parse.{elem_ℤ}
use vector_pin.Verifier.{
  Verifier, KeyEntry, Expected, accepted, record_id_key, collection_id_key, tenant_id_key,
}
use vector_pin.Verifier.Steps.{VerifyError}
use vector_pin.Verifier.Accepts.{Accepts, InWindow, Signed, SourceAgrees, VectorAgrees, Agrees}
use vector_pin.Verifier.Codes.{WindowFault, SignatureFault, SourceFault}
use vector_pin.Verifier.Faults.{VectorFault}

module _ {K S A : Type 0} (p : Platform K S A) (vf : Verifier K) (pin : Pin) (x : Expected A) where
  -- The version is accepted, the signature has 64 bytes, and the key has this entry.
  abbrev pub Known : KeyEntry K → Type 0
  Known entry =
      (elem_ℤ pin.header.v (accepted vf) ≡ true)
      × (length pin.sig ≡ 64)
      × (lookup pin.header.kid vf.keys ≡ some entry)

  -- A known key, in its window, has signed the pin.
  abbrev pub Authentic : Type 0
  Authentic =
      (entry : KeyEntry K) × Known entry
      × InWindow p entry pin.header.ts x.trusted_time
      × Signed p entry pin

  -- The pin is authentic, and the source and the vector agree.
  abbrev pub Matching : Type 0
  Matching = Authentic × SourceAgrees p pin.header x.source × VectorAgrees p pin.header x.vector

  abbrev pub ModelAgrees : Type 0
  ModelAgrees = Agrees x.model (some pin.header.model) × Agrees x.model_hash pin.header.model_hash

  abbrev pub ExtraAgrees : Option Text → Text → Type 0
  ExtraAgrees expected key = Agrees expected (lookup key pin.header.extra)

  -- What comes as `parse_error`: a naive trusted time, times that do not compare, a header without
  -- canonical bytes, a source that cannot be hashed, a vector that is not finite or not hashed.
  pub data ParseFault : Type 0 where
    naive :
        (entry : KeyEntry K) (t : Datetime)
        → Known entry
        → x.trusted_time ≡ some t
        → t.is_aware ≡ false
        → ParseFault
    in_window :
        (entry : KeyEntry K)
        → Known entry
        → WindowFault p entry pin.header.ts x.trusted_time VerifyError.parse_error
        → ParseFault
    in_signature :
        (entry : KeyEntry K)
        → Known entry
        → InWindow p entry pin.header.ts x.trusted_time
        → SignatureFault p entry pin VerifyError.parse_error
        → ParseFault
    in_source : Authentic → SourceFault p pin.header x.source VerifyError.parse_error → ParseFault
    in_vector :
        Authentic
        → SourceAgrees p pin.header x.source
        → VectorFault p pin.header x.vector VerifyError.parse_error
        → ParseFault

  -- What a code tells.
  abbrev pub Diagnosis : VerifyError → Type 0
  Diagnosis VerifyError.ok = Accepts p vf pin x
  Diagnosis VerifyError.unsupported_version = elem_ℤ pin.header.v (accepted vf) ≡ false
  Diagnosis VerifyError.unknown_key =
      (elem_ℤ pin.header.v (accepted vf) ≡ true)
      × (length pin.sig ≡ 64)
      × (lookup pin.header.kid vf.keys ≡ none)
  Diagnosis VerifyError.key_expired =
      (entry : KeyEntry K) × Known entry
      × (¬ InWindow p entry pin.header.ts x.trusted_time)
      × WindowFault p entry pin.header.ts x.trusted_time VerifyError.key_expired
  Diagnosis VerifyError.signature_invalid =
      (length pin.sig ≢ 64)
      ⊎ ((entry : KeyEntry K) × Known entry
          × InWindow p entry pin.header.ts x.trusted_time
          × (¬ Signed p entry pin)
          × SignatureFault p entry pin VerifyError.signature_invalid)
  Diagnosis VerifyError.source_mismatch =
      Authentic × SourceFault p pin.header x.source VerifyError.source_mismatch
  Diagnosis VerifyError.vector_tampered =
      Authentic
      × SourceAgrees p pin.header x.source
      × VectorFault p pin.header x.vector VerifyError.vector_tampered
  Diagnosis VerifyError.shape_mismatch =
      Authentic
      × SourceAgrees p pin.header x.source
      × VectorFault p pin.header x.vector VerifyError.shape_mismatch
  Diagnosis VerifyError.model_mismatch = Matching × (¬ ModelAgrees)
  Diagnosis VerifyError.record_mismatch =
      Matching × ModelAgrees × (¬ ExtraAgrees x.record_id record_id_key)
  Diagnosis VerifyError.collection_mismatch =
      Matching
      × ModelAgrees
      × ExtraAgrees x.record_id record_id_key
      × (¬ ExtraAgrees x.collection_id collection_id_key)
  Diagnosis VerifyError.tenant_mismatch =
      Matching
      × ModelAgrees
      × ExtraAgrees x.record_id record_id_key
      × ExtraAgrees x.collection_id collection_id_key
      × (¬ ExtraAgrees x.tenant_id tenant_id_key)
  Diagnosis VerifyError.parse_error = ParseFault
