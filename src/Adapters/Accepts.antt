-- ===== src/Adapters/Accepts.antt =====
-- `verify_record` of src/vectorpin/adapters/base.py against a description of what it accepts.
use vector_pin.Prelude.{
  ◌≡◌, ◌⊎◌, ◌↔◌, refl, sym, ap, ◌∙◌, subst, inl, inr, Bool, true, false, ◌&&◌, Option, none, some,
  arith, if◌then◌else◌,
}
use vector_pin.Text.{Text}
use vector_pin.Platform.{Platform}
use vector_pin.Attestation.{Pin}
use vector_pin.Verifier.{Verifier, Expected, record_id_key, ndarray, VerificationResult}
use vector_pin.Verifier.Accepts.{Accepts, Agrees}
use vector_pin.Dict.{lookup, has_key-lookup}
use vector_pin.Verifier.Refinement.{verify_refines}
use vector_pin.Verifier.Steps.{VerifyError}
use vector_pin.Adapters.{
  PinnedRecord, refused, ParseError, Policy, metadata_get, bound_record_id, verify_pinned,
  verify_source, verify_record,
}

-- The ground truth that a policy sets for a record, but for the record's id.
abbrev expected_with :
    {A : Type 0} → Option Text → PinnedRecord A → Option Text → Policy → Expected A
expected_with record_id r source policy = record {
  source = source;
  vector = some (ndarray r.vector);
  model = policy.expected_model;
  model_hash = policy.expected_model_hash;
  record_id = record_id;
  collection_id = policy.expected_collection_id;
  tenant_id = policy.expected_tenant_id;
  trusted_time = none;
}

abbrev pub expected_of : {A : Type 0} → PinnedRecord A → Option Text → Policy → Expected A
expected_of r source policy = expected_with none r source policy

-- Where the policy enforces record ids, a pin that names a record names this one.
abbrev pub RecordBound : {A : Type 0} → Policy → PinnedRecord A → Pin → Type 0
RecordBound policy r pin =
    (policy.enforce_record_id ≡ false)
    ⊎ ((lookup record_id_key pin.header.extra ≡ none)
        ⊎ (lookup record_id_key pin.header.extra ≡ some r.id))

-- The source that a policy takes from a record: none, or what the metadata hold under its key.
abbrev pub SourceOf : {A : Type 0} → Option Text → PinnedRecord A → Option Text → Type 0
SourceOf none r source = source ≡ none
SourceOf (some key) r source =
    (s : Text) × (metadata_get key r.metadata ≡ some s) × (source ≡ some s)

module _ {K S A : Type 0} (p : Platform K S A) (vf : Verifier K) (policy : Policy) where
  -- The verifier accepts the pin against the source, the vector and the expected values, and the
  -- record is the one it names.
  abbrev pub Valid : PinnedRecord A → Pin → Option Text → Type 0
  Valid r pin source = Accepts p vf pin (expected_of r source policy) × RecordBound policy r pin

  -- A pinned record whose source is there and whose pin is valid.
  abbrev pub PinnedPasses : PinnedRecord A → Type 0
  PinnedPasses r =
      (pin : Pin) × (source : Option Text) × (r.pin ≡ some pin)
      × SourceOf policy.source_key r source
      × Valid r pin source

  abbrev pub UnpinnedPasses : PinnedRecord A → Type 0
  UnpinnedPasses r = (r.pin ≡ none) × (policy.allow_unpinned ≡ true)

  -- What `verify_source` does with the metadata's answer.
  abbrev source_step : PinnedRecord A → Pin → Option Text → VerificationResult
  source_step r pin none = refused VerifyError.source_mismatch
  source_step r pin (some src) = verify_pinned p r pin (some src) vf policy

  source_step-eq :
      (r : PinnedRecord A) (pin : Pin) (key : Text)
      → verify_source p r pin (some key) vf policy ≡ source_step r pin (metadata_get key r.metadata)
  unfolding verify_source
  source_step-eq r pin key = go (metadata_get key r.metadata)
    where
      go :
          (o : Option Text)
          → (elim o [
            | none ↦ refused VerifyError.source_mismatch
            | some src ↦ verify_pinned p r pin (some src) vf policy
          ])
            ≡ source_step r pin o
      go none = refl
      go (some src) = refl

  bound_record_id-Agrees :
      (r : PinnedRecord A) (pin : Pin)
      → Agrees (bound_record_id r pin policy) (lookup record_id_key pin.header.extra)
        ↔ RecordBound policy r pin
  unfolding bound_record_id
  bound_record_id-Agrees r pin =
      let key = has_key-lookup record_id_key pin.header.extra in
      subst
        (λ k.
          Agrees (if policy.enforce_record_id && k then some r.id else none)
            (lookup record_id_key pin.header.extra)
          ↔ RecordBound policy r pin)
        (sym key) (go policy.enforce_record_id (lookup record_id_key pin.header.extra))
    where
      go :
          (b : Bool) (o : Option Text)
          → Agrees (if b && (elim o [ none ↦ false | some v ↦ true ]) then some r.id else none) o
            ↔ ((b ≡ false) ⊎ ((o ≡ none) ⊎ (o ≡ some r.id)))
      go false o = (λ h. inl refl, λ h. tt)
      go true none = (λ h. inr (inl refl), λ h. tt)
      go true (some x) = (
        λ h. inr (inr h),
        λ h. elim h [
          | inl e ↦ absurd (ground (arith, e))
          | inr q ↦ elim q [ inl e ↦ absurd (ground (arith, e)) | inr e ↦ e ]
        ],
      )

  -- The ground truth with and without the record's id.
  Accepts-record_id :
      (x : Option Text) (r : PinnedRecord A) (pin : Pin) (source : Option Text)
      → Accepts p vf pin (expected_with x r source policy) ↔ (
          Accepts p vf pin (expected_of r source policy)
          × Agrees x (lookup record_id_key pin.header.extra))
  Accepts-record_id x r pin source =
      (λ a. (with_id none tt a, a.record_id), λ (a, i). with_id x i a)
    where
      with_id :
          {x : Option Text} (y : Option Text)
          → Agrees y (lookup record_id_key pin.header.extra)
          → Accepts p vf pin (expected_with x r source policy)
          → Accepts p vf pin (expected_with y r source policy)
      with_id y i a = record {
        version = a.version;
        sig_length = a.sig_length;
        registered = a.registered;
        found = a.found;
        in_window = a.in_window;
        trusted_aware = a.trusted_aware;
        signed = a.signed;
        source = a.source;
        vector = a.vector;
        model = a.model;
        model_hash = a.model_hash;
        record_id = i;
        collection_id = a.collection_id;
        tenant_id = a.tenant_id;
      }

  pinned_Valid :
      (r : PinnedRecord A) (pin : Pin) (source : Option Text)
      → ((verify_pinned p r pin source vf policy).is_ok ≡ true) ↔ Valid r pin source
  unfolding verify_pinned
  pinned_Valid r pin source =
      let id = bound_record_id r pin policy in
      let (accept, pass) = verify_refines p vf pin (expected_with id r source policy) in
      let (drop_id, add_id) = Accepts-record_id id r pin source in
      let (read_bound, write_bound) = bound_record_id-Agrees r pin in
      (
        λ h. let (a, i) = drop_id (accept h) in (a, read_bound i),
        λ (a, b). pass (add_id (a, write_bound b)),
      )

  source-Valid :
      (r : PinnedRecord A) (pin : Pin) (key : Option Text)
      → (verify_source p r pin key vf policy).is_ok ≡ true
      → (source : Option Text) × SourceOf key r source × Valid r pin source
  unfolding verify_source
  source-Valid r pin none h = (none, refl, (pinned_Valid r pin none).0 h)
  source-Valid r pin (some key) h =
      go (metadata_get key r.metadata) refl
        (ap (λ (v : VerificationResult). v.is_ok) (sym (source_step-eq r pin key)) ∙ h)
    where
      go :
          (o : Option Text)
          → metadata_get key r.metadata ≡ o
          → (source_step r pin o).is_ok ≡ true
          → (source : Option Text) × SourceOf (some key) r source × Valid r pin source
      go none e h = cc
      go (some s) e h = (some s, (s, e, refl), (pinned_Valid r pin (some s)).0 h)

  Valid-source :
      (r : PinnedRecord A) (pin : Pin) (key source : Option Text)
      → SourceOf key r source
      → Valid r pin source
      → (verify_source p r pin key vf policy).is_ok ≡ true
  unfolding verify_source
  Valid-source r pin none source e a = (pinned_Valid r pin none).1 (subst (λ z. Valid r pin z) e a)
  Valid-source r pin (some key) source (s, found, e) a =
      ap (λ (v : VerificationResult). v.is_ok)
        (source_step-eq r pin key ∙ ap (source_step r pin) found)
      ∙ (pinned_Valid r pin (some s)).1 (subst (λ z. Valid r pin z) e a)

  -- What `verify_record` does with a parse error and a pin.
  record_step : PinnedRecord A → Option ParseError → Option Pin → VerificationResult
  record_step r (some e) o = refused VerifyError.parse_error
  record_step r none none =
      if policy.allow_unpinned
      then record { is_ok = true; error = VerifyError.ok }
      else refused VerifyError.parse_error
  record_step r none (some pin) = verify_source p r pin policy.source_key vf policy

  record_step-eq :
      (r : PinnedRecord A) → verify_record p r vf policy ≡ record_step r r.parse_error r.pin
  unfolding verify_record record_step
  record_step-eq r = ground arith

  -- `verify_record` accepts a record exactly when its pin field did not fail to parse and either
  -- it has no pin and the policy allows that, or it has a pin, the source that the policy asks for
  -- is in the metadata, the verifier accepts the pin against that source, the record's vector and
  -- the values that the policy expects, and, if the policy enforces record ids, the pin names no
  -- record or this one.
  pub verify_record_refines :
      (r : PinnedRecord A)
      → ((verify_record p r vf policy).is_ok ≡ true
          → (r.parse_error ≡ none) × (UnpinnedPasses r ⊎ PinnedPasses r))
        × ((r.parse_error ≡ none) × (UnpinnedPasses r ⊎ PinnedPasses r)
            → (verify_record p r vf policy).is_ok ≡ true)
  unfolding record_step
  verify_record_refines r = (
    λ h. read r.parse_error r.pin refl refl (ap is_ok_of (sym (record_step-eq r)) ∙ h),
    λ (e, q). ap is_ok_of (record_step-eq r ∙ ap (λ z. record_step r z r.pin) e) ∙ write q,
  )
    where
      allowed : (record_step r none none).is_ok ≡ true → policy.allow_unpinned ≡ true
      allowed h = ground arith

      is_ok_of : VerificationResult → Bool
      is_ok_of v = v.is_ok

      read :
          (e : Option ParseError) (o : Option Pin)
          → r.parse_error ≡ e
          → r.pin ≡ o
          → (record_step r e o).is_ok ≡ true
          → (r.parse_error ≡ none) × (UnpinnedPasses r ⊎ PinnedPasses r)
      read (some e) o q w h = cc
      read none none q w h = (q, inl (w, allowed h))
      read none (some pin) q w h =
          let (source, given, a) = source-Valid r pin policy.source_key h in
          (q, inr (pin, source, w, given, a))

      write : UnpinnedPasses r ⊎ PinnedPasses r → (record_step r none r.pin).is_ok ≡ true
      write (inl (w, allow)) = rw (w, allow)
      write (inr (pin, source, w, given, a)) =
          ap (λ o. is_ok_of (record_step r none o)) w
          ∙ Valid-source r pin policy.source_key source given a
