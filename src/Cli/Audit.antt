-- ===== src/Cli/Audit.antt =====
-- The audit commands of src/vectorpin/cli.py: `_audit_policy_kwargs`, `_parse_headers` and what the
-- four `_cmd_audit_...` share.
pub mod Commands
pub mod Covers
pub mod Tables
use vector_pin.Prelude.{
  ℕ, Bool, true, false, not, List, [], ◌∷◌, Option, none, some, if◌then◌else◌, is_empty,
}
use vector_pin.Outcome.{Result, Checked, ok, err, Exc, ◌>>=◌, ◌>>◌, raise_if}
use vector_pin.Text.{Text, codes}
use vector_pin.Text.Equality.{text_eq}
use vector_pin.Text.Split.{strip, partition}
use vector_pin.Dict.{Dict, put}
use vector_pin.Platform.{Platform, Dtype, Datetime}
use vector_pin.Hash.{f32, little_float}
use vector_pin.Verifier.{Verifier, KeyArg, new_verifier}
use vector_pin.Signer.{Signer, signer_from_private_bytes}
use vector_pin.Manifest.{CollectionManifest, manifest_from_json}
use vector_pin.Adapters.{PinnedRecord, Policy, is_space}
use vector_pin.Adapters.Vectors.{Arrays}
use vector_pin.Adapters.Stream.{Stream}
use vector_pin.Adapters.Transport.{Url}
use vector_pin.Adapters.Backends.{pin_metadata_key}
use vector_pin.Adapters.Backends.Qdrant
use vector_pin.Adapters.Backends.Lancedb
use vector_pin.Adapters.Backends.Pgvector
use vector_pin.Adapters.Backends.Chroma
use vector_pin.Audit.{Walk, Options, Report, audit_loop}
use vector_pin.Cli.{Inputs, given, read_bytes, read_private_key, one_key_verifier}

-- The flags that the audit commands share.
pub record AuditArgs : Type 0 where
  pub public_key : Text
  pub key_id : Text
  pub allow_unpinned : Bool
  pub no_record_id_check : Bool
  pub collection_id : Option Text
  pub tenant_id : Option Text
  pub expected_model : Option Text
  pub expected_model_hash : Option Text
  pub manifest : Option Text
  pub manifest_public_key : Option Text
  pub manifest_key_id : Option Text
  pub write_manifest : Option Text
  pub manifest_key : Option Text
  pub sign_summary_key : Option Text
  pub sign_summary_key_id : Option Text

-- What a generator hands to the loop: its records, and the message of its exception.
unfoldable pub walk_of : {A : Type 0} → (Exc → Text) → Stream (PinnedRecord A) → Walk A
walk_of describe s = record {
  records = s.yielded;
  aborted = elim s.raised [ none ↦ none | some e ↦ some (describe e) ];
}

-- `_parse_headers`; `SystemExit` is an exception that nothing catches.
unfoldable pub parse_headers : Dict Text → List Text → Result (Dict Text)
unfolding strip partition put
parse_headers headers [] = ok headers
parse_headers headers (pair ∷ pairs) =
    add_header (partition b'=' pair) >>= λ headers'. parse_headers headers' pairs
  where
    add_header : Option (Text × Text) → Result (Dict Text)
    add_header none = err Exc.other
    add_header (some (name, value)) =
        if is_empty (strip is_space name)
        then err Exc.other
        else ok (put (strip is_space name) value headers)

-- `headers or None`
abbrev pub or_none : Dict Text → Option (Dict Text)
or_none [] = none
or_none (h ∷ headers) = some (h ∷ headers)

abbrev pub or_kid : Option Text → Text → Text
or_kid none kid = kid
or_kid (some []) kid = kid
or_kid (some (c ∷ s)) kid = c ∷ s

-- A run that raises early, or goes on.
infixl 5 ◌>>=?◌
abbrev pub ◌>>=?◌ : {B C : Type 0} → Result B → (B → Option (Result C)) → Option (Result C)
err e >>=? f = some (err e)
ok b >>=? f = f b

module _ {K S A : Type 0} (p : Platform K S A) (i : Inputs A) where
  abbrev signer_of : Text → Text → Result (Signer S)
  signer_of path key_id = do
    (private_bytes, warns) ← read_private_key i.quiet path i.disk
    signer_from_private_bytes p private_bytes key_id

  -- `if args.manifest:`
  unfoldable pub read_manifest : Option Text → Result (Option CollectionManifest)
  unfolding manifest_from_json
  read_manifest none = ok none
  read_manifest (some path) = do
    text ← i.read_text path
    manifest ← manifest_from_json p text
    ok (some manifest)

  -- `if args.manifest_public_key:`, which a manifest is needed for
  unfoldable pub manifest_verifier_of :
      AuditArgs → Option CollectionManifest → Option Text → Result (Option (Verifier K))
  unfolding one_key_verifier
  manifest_verifier_of a none path = ok none
  manifest_verifier_of a (some manifest) none = ok none
  manifest_verifier_of a (some manifest) (some path) = do
    verifier ← one_key_verifier p i path (or_kid a.manifest_key_id manifest.kid)
    ok (some verifier)

  -- `if args.write_manifest:`
  unfoldable pub write_manifest_of :
      Option Text → Option Text → Option Text → Result (Option (Text × Signer S))
  unfolding read_private_key
  write_manifest_of none key key_id = ok none
  write_manifest_of (some path) none key_id = err Exc.other
  write_manifest_of (some path) (some key) none = err Exc.other
  write_manifest_of (some path) (some key) (some key_id) =
      signer_of key key_id >>= λ signer. ok (some (path, signer))

  -- `if args.sign_summary_key:`
  unfoldable pub summary_signer_of : Option Text → Option Text → Result (Option (Signer S))
  unfolding read_private_key
  summary_signer_of none key_id = ok none
  summary_signer_of (some key) none = err Exc.other
  summary_signer_of (some key) (some key_id) = signer_of key key_id >>= λ signer. ok (some signer)

  -- `_audit_policy_kwargs`, with the arguments that each command adds
  unfoldable pub audit_options :
      AuditArgs → Option Text → Text → Text → Datetime → Result (Options K S)
  unfolding read_manifest manifest_verifier_of write_manifest_of summary_signer_of
  audit_options a source_key label_field label_value now = do
    manifest ← read_manifest (given a.manifest)
    manifest_verifier ← manifest_verifier_of a manifest (given a.manifest_public_key)
    write_manifest ←
        write_manifest_of (given a.write_manifest) (given a.manifest_key) (given a.manifest_key_id)
    summary_signer ← summary_signer_of (given a.sign_summary_key) (given a.sign_summary_key_id)
    ok (record {
      label_field = label_field;
      label_value = label_value;
      policy = record {
        source_key = source_key;
        allow_unpinned = a.allow_unpinned;
        enforce_record_id = not a.no_record_id_check;
        expected_model = a.expected_model;
        expected_model_hash = a.expected_model_hash;
        expected_collection_id = a.collection_id;
        expected_tenant_id = a.tenant_id;
      };
      manifest = manifest;
      manifest_verifier = manifest_verifier;
      write_manifest = write_manifest;
      summary_signer = summary_signer;
      now = now;
    })

  -- The loop over the adapter's records; `none` is a run that the fuel did not let end.
  unfoldable pub run_audit :
      (Exc → Text)
      → Verifier K
      → Options K S
      → Option (Stream (PinnedRecord A))
      → Option (Result Report)
  unfolding walk_of audit_loop
  run_audit describe verifier o none = none
  run_audit describe verifier o (some s) = some (audit_loop p verifier o (walk_of describe s))

  -- An audit command: the verifier is built, then the adapter connects, then the flags are read,
  -- and the loop runs over the adapter's records.
  unfoldable pub cmd_audit :
      {C : Type 0}
      → (Exc → Text)
      → AuditArgs
      → Option Text
      → Text
      → Text
      → Datetime
      → Result C
      → (C → Option (Stream (PinnedRecord A)))
      → Option (Result Report)
  unfolding one_key_verifier audit_options run_audit
  cmd_audit describe a source_key label_field label_value now connected records =
      one_key_verifier p i a.public_key a.key_id >>=? λ verifier. connected >>=? λ adapter.
      audit_options a source_key label_field label_value now >>=? λ o.
      run_audit describe verifier o (records adapter)
