-- ===== src/Cli.antt =====
-- src/vectorpin/cli.py: key files and the commands on one pin or one summary. The audit commands
-- are in Cli/Audit.antt.
pub mod Audit
pub mod Keys
pub mod Commands
pub mod Options
pub mod Arguments
pub mod Main
use vector_pin.Prelude.{
  ℕ, ◌+◌, ◌*◌, ◌%◌, Bool, true, false, not, ◌&&◌, List, [], ◌∷◌, ◌++◌, Option, none, some,
  if◌then◌else◌, ◌==◌, is_empty,
}
use vector_pin.Outcome.{Result, Checked, ok, err, Exc, ◌>>=◌, ◌>>◌, is_value_error}
use vector_pin.Text.{Text, Bytes, codes}
use vector_pin.Text.Equality.{text_eq}
use vector_pin.Dict.{Dict, lookup, has_key, put}
use vector_pin.Json.{Json}
use vector_pin.Platform.{Platform, Dtype, Datetime}
use vector_pin.Hash.{f32, little_float}
use vector_pin.Attestation.{Pin, Extra, protocol_version}
use vector_pin.Attestation.Encode.{to_json}
use vector_pin.Attestation.Parse.{from_json}
use vector_pin.Verifier.{
  Verifier, KeyArg, Supplied, ndarray, Expected, VerificationResult, new_verifier, verify,
  record_id_key, collection_id_key, tenant_id_key,
}
use vector_pin.Signer.{Signer, PinRequest, signer_from_private_bytes, pin}
use vector_pin.Signer.Keys.{KeyFormats, generate, private_key_bytes, public_key_bytes}
use vector_pin.Manifest.{ManifestResult}
use vector_pin.Manifest.Summary.{verify_audit_summary}

-- A file: its contents and its permission bits.
pub record File : Type 0 where
  pub contents : Bytes
  pub mode : ℕ

-- The regular files, by path.
abbrev pub Disk : Type 0
Disk = Dict File

-- `if value:` of an optional string argument
abbrev pub given : Option Text → Option Text
given none = none
given (some []) = none
given (some (c ∷ s)) = some (c ∷ s)

-- The modes 0600 and 0644.
abbrev pub owner_only : ℕ
owner_only = 6 * 64

abbrev pub world_readable : ℕ
world_readable = 6 * 64 + 4 * 8 + 4

-- `_write_private_key`: `O_CREAT | O_EXCL` makes a new file and refuses one that is there.
unfoldable pub write_private_key : Text → Bytes → Disk → Result Disk
unfolding has_key put
write_private_key path bytes disk =
    if has_key path disk
    then err Exc.other
    else ok (put path (record { contents = bytes; mode = owner_only }) disk)

-- `_read_private_key`: the contents, and whether it warns; `mode & 0o077` are the low six bits.
unfoldable pub read_private_key : Bool → Text → Disk → Result (Bytes × Bool)
unfolding lookup
read_private_key quiet path disk = elim (lookup path disk) [
  | none ↦ err Exc.other
  | some file ↦ ok (file.contents, not (file.mode % 64 == 0) && not quiet)
]

-- `path.read_bytes()`
unfoldable pub read_bytes : Text → Disk → Result Bytes
unfolding lookup
read_bytes path disk = elim (lookup path disk) [
  | none ↦ err Exc.other
  | some file ↦ ok file.contents
]

-- `_cmd_keygen`, with pathlib's `/` and the fresh key that `Signer.generate` draws: a key id that
-- the signer refuses writes nothing. `write_bytes` replaces a public key that is there, and `chmod`
-- sets its mode.
unfoldable pub cmd_keygen :
    {K S A : Type 0}
    → Platform K S A
    → KeyFormats S
    → (Text → Text → Text)
    → S
    → Text
    → Text
    → Disk
    → Result Disk
unfolding write_private_key
cmd_keygen p formats join fresh out key_id disk = do
  signer ← generate p fresh key_id
  disk ←
      write_private_key (join out (key_id ++ codes ".priv")) (private_key_bytes p formats signer)
        disk
  let file : File = record { contents = public_key_bytes p signer; mode = world_readable }
  ok (put (join out (key_id ++ codes ".pub")) file disk)

-- What the commands read: files as text, `Path(p).suffix`, `np.load` (`none` is no array) and
-- `np.asarray(values, dtype=...)` of parsed JSON.
pub record Inputs (A : Type 0) : Type 0 where
  pub disk : Disk
  pub read_text : Text → Result Text
  pub suffix : Text → Text
  pub load_npy : Text → Result (Option A)
  pub from_json_values : Dtype → Json → Result A
  pub quiet : Bool

-- The arguments of `pin`.
pub record PinArgs : Type 0 where
  pub private_key : Text
  pub key_id : Text
  pub model : Text
  pub model_hash : Option Text
  pub source : Text
  pub vector : Text
  pub vector_dtype : Text
  pub record_id : Option Text
  pub collection_id : Option Text
  pub tenant_id : Option Text

-- The arguments of `verify-pin`.
pub record VerifyArgs : Type 0 where
  pub public_key : Text
  pub key_id : Text
  pub pin : Text
  pub source : Option Text
  pub vector : Option Text
  pub vector_dtype : Text
  pub expected_model : Option Text
  pub expected_model_hash : Option Text
  pub record_id : Option Text
  pub collection_id : Option Text
  pub tenant_id : Option Text

abbrev pub put_if_given : Text → Option Text → Extra → Extra
put_if_given key none extra = extra
put_if_given key (some []) extra = extra
put_if_given key (some (c ∷ s)) extra = put key (c ∷ s) extra

-- The dict `extra` of `_cmd_pin`
unfoldable pub extra_of : PinArgs → Extra
unfolding put
extra_of a =
    put_if_given tenant_id_key a.tenant_id
      (put_if_given collection_id_key a.collection_id (put_if_given record_id_key a.record_id []))

-- `f(path) if path else None`
abbrev pub read_if : {B : Type 0} → (Text → Result B) → Option Text → Result (Option B)
read_if f none = ok none
read_if f (some []) = ok none
read_if f (some (c ∷ s)) = f (c ∷ s) >>= λ b. ok (some b)

module _ {K S A : Type 0} (p : Platform K S A) (i : Inputs A) where
  -- `_load_vector`
  unfoldable pub load_vector : Text → Text → Result A
  load_vector path json_dtype =
      if text_eq (i.suffix path) (codes ".npy")
      then (i.load_npy path >>= λ loaded. elim loaded [
        | none ↦ err Exc.value_error
        | some a ↦ ok a
      ])
      else if text_eq (i.suffix path) (codes ".json")
      then (i.read_text path >>= λ text. p.loads text >>= λ values.
          i.from_json_values (little_float (if text_eq json_dtype f32 then 4 else 8)) values)
      else err Exc.value_error

  -- `_cmd_pin`, at the time `now`: the text that it prints
  unfoldable pub cmd_pin : PinArgs → Datetime → Result Text
  unfolding read_private_key load_vector extra_of
  cmd_pin a now = do
    (private_bytes, warns) ← read_private_key i.quiet a.private_key i.disk
    signer ← signer_from_private_bytes p private_bytes a.key_id
    source ← i.read_text a.source
    vector ← load_vector a.vector a.vector_dtype
    signed ← pin p signer (record {
      source = source;
      model = a.model;
      vector = ndarray vector;
      vec_dtype = none;
      model_hash = a.model_hash;
      timestamp = now;
      extra = extra_of a;
    })
    ok (to_json signed)

  -- `Verifier({key_id: public_bytes})`
  unfoldable pub one_key_verifier : Text → Text → Result (Verifier K)
  unfolding read_bytes
  one_key_verifier path key_id = do
    public_bytes ← read_bytes path i.disk
    new_verifier p ((key_id, KeyArg.of_bytes public_bytes) ∷ []) false

  -- The check of a pin that has been parsed
  unfoldable pub verify_parsed : VerifyArgs → Verifier K → Pin → Result ℕ
  unfolding load_vector
  verify_parsed a verifier signed = do
    source ← read_if i.read_text a.source
    vector ← read_if (λ path. load_vector path a.vector_dtype) a.vector
    ok (
        if (verify p verifier signed (record {
          source = source;
          vector = elim vector [ none ↦ none | some v ↦ some (ndarray v) ];
          model = a.expected_model;
          model_hash = a.expected_model_hash;
          record_id = a.record_id;
          collection_id = a.collection_id;
          tenant_id = a.tenant_id;
          trusted_time = none;
        })).is_ok
        then 0
        else 2)

  -- `except (ValueError, json.JSONDecodeError): return 2`
  abbrev pub or_parse_error : {B : Type 0} → Result B → (B → Result ℕ) → Result ℕ
  or_parse_error (ok b) f = f b
  or_parse_error (err e) f = if is_value_error e then ok 2 else err e

  -- `_cmd_verify_pin`: the exit code
  unfoldable pub cmd_verify_pin : VerifyArgs → Result ℕ
  unfolding one_key_verifier verify_parsed
  cmd_verify_pin a = do
    verifier ← one_key_verifier a.public_key a.key_id
    or_parse_error (i.read_text a.pin >>= λ text. from_json p (protocol_version ∷ []) text)
        (verify_parsed a verifier)

  -- `_cmd_verify_summary`: the exit code
  unfoldable pub cmd_verify_summary : Text → Text → Text → Result ℕ
  unfolding one_key_verifier
  cmd_verify_summary public_key key_id summary = do
    verifier ← one_key_verifier public_key key_id
    or_parse_error (i.read_text summary >>= λ text. p.loads text)
        (λ parsed. ok (if (verify_audit_summary p parsed verifier).is_ok then 0 else 2))
