-- ===== src/Manifest.antt =====
-- src/vectorpin/manifest.py: the Merkle root, collection manifests and signed audit summaries.
pub mod Binds
pub mod Merkle
pub mod Summary
pub mod Verifies
use vector_pin.Prelude.{
  ℕ, ℤ, pos, negsuc, eqb_ℤ, Bool, true, false, not, ◌&&◌, ◌||◌, List, [], ◌∷◌, ◌++◌, Option, none,
  some, ltb, leb, ◌==◌, if◌then◌else◌, length,
}
use vector_pin.Outcome.{Result, Checked, ok, err, Exc, ◌>>=◌, ◌>>◌, raise_if}
use vector_pin.Text.{Text, Bytes, codes, encode_pass, encode_utf8}
use vector_pin.Text.Equality.{text_eq}
use vector_pin.Json
use vector_pin.Json.{Json, Fields, end, field, int, str, obj, null, dumps, raw_unicode, raw_ascii}
use vector_pin.Platform.{Platform, Datetime}
use vector_pin.Hash.{hash_prefix}
use vector_pin.Attestation.{manifest_domain_tag}
use vector_pin.Attestation.Base64.{b64, b64dec}
use vector_pin.Attestation.Checks.{check_string_safe, check_nfc}
use vector_pin.Attestation.Pattern.{ts_re, check_ts_calendar, is_lower_hex, literal, repeated, ends}
use vector_pin.Attestation.Pattern
use vector_pin.Attestation.Parse.{get, has_unknown}
use vector_pin.Verifier.{Verifier, public_key_for}
use vector_pin.Signer.{Signer, sign_with_domain}
use Merkle.{Entry, merkle_root}

abbrev pub manifest_version : ℤ
manifest_version = pos 1

abbrev pub max_manifest_json_bytes : ℕ
max_manifest_json_bytes = 65536

abbrev pub max_collection_id_bytes : ℕ
max_collection_id_bytes = 1024

pub data ManifestError : Type 0 where
  no_error parse_error unknown_key signature_invalid : ManifestError
  collection_mismatch count_mismatch root_mismatch : ManifestError

pub record ManifestResult : Type 0 where
  pub is_ok : Bool
  pub error : ManifestError

abbrev pub refuse : ManifestError → ManifestResult
refuse e = record { is_ok = false; error = e }

abbrev pub accept : ManifestResult
accept = record { is_ok = true; error = ManifestError.no_error }

-- `except Exception: return PARSE_ERROR`
abbrev pub never_raise : Result ManifestResult → ManifestResult
never_raise (ok r) = r
never_raise (err e) = refuse ManifestError.parse_error

pub record CollectionManifest : Type 0 where
  pub collection_id : Text
  pub count : ℤ
  pub merkle_root : Text
  pub ts : Text
  pub kid : Text
  pub sig : Bytes
  pub v : ℤ

-- `_canonical_json`
unfoldable pub canonical_json : Fields → Result Bytes
canonical_json d = encode_utf8 (dumps raw_unicode (obj d))

-- `signed_dict`, with what `to_dict` adds behind it
unfoldable pub manifest_fields : CollectionManifest → Fields → Fields
manifest_fields m rest = field (codes "v") (int m.v) (
    field (codes "collection_id") (str m.collection_id) (
      field (codes "count") (int m.count) (
        field (codes "merkle_root") (str m.merkle_root)
          (field (codes "ts") (str m.ts) (field (codes "kid") (str m.kid) rest)))))

unfoldable pub signed_dict : CollectionManifest → Fields
unfolding manifest_fields
signed_dict m = manifest_fields m end

-- `canonical_payload`
unfoldable pub canonical_payload : CollectionManifest → Result Bytes
unfolding canonical_json signed_dict
canonical_payload m = canonical_json (signed_dict m)

-- `CollectionManifest.to_dict`
unfoldable pub manifest_to_dict : CollectionManifest → Fields
unfolding manifest_fields
manifest_to_dict m = manifest_fields m (field (codes "sig") (str (b64 m.sig)) end)

abbrev pub holds_fully : Option Text → Bool
holds_fully none = false
holds_fully (some s) = ends s

-- The test on `merkle_root`: the prefix, then 64 characters, all of them hexadecimal.
unfoldable pub is_root : Text → Bool
unfolding literal repeated
is_root s = holds_fully (Pattern.◌>>=◌ (literal hash_prefix s) (λ r. repeated is_lower_hex 64 r))

unfoldable pub parse_count : Json → Result ℤ
parse_count (int (pos n)) = ok (pos n)
parse_count _ = err Exc.value_error

unfoldable pub parse_root : Json → Result Text
unfolding is_root
parse_root (str s) = if is_root s then ok s else err Exc.value_error
parse_root _ = err Exc.value_error

unfoldable pub parse_manifest_version : Json → Result ℤ
parse_manifest_version (int v) = if eqb_ℤ v manifest_version then ok v else err Exc.value_error
parse_manifest_version _ = err Exc.value_error

unfoldable pub parse_manifest_sig : Json → Result Bytes
unfolding b64dec
parse_manifest_sig (str s) = do
  raise_if (ltb 256 (length s)) Exc.value_error
  sig ← b64dec s
  raise_if (not (length sig == 64)) Exc.value_error
  ok sig
parse_manifest_sig _ = err Exc.value_error

-- `_validate_ts`
unfoldable pub validate_ts : Json → Result Text
unfolding ts_re check_ts_calendar
validate_ts (str s) = do raise_if (not (ts_re s)) Exc.value_error; check_ts_calendar s; ok s
validate_ts _ = err Exc.value_error

abbrev pub allowed_manifest_keys : List Text
allowed_manifest_keys =
    codes "v"
    ∷ codes "collection_id"
    ∷ codes "count"
    ∷ codes "merkle_root"
    ∷ codes "ts"
    ∷ codes "kid"
    ∷ codes "sig"
    ∷ []

module _ {K S A : Type 0} (p : Platform K S A) where
  -- `_validate_id`
  unfoldable pub validate_id : ℕ → Json → Result Text
  unfolding check_string_safe check_nfc
  validate_id limit (str []) = err Exc.value_error
  validate_id limit (str (c ∷ s)) = do
    raise_if (ltb limit (length (encode_pass (c ∷ s)))) Exc.value_error
    check_string_safe (c ∷ s)
    check_nfc p (c ∷ s)
    ok (c ∷ s)
  validate_id limit _ = err Exc.value_error

  -- `CollectionManifest.from_dict`
  unfoldable pub manifest_from_fields : Fields → Result CollectionManifest
  manifest_from_fields d = do
    raise_if (has_unknown allowed_manifest_keys d) Exc.value_error
    v ← parse_manifest_version (get (codes "v") d)
    count ← parse_count (get (codes "count") d)
    root ← parse_root (get (codes "merkle_root") d)
    sig ← parse_manifest_sig (get (codes "sig") d)
    collection_id ← validate_id max_collection_id_bytes (get (codes "collection_id") d)
    ts ← validate_ts (get (codes "ts") d)
    kid ← validate_id 256 (get (codes "kid") d)
    ok (record {
      collection_id = collection_id;
      count = count;
      merkle_root = root;
      ts = ts;
      kid = kid;
      sig = sig;
      v = v;
    })

  unfoldable pub manifest_from_dict : Json → Result CollectionManifest
  unfolding manifest_from_fields
  manifest_from_dict (obj d) = manifest_from_fields d
  manifest_from_dict _ = err Exc.value_error

  -- `CollectionManifest.from_json`
  unfoldable pub manifest_from_json : Text → Result CollectionManifest
  unfolding manifest_from_dict
  manifest_from_json s = do
    raise_if (ltb max_manifest_json_bytes (length (encode_pass s))) Exc.value_error
    d ← p.loads s
    manifest_from_dict d

  -- `build_manifest`, at a given time
  unfoldable pub build_manifest :
      Signer S → Text → List Entry → Datetime → Result CollectionManifest
  build_manifest signer collection_id entries timestamp = do
    root ← merkle_root p entries
    collection_id ← validate_id max_collection_id_bytes (str collection_id)
    ts ← validate_ts (str (p.strftime_utc timestamp))
    let unsigned : CollectionManifest = record {
      collection_id = collection_id;
      count = pos (length entries);
      merkle_root = root;
      ts = ts;
      kid = signer.key_id;
      sig = [];
      v = manifest_version;
    }
    payload ← canonical_payload unsigned
    sig ← sign_with_domain p signer manifest_domain_tag payload
    ok (record unsigned { sig = sig })

  -- `expected is not None and actual != expected`
  abbrev pub differs : Option Text → Text → Bool
  differs none actual = false
  differs (some x) actual = not (text_eq actual x)

  -- The comparison with the store's state, once the signature has verified
  unfoldable pub compare_store :
      CollectionManifest → List Entry → Option Text → Result ManifestResult
  compare_store m entries expected =
      if differs expected m.collection_id
      then ok (refuse ManifestError.collection_mismatch)
      else if not (eqb_ℤ (pos (length entries)) m.count)
      then ok (refuse ManifestError.count_mismatch)
      else (merkle_root p entries >>= λ observed.
          ok
            (if text_eq observed m.merkle_root then accept else refuse ManifestError.root_mismatch))

  unfoldable pub verify_manifest_with :
      K → CollectionManifest → List Entry → Option Text → Result ManifestResult
  unfolding compare_store
  verify_manifest_with key m entries expected = do
    payload ← canonical_payload m
    if p.verifies key m.sig (manifest_domain_tag ++ payload)
        then compare_store m entries expected
        else ok (refuse ManifestError.signature_invalid)

  -- `verify_manifest`
  unfoldable pub verify_manifest :
      CollectionManifest → Verifier K → List Entry → Option Text → ManifestResult
  unfolding verify_manifest_with
  verify_manifest m verifier entries expected = elim (public_key_for p verifier m.kid) [
    | none ↦ refuse ManifestError.unknown_key
    | some key ↦ never_raise (verify_manifest_with key m entries expected)
  ]
