-- ===== src/Manifest/Summary.antt =====
-- `sign_audit_summary` and `verify_audit_summary`.
pub mod Verifies
use vector_pin.Prelude.{not, List, [], ◌∷◌, ◌++◌, none, some, ◌==◌, if◌then◌else◌, length}
use vector_pin.Outcome.{Result, ok, ◌>>=◌}
use vector_pin.Text.{Text, Bytes, codes}
use vector_pin.Dict.{contains}
use vector_pin.Json.{Json, Fields, end, field, str, obj}
use vector_pin.Platform.{Platform, Datetime}
use vector_pin.Attestation.Base64.{b64, b64dec}
use vector_pin.Attestation.Parse.{get}
use vector_pin.Verifier.{Verifier, public_key_for}
use vector_pin.Signer.{Signer, sign_with_domain}
use vector_pin.Manifest.{
  ManifestError, ManifestResult, accept, refuse, never_raise, canonical_json, validate_ts,
}
use vector_pin.Attestation.{audit_summary_domain_tag}

-- `_SUMMARY_SIG_FIELDS`
abbrev pub summary_sig_fields : List Text
summary_sig_fields = codes "summary_kid" ∷ codes "summary_ts" ∷ codes "summary_sig" ∷ []

-- `{k: v for k, v in d.items() if k not in keys}`
unfoldable pub without : List Text → Fields → Fields
unfolding contains
without keys end = end
without keys (field k v fs) =
    if contains k keys then without keys fs else field k v (without keys fs)

-- `d[k] = v` for a key that is not there
unfoldable pub add_field : Text → Json → Fields → Fields
add_field k v end = field k v end
add_field k v (field j w fs) = field j w (add_field k v fs)

module _ {K S A : Type 0} (p : Platform K S A) where
  -- The dict that is signed
  unfoldable pub summary_body : Signer S → Fields → Datetime → Fields
  unfolding without add_field
  summary_body signer summary now =
      add_field (codes "summary_ts") (str (p.strftime_utc now))
        (add_field (codes "summary_kid") (str signer.key_id) (without summary_sig_fields summary))

  -- `sign_audit_summary`, at the time `now`
  unfoldable pub sign_audit_summary : Signer S → Fields → Datetime → Result Fields
  sign_audit_summary signer summary now = do
    let body = summary_body signer summary now
    payload ← canonical_json body
    sig ← sign_with_domain p signer audit_summary_domain_tag payload
    ok (add_field (codes "summary_sig") (str (b64 sig)) body)

  unfoldable pub verify_summary_with : K → Bytes → Fields → Result ManifestResult
  verify_summary_with key sig summary = do
    payload ← canonical_json (without (codes "summary_sig" ∷ []) summary)
    if p.verifies key sig (audit_summary_domain_tag ++ payload)
        then ok accept
        else ok (refuse ManifestError.signature_invalid)

  unfoldable pub verify_summary_strings : Verifier K → Text → Text → Fields → Result ManifestResult
  unfolding verify_summary_with
  verify_summary_strings verifier kid sig_raw summary = do
    ts ← validate_ts (get (codes "summary_ts") summary)
    sig ← b64dec sig_raw
    if not (length sig == 64)
        then ok (refuse ManifestError.parse_error)
        else elim (public_key_for p verifier kid) [
          | none ↦ ok (refuse ManifestError.unknown_key)
          | some key ↦ verify_summary_with key sig summary
        ]

  unfoldable pub verify_summary_fields : Verifier K → Json → Json → Fields → Result ManifestResult
  unfolding verify_summary_strings
  verify_summary_fields verifier (str kid) (str sig_raw) summary =
      verify_summary_strings verifier kid sig_raw summary
  verify_summary_fields verifier _ _ summary = ok (refuse ManifestError.parse_error)

  -- `verify_audit_summary`
  unfoldable pub verify_audit_summary : Json → Verifier K → ManifestResult
  unfolding verify_summary_fields
  verify_audit_summary (obj summary) verifier = never_raise (
      verify_summary_fields verifier (get (codes "summary_kid") summary)
        (get (codes "summary_sig") summary) summary)
  verify_audit_summary _ verifier = refuse ManifestError.parse_error
