-- ===== src/Examples/Tools.antt =====
-- The theorems on the parser, the encodings and the command line at concrete inputs.
use vector_pin.Attestation.Parse.{
  parse_sig, parse_extra, parse_ts, parse_model_hash, parse_hash, parse_dim, parse_dtype,
  parse_name, get, parse_version, check_dict_size, has_unknown, from_fields,
}
use vector_pin.Hash.{hex, hash_vector, hash_text, f32, hash_bytes}
use vector_pin.Attestation.Encode.{sorted_items, canonicalize, pin_to_dict}
use vector_pin.Signer.{pin, sign_with_domain}
use vector_pin.Json.{escape_char, dumps, Fields, int, obj, end, field, str}
use vector_pin.Manifest.Summary.{summary_body, sign_audit_summary, verify_audit_summary}
use vector_pin.Text.{encode_utf8, Text, Bytes, codes}
use vector_pin.Manifest.{canonical_json, accept, validate_ts}
use vector_pin.Prelude.{
  pos, ◌≡◌, ◌⊎◌, ◌↔◌, refl, ap, sym, ◌∙◌, true, false, List, [], ◌∷◌, ◌++◌, none, some, any,
  append_assoc, append-nil,
}
use vector_pin.Outcome.{Result, ok, err, Exc, ◌>>=◌}
use vector_pin.Text.Sort.{sort_by}
use vector_pin.Dict.{lookup, contains}
use vector_pin.Hash.Files.{Hasher, HasherLaws, FilePath, concat, update_all, hash_files}
use vector_pin.Hash.Files.Streaming.{read_all, hash_files-concat}
use vector_pin.Attestation.{Pin, protocol_version}
use vector_pin.Attestation.Base64.{b64, b64dec}
use vector_pin.Attestation.Base64.RoundTrip.{b64dec_iff}
use vector_pin.Attestation.Parse.Parsed.{Parsed, from_fields-Parsed}
use vector_pin.Attestation.Parse.Again.{from_fields-pin_to_dict}
use vector_pin.Manifest.Summary.Verifies.{sign_audit_summary_verifies}
use vector_pin.Verifier.{public_key_for}
use vector_pin.Adapters.Sql.{ident_re, is_forbidden, id_predicate, validate_identifier}
use vector_pin.Adapters.Sql.Literals.{read_literal, id_predicate_literal}
use vector_pin.Adapters.Sql.Identifiers.{IsName, validate_identifier_iff}
use vector_pin.Adapters.Transport.{Url, enforce_tls_pgvector}
use vector_pin.Text.Split.{split_on}
use vector_pin.Adapters.Transport.Refuses.{Loopback, Encrypted, enforce_tls_pgvector_iff}
use vector_pin.Cli.{Inputs, VerifyArgs, owner_only, cmd_verify_pin}
use vector_pin.Cli.Commands.{Verified, cmd_verify_pin_iff}
use vector_pin.Examples.{Array, toy, toy_laws, stamp}
use vector_pin.Examples.Runs.{pin_of, signer, verifier, pinned, now}

abbrev bytes : Bytes
bytes = 255 ∷ 0 ∷ 17 ∷ 4 ∷ []

b64dec_iff_example : (b64dec (codes "_wARBA") ≡ ok bytes) ↔ (codes "_wARBA" ≡ b64 bytes)
b64dec_iff_example = b64dec_iff (codes "_wARBA") bytes refl

abbrev dict : Fields
dict = pin_to_dict pinned

abbrev parsed : Pin
parsed = pin_of (from_fields toy (protocol_version ∷ []) dict)

is_parsed : from_fields toy (protocol_version ∷ []) dict ≡ ok parsed
unfolding from_fields has_unknown pin_to_dict pin hash_text encode_utf8 hash_vector canonicalize
    dumps sorted_items escape_char hex check_dict_size b64 parse_version get parse_name parse_dtype
    parse_dim parse_hash parse_model_hash parse_ts parse_extra parse_sig b64dec
is_parsed = refl

from_fields-Parsed_example : Parsed toy (protocol_version ∷ []) dict parsed
from_fields-Parsed_example = from_fields-Parsed toy (protocol_version ∷ []) dict parsed is_parsed

from_fields-pin_to_dict_example :
    from_fields toy (protocol_version ∷ []) (pin_to_dict parsed)
    ≡ ok (record parsed {
      header = record parsed.header { extra = sorted_items parsed.header.extra };
    })
from_fields-pin_to_dict_example =
    from_fields-pin_to_dict toy (protocol_version ∷ []) dict parsed is_parsed

abbrev summary : Fields
summary = field (codes "total") (int (pos 2)) end

abbrev signed : Fields
signed = elim (sign_audit_summary toy signer summary now) [ ok d ↦ d | err e ↦ end ]

was_signed : sign_audit_summary toy signer summary now ≡ ok signed
unfolding sign_audit_summary canonical_json encode_utf8 dumps summary_body escape_char
    sign_with_domain
was_signed = refl

ts_valid : validate_ts (str stamp) ≡ ok stamp
unfolding validate_ts
ts_valid = refl

is_known : public_key_for toy verifier (codes "k1") ≡ some 7
unfolding public_key_for lookup
is_known = refl

sign_audit_summary_verifies_example : verify_audit_summary toy (obj signed) verifier ≡ accept
sign_audit_summary_verifies_example =
    sign_audit_summary_verifies toy toy_laws signer summary signed now stamp verifier was_signed
      ts_valid is_known

-- A record id that would end a literal, were its quote not doubled.
abbrev predicate : Text
predicate = codes "id = 'x'' OR 1=1'"

is_predicate : id_predicate (codes "id") (codes "x' OR 1=1") ≡ ok predicate
unfolding id_predicate
is_predicate = refl

id_predicate_literal_example :
    (ident_re (codes "id") ≡ true)
    × (any is_forbidden (codes "x' OR 1=1") ≡ false)
    × ((literal : Text) × (predicate ≡ codes "id" ++ codes " = '" ++ literal)
        × (read_literal literal ≡ some (codes "x' OR 1=1", [])))
id_predicate_literal_example =
    id_predicate_literal (codes "id") (codes "x' OR 1=1") predicate is_predicate

-- An identifier with a newline behind it.
validate_identifier_iff_example :
    (validate_identifier (codes "id" ++ 10 ∷ []) ≡ ok (codes "id" ++ 10 ∷ []))
    ↔ IsName (codes "id" ++ 10 ∷ [])
validate_identifier_iff_example = validate_identifier_iff (codes "id" ++ 10 ∷ [])

-- A database whose URL asks for encryption and then takes it back.
abbrev parse_url : Text → Url
parse_url s = record {
  scheme = codes "postgresql";
  hostname = some (codes "db");
  query = codes "sslmode=require&sslmode=disable";
}

enforce_tls_pgvector_iff_example :
    ((enforce_tls_pgvector parse_url false (codes "dsn") ≡ ok tt) ↔ (
      (contains (codes "postgresql") (codes "postgresql" ∷ codes "postgres" ∷ []) ≡ false)
      ⊎ (Loopback (some (codes "db"))
          ⊎ (Encrypted (split_on b'&' (codes "sslmode=require&sslmode=disable"))
              ⊎ (false ≡ true)))))
    × ((enforce_tls_pgvector parse_url false (codes "dsn") ≡ ok tt)
        ⊎ (enforce_tls_pgvector parse_url false (codes "dsn") ≡ err Exc.value_error))
enforce_tls_pgvector_iff_example = enforce_tls_pgvector_iff parse_url false (codes "dsn")

abbrev files : Text → Result Bytes
files path = ok (codes "contents of " ++ path)

abbrev inputs : Inputs Array
inputs = record {
  disk = (codes "k.pub", record { contents = 7 ∷ []; mode = owner_only }) ∷ [];
  read_text = files;
  suffix = λ path. [];
  load_npy = λ path. ok none;
  from_json_values = λ t j. err Exc.value_error;
  quiet = false;
}

abbrev arguments : VerifyArgs
arguments = record {
  public_key = codes "k.pub";
  key_id = codes "k1";
  pin = codes "pin.json";
  source = none;
  vector = none;
  vector_dtype = f32;
  expected_model = none;
  expected_model_hash = none;
  record_id = none;
  collection_id = none;
  tenant_id = none;
}

cmd_verify_pin_iff_example :
    (cmd_verify_pin toy inputs arguments ≡ ok 0 → Verified toy inputs arguments)
    × (Verified toy inputs arguments → cmd_verify_pin toy inputs arguments ≡ ok 0)
cmd_verify_pin_iff_example = cmd_verify_pin_iff toy inputs arguments

-- A hasher that keeps what it was given.
abbrev hasher : Hasher Bytes
hasher = record { start = []; update = λ h c. h ++ c; digest = toy.sha256 }

update_all-concat : (h : Bytes) (cs : List Bytes) → update_all hasher h cs ≡ h ++ concat cs
unfolding update_all concat
update_all-concat h [] = sym (append-nil h)
update_all-concat h (c ∷ cs) = update_all-concat (h ++ c) cs ∙ append_assoc h c (concat cs)

hasher_laws : HasherLaws hasher toy
hasher_laws = record { digest_parts = λ cs. ap toy.sha256 (update_all-concat [] cs) }

abbrev paths : List FilePath
paths =
    record { path = codes "d/b"; name = codes "b" }
    ∷ record { path = codes "e/a"; name = codes "a" }
    ∷ []

hash_files-concat_example : hash_files hasher files paths ≡ (
    read_all files (sort_by (λ f. f.name) paths) >>= λ contents.
    ok (hash_bytes toy (concat contents)))
hash_files-concat_example = hash_files-concat hasher toy hasher_laws files paths
