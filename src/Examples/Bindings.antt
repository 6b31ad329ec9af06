-- ===== src/Examples/Bindings.antt =====
-- The theorems on the key registry, on manifests and on stored pins at concrete inputs.
use vector_pin.Verifier.{Verifier, KeyEntry, KeyArg, coerce_entry, add_key, verify}
use vector_pin.Adapters.{RawField}
use vector_pin.Attestation.Parse.{get}
use vector_pin.Attestation.Encode.{to_json, pin_to_dict}
use vector_pin.Text.{encode_pass, Text, Bytes, codes}
use vector_pin.Audit.{Report}
use vector_pin.Prelude.{
  pos, true, sym, ℕ, ◌≡◌, ◌⊎◌, refl, ap, List, [], ◌∷◌, Option, none, some, false, take, drop, All,
}
use mathlib.Core.List.Perm
use vector_pin.Outcome.{Result, ok, ◌>>=◌}
use vector_pin.Text.Sort.{sort_by}
use vector_pin.Dict.{Dict, lookup}
use vector_pin.Verifier.Rotation.{merged, add_key_rotates}
use vector_pin.Manifest.{verify_manifest}
use vector_pin.Manifest.Merkle.{record_id}
use vector_pin.Manifest.Merkle.Binding.{TreesCollide}
use vector_pin.Manifest.Merkle.Leaves.{PlainHash}
use vector_pin.Manifest.Binds.{verify_manifest_binds}
use vector_pin.Manifest.Verifies.{build_verifies}
use vector_pin.Adapters.Vectors.{Delivered}
use vector_pin.Adapters.Backends.{Value, float32, other_fields, build_record}
use vector_pin.Adapters.Backends.Chroma
use vector_pin.Adapters.Backends.Attach.{get-attach_pin}
use vector_pin.Examples.{Array, toy, toy_laws}
use vector_pin.Examples.Runs.{truth, signer, verifier, pinned, array, now}
use vector_pin.Examples.Walks.{two_entries, swapped, manifest, manifest_built, signer_known}
use vector_pin.Examples.Stores.{arrays, inputs, flags, describe}
use vector_pin.Adapters.Transport.{Url}
use vector_pin.Adapters.Backends.Pgvector
use vector_pin.Cli.Audit.Commands.{cmd_audit_pgvector}

-- A new key for the signer's key id, valid from a time on.
abbrev rotated : Verifier ℕ
rotated = record {
  keys =
      (codes "k0", record { public_key = 3; valid_from = some now; valid_until = none })
      ∷ (codes "k1", record { public_key = 9; valid_from = some now; valid_until = none })
      ∷ [];
  accept_v1_legacy = verifier.accept_v1_legacy;
  accepted_versions = verifier.accepted_versions;
}

was_rotated :
    add_key toy verifier (codes "k1") (KeyArg.of_bytes (9 ∷ [])) (some now) none ≡ ok rotated
unfolding add_key
was_rotated = refl

add_key_rotates_example :
    ((pinned.header.kid ≡ codes "k1")
      ⊎ (verify toy rotated pinned truth ≡ verify toy verifier pinned truth))
    × ((e : KeyEntry ℕ) × (coerce_entry toy (KeyArg.of_bytes (9 ∷ [])) ≡ ok e)
        × (lookup (codes "k1") rotated.keys ≡ some (merged e (some now) none)))
add_key_rotates_example =
    add_key_rotates toy verifier rotated (codes "k1") (KeyArg.of_bytes (9 ∷ [])) (some now) none
      pinned truth was_rotated

swapped_accepted :
    (verify_manifest toy manifest verifier swapped (some manifest.collection_id)).is_ok ≡ true
swapped_accepted =
    ap (λ r. r.is_ok)
      (build_verifies toy toy_laws signer (codes "c") two_entries swapped now manifest verifier
        manifest_built (Perm.swap (codes "r2", []) (codes "r1", codes "h1") []) signer_known)

same_accepted :
    (verify_manifest toy manifest verifier two_entries (some manifest.collection_id)).is_ok ≡ true
same_accepted =
    ap (λ r. r.is_ok)
      (build_verifies toy toy_laws signer (codes "c") two_entries two_entries now manifest verifier
        manifest_built (Perm.refl two_entries) signer_known)

-- Of a pinned and an unpinned record.
plain_hashes : All PlainHash two_entries
unfolding encode_pass
plain_hashes = (((λ e. cc), ((λ e. cc), tt)), (tt, tt))

plain_swapped : All PlainHash swapped
plain_swapped = (plain_hashes.1.0, (plain_hashes.0, tt))

verify_manifest_binds_example :
    (sort_by record_id two_entries ≡ sort_by record_id swapped)
    ⊎ TreesCollide toy (sort_by record_id two_entries) (sort_by record_id swapped)
verify_manifest_binds_example =
    verify_manifest_binds toy toy_laws manifest verifier verifier two_entries swapped
      (some manifest.collection_id) (some manifest.collection_id) plain_hashes plain_swapped
      same_accepted swapped_accepted

-- A collection of one row, whose state is the row's metadata.
abbrev row : Dict Value → Chroma.Row Bytes Array
row meta = record {
  id = codes "r1";
  embedding = ok (some (Delivered.array array));
  metadata = ok (some meta);
}

abbrev collection : Chroma.Collection Bytes Array (Dict Value)
collection = record {
  get_page = λ w limit offset. ok (row w ∷ []);
  get_ids = λ w rid. ok (row w ∷ []);
  update = λ w rid meta. ok meta;
}

abbrev before : Dict Value
before = (codes "page", record { raw = RawField.text (codes "4"); shown = some (codes "4") }) ∷ []

abbrev attached : Dict Value
attached =
    (codes "page", record { raw = RawField.text (codes "4"); shown = some (codes "4") })
    ∷ (codes "vectorpin", Chroma.json_value (to_json pinned))
    ∷ []

was_attached : Chroma.attach_pin toy arrays collection before (codes "r1") pinned ≡ ok attached
unfolding Chroma.attach_pin
was_attached = refl

get-attach_pin_example : Chroma.get toy arrays collection attached (codes "r1") ≡ (
    (row before).embedding >>= λ embedding.
    build_record toy arrays
      (some float32)
      (codes "r1")
      embedding
      (RawField.text (to_json pinned))
      (other_fields before))
get-attach_pin_example =
    get-attach_pin toy arrays collection before attached (codes "r1") pinned (row before) []
      (some before) refl refl (λ meta e. ap (λ r. r >>= λ m. ok (row m ∷ [])) (sym e)) was_attached

-- A table of one row with a pin, on the local host.
abbrev table_rows : List (Pgvector.Row Bytes Array)
table_rows =
    record {
      id = codes "1";
      embedding = some (Delivered.array array);
      payload = Pgvector.field (RawField.dict (pin_to_dict pinned));
    }
    ∷ []

abbrev database : Pgvector.Connection Bytes Array (List (Pgvector.Row Bytes Array)) ℕ
database = record {
  execute = λ w sql params. ok table_rows;
  fetchmany = λ cur k. ok (take k cur, drop k cur);
  fetchone = λ cur. ok none;
  execute_update = λ w sql params. ok (w, 0);
}

abbrev local_url : Text → Url
local_url s = record {
  scheme = codes "postgresql";
  hostname = some (codes "localhost");
  query = [];
}

abbrev table_audit : Option (Result Report)
table_audit =
    cmd_audit_pgvector toy inputs arrays local_url false (λ dsn. ok database) 0 2 describe flags
      (codes "d") (codes "t") (codes "id") (codes "v") (codes "p") (pos 5) now
