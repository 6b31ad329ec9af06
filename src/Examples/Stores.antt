-- ===== src/Examples/Stores.antt =====
-- The theorems on the store adapters at concrete inputs.
use vector_pin.Verifier.{
  check_replay, check_model, check_array, check_vector, check_source, canonical_for,
  check_signature, check_window, verify_with, accepted, verify_inner, new_verifier, verify,
}
use vector_pin.Hash.{is_wider_than, little_float, is_1d, hash_text, hash_vector, hex}
use vector_pin.Adapters.{verify_pinned, verify_source, verify_record, RawField}
use vector_pin.Attestation.Base64.{b64dec, b64}
use vector_pin.Attestation.Parse.{
  parse_sig, parse_extra, parse_ts, parse_model_hash, parse_hash, parse_dim, parse_dtype,
  parse_name, get, parse_version, check_dict_size, from_dict, has_unknown,
}
use vector_pin.Audit.{
  audit_signed, audit_written, Report, bad_after, audit_manifest, audit_walk, audit_record,
}
use vector_pin.Prelude.{
  pos, inr, ℕ, ◌+◌, ◌≡◌, refl, ap, sym, true, false, List, [], ◌∷◌, Option, none, some, take, drop,
  arith, length,
}
use vector_pin.Outcome.{Result, ok, err, Exc, ok-injective}
use vector_pin.Text.{Text, Bytes, codes, encode_utf8}
use vector_pin.Text.Equality.{text_eq}
use vector_pin.Attestation.Encode.{pin_to_dict, canonicalize, sorted_items}
use vector_pin.Adapters.Sql.{PgTable}
use vector_pin.Adapters.Vectors.{Delivered, Arrays, ArraysLaws, as_array, vector_from_store}
use vector_pin.Adapters.Vectors.Exact.{KeepsValues, vector_from_store_exact}
use vector_pin.Adapters.Stream.{yield_all}
use vector_pin.Adapters.Backends.{pin_metadata_key, float32}
use vector_pin.Adapters.Backends.Chroma
use vector_pin.Adapters.Backends.Qdrant
use vector_pin.Adapters.Backends.Pgvector
use vector_pin.Adapters.Backends.Walks.{chroma_walk, qdrant_walk, pgvector_walk}
use vector_pin.Signer.{pin}
use vector_pin.Json.{dumps, escape_char, end}
use vector_pin.Cli.{Inputs, owner_only}
use vector_pin.Cli.Audit.{AuditArgs}
use vector_pin.Cli.Audit.Commands.{cmd_audit_chroma}
use vector_pin.Cli.Audit.Covers.{Shown, cmd_audit_chroma_covers}
use vector_pin.Examples.{Array, toy}
use vector_pin.Examples.Runs.{array, pinned, now}

-- Arrays of numbers below 256, which every dtype holds.
abbrev pub arrays : Arrays Bytes Array
arrays = record {
  from_values = λ v. ok (record { dtype = little_float 8; shape = length v ∷ []; contents = v });
  from_values_f64 =
      λ v. ok (record { dtype = little_float 8; shape = length v ∷ []; contents = v });
  convert = λ t a. ok (record a { dtype = t });
  array_equal = λ a b. text_eq a.contents b.contents;
}

arrays_laws : ArraysLaws toy arrays
arrays_laws = record { dtype_convert = λ t a b h. ap (λ c. c.dtype) (sym (ok-injective h)) }

abbrev narrowed : Array
narrowed = record { dtype = float32; shape = 3 ∷ []; contents = 1 ∷ 2 ∷ 3 ∷ [] }

was_narrowed :
    vector_from_store toy arrays (some float32) (Delivered.sequence (1 ∷ 2 ∷ 3 ∷ [])) ≡ ok narrowed
unfolding vector_from_store
was_narrowed = refl

vector_from_store_exact_example :
    (narrowed.dtype ≡ float32)
    × (is_1d narrowed.shape ≡ true)
    × ((d : Array) × (as_array toy arrays (Delivered.sequence (1 ∷ 2 ∷ 3 ∷ [])) ≡ ok d)
        × KeepsValues toy arrays arrays_laws float32 d narrowed)
vector_from_store_exact_example =
    vector_from_store_exact toy arrays arrays_laws float32 (Delivered.sequence (1 ∷ 2 ∷ 3 ∷ []))
      narrowed was_narrowed

-- Two rows: one with a vector, and one without, at which the generator raises.
abbrev with_vector : Chroma.Row Bytes Array
with_vector = record {
  id = codes "r1";
  embedding = ok (some (Delivered.array array));
  metadata = ok (
      some (
        (pin_metadata_key, record { raw = RawField.dict (pin_to_dict pinned); shown = none })
        ∷ []));
}

abbrev chroma_rows : List (Chroma.Row Bytes Array)
chroma_rows = with_vector ∷ record { id = codes "r2"; embedding = ok none; metadata = ok none } ∷ []

abbrev serving : List (Chroma.Row Bytes Array) → Chroma.Collection Bytes Array ℕ
serving rows = record {
  get_page = λ w limit offset. ok (take limit (drop offset rows));
  get_ids = λ w rid. ok [];
  update = λ w rid meta. ok w;
}

chroma_walk_example :
    Chroma.iter_records toy arrays (serving chroma_rows) 0 3 1
    ≡ some (yield_all (Chroma.build_row toy arrays (serving chroma_rows) 0) chroma_rows)
chroma_walk_example =
    chroma_walk toy arrays (serving chroma_rows) 0 chroma_rows 3 1 (λ limit offset. refl)
      (omega arith) (omega arith)

abbrev points : List (Qdrant.Point Bytes Array)
points =
    record { id = codes "1"; vector = some (Delivered.array array); payload = none }
    ∷ record { id = codes "2"; vector = some (Delivered.sequence (1 ∷ [])); payload = none }
    ∷ []

abbrev position : Option ℕ → ℕ
position none = 0
position (some o) = o

-- A client whose offsets are positions, and which returns one as long as the batch is full.
abbrev scroll_at :
    List (Qdrant.Point Bytes Array) → ℕ → Option ℕ → List (Qdrant.Point Bytes Array) × Option ℕ
scroll_at rows b o = (take b (drop (position o) rows), some (position o + b))

abbrev client : Qdrant.Client Bytes Array ℕ ℕ
client = record {
  scroll = λ w b o. ok (scroll_at points b o);
  retrieve = λ w rid. ok [];
  set_payload = λ w rid key pin. ok w;
}

qdrant_walk_example :
    Qdrant.iter_records toy arrays float32 client 0 3 1
    ≡ some (yield_all (Qdrant.point_to_record toy arrays float32 client 0) points)
qdrant_walk_example =
    qdrant_walk toy arrays float32 client 0 points 3 1 position refl
      (λ o. (some (position o + 1), refl, inr (position o + 1, refl, refl))) (omega arith)
      (omega arith)

abbrev pg_rows : List (Pgvector.Row Bytes Array)
pg_rows =
    record {
      id = codes "1";
      embedding = some (Delivered.array array);
      payload = Pgvector.field RawField.absent;
    }
    ∷ record {
      id = codes "2";
      embedding = some (Delivered.array array);
      payload = Pgvector.other none;
    }
    ∷ []

abbrev pub table : PgTable
table = record { table = codes "t"; id = codes "id"; vec = codes "v"; pin = codes "p" }

-- A cursor is the list of the rows that are left.
abbrev connection : Pgvector.Connection Bytes Array (List (Pgvector.Row Bytes Array)) ℕ
connection = record {
  execute = λ w sql params. ok pg_rows;
  fetchmany = λ cur k. ok (take k cur, drop k cur);
  fetchone = λ cur. ok none;
  execute_update = λ w sql params. ok (w, 0);
}

pgvector_walk_example :
    Pgvector.iter_records toy arrays table connection 0 3 (pos 0)
    ≡ some (yield_all (Pgvector.row_to_record toy arrays table connection 0) pg_rows)
pgvector_walk_example =
    pgvector_walk toy arrays table connection 0 3 (pos 0) pg_rows (λ cur. cur) refl
      (λ cur k. (drop k cur, refl, refl)) (omega arith)

abbrev pub inputs : Inputs Array
inputs = record {
  disk = (codes "k.pub", record { contents = 7 ∷ []; mode = owner_only }) ∷ [];
  read_text = λ path. err Exc.other;
  suffix = λ path. [];
  load_npy = λ path. ok none;
  from_json_values = λ t j. err Exc.value_error;
  quiet = false;
}

abbrev pub flags : AuditArgs
flags = record {
  public_key = codes "k.pub";
  key_id = codes "k1";
  allow_unpinned = false;
  no_record_id_check = true;
  collection_id = none;
  tenant_id = none;
  expected_model = some (codes "m");
  expected_model_hash = none;
  manifest = none;
  manifest_public_key = none;
  manifest_key_id = none;
  write_manifest = none;
  manifest_key = none;
  sign_summary_key = none;
  sign_summary_key_id = none;
}

abbrev one_row : List (Chroma.Row Bytes Array)
one_row = with_vector ∷ []

abbrev pub describe : Exc → Text
describe e = []

abbrev no_report : Report
no_report = record { summary = end; written = none; exit_code = 9 }

abbrev pub report_of : Option (Result Report) → Report
report_of none = no_report
report_of (some (err e)) = no_report
report_of (some (ok r)) = r

abbrev audited : Option (Result Report)
audited =
    cmd_audit_chroma toy inputs arrays 0 2 describe flags (codes "c") none 1 now
      (ok (serving one_row))

audit_reported : audited ≡ some (ok (report_of audited))
unfolding cmd_audit_chroma new_verifier audit_written audit_signed
audit_reported = refl

audit_passed : (report_of audited).exit_code ≡ 0
unfolding cmd_audit_chroma new_verifier audit_written audit_signed bad_after audit_manifest
    audit_walk audit_record pin_to_dict from_dict has_unknown pin hash_text encode_utf8 hash_vector
    canonicalize dumps sorted_items escape_char hex verify check_dict_size b64 parse_version get
    parse_name parse_dtype parse_dim parse_hash parse_model_hash parse_ts parse_extra parse_sig
    b64dec verify_record verify_source verify_pinned verify_inner accepted verify_with check_window
    check_signature canonical_for check_source check_vector check_array is_wider_than check_model
    check_replay
audit_passed = refl

cmd_audit_chroma_covers_example :
    Shown toy inputs describe
      (Chroma.build_row toy arrays (serving one_row) 0)
      one_row
      flags
      none
      (codes "collection")
      (codes "c")
      now
cmd_audit_chroma_covers_example =
    cmd_audit_chroma_covers toy inputs describe arrays 0 2 flags (codes "c") none 1 now
      (serving one_row) one_row (report_of audited) (λ limit offset. refl) (omega arith)
      (omega arith) audit_reported audit_passed
