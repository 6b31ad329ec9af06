-- ===== src/Cli/Arguments.antt =====
-- src/vectorpin/cli.py: the namespace that argparse returns, and the arguments of each command.
use vector_pin.Prelude.{ℤ, pos, Bool, false, List, [], Option, none, some}
use vector_pin.Text.{Text, codes}
use vector_pin.Dict.{Dict}
use vector_pin.Cli.{PinArgs, VerifyArgs}
use vector_pin.Cli.Audit.{AuditArgs}
use vector_pin.Cli.Options.{
  Declared, Value, absent, text_value, number_value, switch_value, list_value, declared, value_in,
}

-- The attributes of the namespace.
pub record Namespace : Type 0 where
  pub options : List Declared
  pub attributes : Dict Value

-- `getattr(args, dest)`, for the option string of `dest`
unfoldable pub attribute : Namespace → Text → Value
unfolding declared value_in
attribute ns flag = elim (declared flag ns.options) [
  | none ↦ absent
  | some d ↦ value_in d ns.attributes
]

-- The attribute as the type that the command reads it with.
abbrev pub as_text : Value → Text
as_text (text_value s) = s
as_text _ = []

abbrev pub as_option : Value → Option Text
as_option (text_value s) = some s
as_option _ = none

abbrev pub as_number : Value → ℤ
as_number (number_value n) = n
as_number _ = pos 0

abbrev pub as_switch : Value → Bool
as_switch (switch_value b) = b
as_switch _ = false

-- `args.header or []`
abbrev pub as_list : Value → List Text
as_list (list_value s) = s
as_list _ = []

-- The arguments of each command.
pub record KeygenArgs : Type 0 where
  pub key_id : Text
  pub output : Text

pub record SummaryArgs : Type 0 where
  pub public_key : Text
  pub key_id : Text
  pub summary : Text

pub record QdrantArgs : Type 0 where
  pub audit : AuditArgs
  pub batch_size : ℤ
  pub url : Text
  pub collection : Text
  pub api_key : Option Text
  pub vector_dtype : Text
  pub source_payload_key : Option Text

pub record LancedbArgs : Type 0 where
  pub audit : AuditArgs
  pub batch_size : ℤ
  pub uri : Text
  pub table : Text
  pub id_column : Text
  pub vector_column : Text
  pub source_column : Option Text

pub record ChromaArgs : Type 0 where
  pub audit : AuditArgs
  pub batch_size : ℤ
  pub collection : Text
  pub path : Option Text
  pub host : Option Text
  pub port : ℤ
  pub ssl : Bool
  pub header : List Text
  pub source_metadata_key : Option Text

pub record PgvectorArgs : Type 0 where
  pub audit : AuditArgs
  pub batch_size : ℤ
  pub dsn : Text
  pub table : Text
  pub id_column : Text
  pub vector_column : Text
  pub pin_column : Text

module _ (ns : Namespace) where
  abbrev pub text_at : Text → Text
  text_at flag = as_text (attribute ns flag)

  abbrev pub option_at : Text → Option Text
  option_at flag = as_option (attribute ns flag)

  abbrev pub switch_at : Text → Bool
  switch_at flag = as_switch (attribute ns flag)

  abbrev pub number_at : Text → ℤ
  number_at flag = as_number (attribute ns flag)

  -- The flags of `_add_audit_common_args`
  unfoldable pub audit_args_of : AuditArgs
  unfolding attribute
  audit_args_of = record {
    public_key = text_at (codes "--public-key");
    key_id = text_at (codes "--key-id");
    allow_unpinned = switch_at (codes "--allow-unpinned");
    no_record_id_check = switch_at (codes "--no-record-id-check");
    collection_id = option_at (codes "--collection-id");
    tenant_id = option_at (codes "--tenant-id");
    expected_model = option_at (codes "--expected-model");
    expected_model_hash = option_at (codes "--expected-model-hash");
    manifest = option_at (codes "--manifest");
    manifest_public_key = option_at (codes "--manifest-public-key");
    manifest_key_id = option_at (codes "--manifest-key-id");
    write_manifest = option_at (codes "--write-manifest");
    manifest_key = option_at (codes "--manifest-key");
    sign_summary_key = option_at (codes "--sign-summary-key");
    sign_summary_key_id = option_at (codes "--sign-summary-key-id");
  }

  unfoldable pub pin_args_of : PinArgs
  unfolding attribute
  pin_args_of = record {
    private_key = text_at (codes "--private-key");
    key_id = text_at (codes "--key-id");
    model = text_at (codes "--model");
    model_hash = option_at (codes "--model-hash");
    source = text_at (codes "--source");
    vector = text_at (codes "--vector");
    vector_dtype = text_at (codes "--vector-dtype");
    record_id = option_at (codes "--record-id");
    collection_id = option_at (codes "--collection-id");
    tenant_id = option_at (codes "--tenant-id");
  }

  unfoldable pub verify_args_of : VerifyArgs
  unfolding attribute
  verify_args_of = record {
    public_key = text_at (codes "--public-key");
    key_id = text_at (codes "--key-id");
    pin = text_at (codes "--pin");
    source = option_at (codes "--source");
    vector = option_at (codes "--vector");
    vector_dtype = text_at (codes "--vector-dtype");
    expected_model = option_at (codes "--expected-model");
    expected_model_hash = option_at (codes "--expected-model-hash");
    record_id = option_at (codes "--record-id");
    collection_id = option_at (codes "--collection-id");
    tenant_id = option_at (codes "--tenant-id");
  }

  unfoldable pub qdrant_args_of : QdrantArgs
  unfolding attribute audit_args_of
  qdrant_args_of = record {
    audit = audit_args_of;
    batch_size = number_at (codes "--batch-size");
    url = text_at (codes "--url");
    collection = text_at (codes "--collection");
    api_key = option_at (codes "--api-key");
    vector_dtype = text_at (codes "--vector-dtype");
    source_payload_key = option_at (codes "--source-payload-key");
  }

  unfoldable pub lancedb_args_of : LancedbArgs
  unfolding attribute audit_args_of
  lancedb_args_of = record {
    audit = audit_args_of;
    batch_size = number_at (codes "--batch-size");
    uri = text_at (codes "--uri");
    table = text_at (codes "--table");
    id_column = text_at (codes "--id-column");
    vector_column = text_at (codes "--vector-column");
    source_column = option_at (codes "--source-column");
  }

  unfoldable pub chroma_args_of : ChromaArgs
  unfolding attribute audit_args_of
  chroma_args_of = record {
    audit = audit_args_of;
    batch_size = number_at (codes "--batch-size");
    collection = text_at (codes "--collection");
    path = option_at (codes "--path");
    host = option_at (codes "--host");
    port = number_at (codes "--port");
    ssl = switch_at (codes "--ssl");
    header = as_list (attribute ns (codes "--header"));
    source_metadata_key = option_at (codes "--source-metadata-key");
  }

  unfoldable pub pgvector_args_of : PgvectorArgs
  unfolding attribute audit_args_of
  pgvector_args_of = record {
    audit = audit_args_of;
    batch_size = number_at (codes "--batch-size");
    dsn = text_at (codes "--dsn");
    table = text_at (codes "--table");
    id_column = text_at (codes "--id-column");
    vector_column = text_at (codes "--vector-column");
    pin_column = text_at (codes "--pin-column");
  }
