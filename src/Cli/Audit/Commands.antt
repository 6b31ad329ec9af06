-- ===== src/Cli/Audit/Commands.antt =====
-- The four `_cmd_audit_...` of src/vectorpin/cli.py.
use vector_pin.Prelude.{ℕ, ℤ, Bool, List, [], Option, none, some, if◌then◌else◌}
use vector_pin.Outcome.{Result, ok, Exc, ◌>>=◌}
use vector_pin.Text.{Text, codes}
use vector_pin.Text.Equality.{text_eq}
use vector_pin.Dict.{Dict}
use vector_pin.Platform.{Platform, Datetime}
use vector_pin.Hash.{f32, little_float}
use vector_pin.Adapters.Vectors.{Arrays}
use vector_pin.Adapters.Transport.{Url}
use vector_pin.Adapters.Backends.{pin_metadata_key}
use vector_pin.Adapters.Backends.Qdrant
use vector_pin.Adapters.Backends.Lancedb
use vector_pin.Adapters.Backends.Pgvector
use vector_pin.Adapters.Backends.Chroma
use vector_pin.Audit.{Report}
use vector_pin.Cli.{Inputs, given}
use vector_pin.Cli.Audit.{AuditArgs, parse_headers, or_none, cmd_audit}

module _ {K S A : Type 0} (p : Platform K S A) (i : Inputs A) where
  -- `_cmd_audit_qdrant`, with the client that `QdrantClient(...)` gives
  unfoldable pub cmd_audit_qdrant :
      {V O W : Type 0}
      → Arrays V A
      → (Text → Url)
      → Bool
      → (Text → Option Text → Result (Qdrant.Client V A O W))
      → W
      → ℕ
      → (Exc → Text)
      → AuditArgs
      → Text
      → Text
      → Option Text
      → Text
      → Option Text
      → ℕ
      → Datetime
      → Option (Result Report)
  unfolding cmd_audit Qdrant.connect Qdrant.iter_records
  cmd_audit_qdrant n urlparse insecure open_client w fuel describe a url collection api_key
        vector_dtype source_key batch_size now =
      cmd_audit p i describe a source_key (codes "collection") collection now
        (Qdrant.connect urlparse insecure open_client url api_key)
        (λ c.
          Qdrant.iter_records p n (little_float (if text_eq vector_dtype f32 then 4 else 8)) c w
            fuel batch_size)

  -- `_cmd_audit_lancedb`, with the table that `open_table` gives
  unfoldable pub cmd_audit_lancedb :
      {V W : Type 0}
      → Arrays V A
      → (Text → Text → Result (Lancedb.Table V A W))
      → W
      → (Exc → Text)
      → AuditArgs
      → Text
      → Text
      → Text
      → Text
      → Option Text
      → ℕ
      → Datetime
      → Option (Result Report)
  unfolding cmd_audit Lancedb.columns Lancedb.iter_records
  cmd_audit_lancedb n open_table w describe a uri table id vec source_key batch_size now =
      cmd_audit p i describe a source_key (codes "table") table now
        (open_table uri table >>= λ t. Lancedb.columns id vec pin_metadata_key >>= λ k. ok (t, k))
        (λ (t, k). some (Lancedb.iter_records p n k t w batch_size))

  -- `_cmd_audit_pgvector`, with the connection that `psycopg.connect` gives
  unfoldable pub cmd_audit_pgvector :
      {V Cursor W : Type 0}
      → Arrays V A
      → (Text → Url)
      → Bool
      → (Text → Result (Pgvector.Connection V A Cursor W))
      → W
      → ℕ
      → (Exc → Text)
      → AuditArgs
      → Text
      → Text
      → Text
      → Text
      → Text
      → ℤ
      → Datetime
      → Option (Result Report)
  unfolding cmd_audit Pgvector.connect Pgvector.iter_records
  cmd_audit_pgvector n urlparse insecure open_connection w fuel describe a dsn table id vec pin
        batch_size now =
      cmd_audit p i describe a none (codes "table") table now
        (Pgvector.connect urlparse insecure open_connection dsn table id vec pin)
        (λ (c, t). Pgvector.iter_records p n t c w fuel batch_size)

  -- The collection of `_cmd_audit_chroma`: over HTTP, from a local store, or neither
  unfoldable pub chroma_collection :
      {C : Type 0}
      → Bool
      → (Text → Bool → Option (Dict Text) → Result C)
      → (Text → Result C)
      → Option Text
      → Option Text
      → Bool
      → List Text
      → Option (Result C)
  unfolding Chroma.connect_http parse_headers
  chroma_collection insecure open_http open_local host path ssl pairs = elim (given host) [
    | some h ↦ some (
        parse_headers [] pairs >>= λ headers.
        Chroma.connect_http insecure open_http h ssl (or_none headers))
    | none ↦ elim (given path) [ some s ↦ some (open_local s) | none ↦ none ]
  ]

  -- `_cmd_audit_chroma`, where a collection is named; without one the command returns 2.
  unfoldable pub cmd_audit_chroma :
      {V W : Type 0}
      → Arrays V A
      → W
      → ℕ
      → (Exc → Text)
      → AuditArgs
      → Text
      → Option Text
      → ℕ
      → Datetime
      → Result (Chroma.Collection V A W)
      → Option (Result Report)
  unfolding cmd_audit Chroma.iter_records
  cmd_audit_chroma n w fuel describe a collection source_key batch_size now connected =
      cmd_audit p i describe a source_key (codes "collection") collection now connected
        (λ c. Chroma.iter_records p n c w fuel batch_size)
