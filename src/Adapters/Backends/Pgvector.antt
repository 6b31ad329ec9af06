-- ===== src/Adapters/Backends/Pgvector.antt =====
-- `PgVectorAdapter` of src/vectorpin/adapters/pgvector.py.
use vector_pin.Prelude.{
  ℕ, ℤ, pos, negsuc, Bool, List, [], ◌∷◌, Option, none, some, if◌then◌else◌, leb, ◌==◌,
}
use vector_pin.Outcome.{Result, ok, err, Exc, ◌>>=◌, ◌>>◌}
use vector_pin.Text.{Text}
use vector_pin.Platform.{Platform}
use vector_pin.Attestation.{Pin}
use vector_pin.Attestation.Encode.{to_json}
use vector_pin.Adapters.{PinnedRecord, RawField}
use vector_pin.Adapters.Sql.{PgTable, pg_table, select_all, select_one, update_pin}
use vector_pin.Adapters.Transport.{Url, enforce_tls_pgvector}
use vector_pin.Adapters.Vectors.{Delivered, Arrays}
use vector_pin.Adapters.Stream.{Stream, Page, each_page, raising}
use vector_pin.Adapters.Backends.{float32, build_record}

-- The pin column of a row: NULL, text, a decoded object, or another decoded value, with what
-- `json.dumps` gives of it, if it does not raise.
pub data Payload : Type 0 where
  field : RawField → Payload
  other : Option Text → Payload

pub record Row (V A : Type 0) : Type 0 where
  pub id : Text
  pub embedding : Option (Delivered V A)
  pub payload : Payload

-- A connection, on a state of the database: the cursor of a statement and its parameters, the rows
-- that a cursor hands out, and the count of rows that an update changed.
pub record Connection (V A Cursor W : Type 0) : Type 0 where
  pub execute : W → Text → List Text → Result Cursor
  pub fetchmany : Cursor → ℕ → Result (List (Row V A) × Cursor)
  pub fetchone : Cursor → Result (Option (Row V A))
  pub execute_update : W → Text → List Text → Result (W × ℕ)

-- `connect`
unfoldable pub connect :
    {C : Type 0}
    → (Text → Url)
    → Bool
    → (Text → Result C)
    → Text
    → Text
    → Text
    → Text
    → Text
    → Result (C × PgTable)
unfolding enforce_tls_pgvector pg_table
connect urlparse allow_insecure open_connection dsn table id vec pin = do
  enforce_tls_pgvector urlparse allow_insecure dsn
  conn ← open_connection dsn
  t ← pg_table table id vec pin
  ok (conn, t)

-- What is parsed: a value that is no object is dumped, so that the parser refuses it.
unfoldable pub payload_field : Payload → RawField
payload_field (field raw) = raw
payload_field (other none) = RawField.text []
payload_field (other (some s)) = RawField.text s

-- `max(1, batch_size)`
abbrev pub chunk_of : ℤ → ℕ
chunk_of (pos n) = if leb n 1 then 1 else n
chunk_of (negsuc n) = 1

module _ {K S V A Cursor W : Type 0} (p : Platform K S A) (n : Arrays V A) (t : PgTable)
    (c : Connection V A Cursor W) (w : W) where
  -- `_row_to_record`
  unfoldable pub row_to_record : Row V A → Result (PinnedRecord A)
  unfolding build_record payload_field
  row_to_record r = build_record p n (some float32) r.id r.embedding (payload_field r.payload) []

  abbrev pub page_of : List (Row V A) × Cursor → Page (Row V A) Cursor
  page_of ([], cur) = record { rows = []; next = none }
  page_of (r ∷ rows, cur) = record { rows = r ∷ rows; next = some cur }

  unfoldable pub fetch_page : ℤ → Cursor → Result (Page (Row V A) Cursor)
  fetch_page batch_size cur = c.fetchmany cur (chunk_of batch_size) >>= λ r. ok (page_of r)

  -- `iter_records`, on fuel
  unfoldable pub iter_records : ℕ → ℤ → Option (Stream (PinnedRecord A))
  unfolding each_page fetch_page row_to_record select_all
  iter_records fuel batch_size = elim (c.execute w (select_all t) []) [
    | err e ↦ some (raising e)
    | ok cur ↦ each_page fuel (fetch_page batch_size) row_to_record cur
  ]

  -- `get`
  unfoldable pub get : Text → Result (PinnedRecord A)
  unfolding row_to_record select_one
  get record_id = do
    cur ← c.execute w (select_one t) (record_id ∷ [])
    row ← c.fetchone cur
    elim row [ none ↦ err Exc.other | some r ↦ row_to_record r ]

  -- `attach_pin`
  unfoldable pub attach_pin : Text → Pin → Result W
  unfolding to_json update_pin
  attach_pin record_id pin =
      c.execute_update w (update_pin t) (to_json pin ∷ record_id ∷ []) >>= λ (w', changed).
      if changed == 0 then err Exc.other else ok w'
