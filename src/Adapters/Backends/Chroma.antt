-- ===== src/Adapters/Backends/Chroma.antt =====
-- `ChromaAdapter` of src/vectorpin/adapters/chroma.py.
use vector_pin.Prelude.{
  ℕ, ◌+◌, Bool, List, [], ◌∷◌, Option, none, some, if◌then◌else◌, ltb, length, is_empty,
}
use vector_pin.Outcome.{Result, ok, err, Exc, ◌>>=◌, ◌>>◌}
use vector_pin.Text.{Text}
use vector_pin.Dict.{Dict, put}
use vector_pin.Platform.{Platform}
use vector_pin.Attestation.{Pin}
use vector_pin.Attestation.Encode.{to_json}
use vector_pin.Adapters.{PinnedRecord, RawField}
use vector_pin.Adapters.Transport.{enforce_tls_chroma}
use vector_pin.Adapters.Vectors.{Delivered, Arrays}
use vector_pin.Adapters.Stream.{Stream, Page, each_page}
use vector_pin.Adapters.Backends.{
  Value, pin_metadata_key, float32, pin_field, other_fields, or_empty, build_record,
}

-- A row of a page: `embeddings[i]` and `metadatas[i]` raise where the page does not hold them.
pub record Row (V A : Type 0) : Type 0 where
  pub id : Text
  pub embedding : Result (Option (Delivered V A))
  pub metadata : Result (Option (Dict Value))

-- The methods of a collection: `get(limit=..., offset=...)`, `get(ids=[...])` and `update`, on a
-- state of the store.
pub record Collection (V A W : Type 0) : Type 0 where
  pub get_page : W → ℕ → ℕ → Result (List (Row V A))
  pub get_ids : W → Text → Result (List (Row V A))
  pub update : W → Text → Dict Value → Result W

-- `connect_http`: nothing is sent unless the transport check passes.
unfoldable pub connect_http :
    {C : Type 0}
    → Bool
    → (Text → Bool → Option (Dict Text) → Result C)
    → Text
    → Bool
    → Option (Dict Text)
    → Result C
unfolding enforce_tls_chroma
connect_http allow_insecure open_client host ssl headers =
    enforce_tls_chroma allow_insecure host ssl headers >> open_client host ssl headers

-- The value that holds a pin's JSON text.
abbrev pub json_value : Text → Value
json_value s = record { raw = RawField.text s; shown = some s }

module _ {K S V A W : Type 0} (p : Platform K S A) (n : Arrays V A) (c : Collection V A W)
    (w : W) where
  -- `_build_record`, with the indexing of the page
  unfoldable pub build_row : Row V A → Result (PinnedRecord A)
  unfolding pin_field other_fields build_record
  build_row r = do
    embedding ← r.embedding
    metadata ← r.metadata
    let meta = or_empty metadata
    build_record p n (some float32) r.id embedding (pin_field meta) (other_fields meta)

  -- One round of `iter_records`, at an offset
  abbrev pub page_at : ℕ → ℕ → List (Row V A) → Page (Row V A) ℕ
  page_at batch_size offset rows = record {
    rows = rows;
    next =
        if is_empty rows
        then none
        else if ltb (length rows) batch_size
        then none
        else some (offset + length rows);
  }

  unfoldable pub fetch_page : ℕ → ℕ → Result (Page (Row V A) ℕ)
  fetch_page batch_size offset =
      c.get_page w batch_size offset >>= λ rows. ok (page_at batch_size offset rows)

  -- `iter_records`, on fuel
  unfoldable pub iter_records : ℕ → ℕ → Option (Stream (PinnedRecord A))
  unfolding each_page fetch_page build_row
  iter_records fuel batch_size = each_page fuel (fetch_page batch_size) build_row 0

  -- `get`
  unfoldable pub get : Text → Result (PinnedRecord A)
  unfolding build_row
  get record_id =
      c.get_ids w record_id >>= λ rows. elim rows [ [] ↦ err Exc.other | r ∷ rs ↦ build_row r ]

  -- `attach_pin`: the other metadata are kept.
  unfoldable pub attach_pin : Text → Pin → Result W
  unfolding to_json put
  attach_pin record_id pin = c.get_ids w record_id >>= λ rows. elim rows [
    | [] ↦ err Exc.other
    | r ∷ rs ↦
        (r.metadata >>= λ metadata.
        c.update w record_id (put pin_metadata_key (json_value (to_json pin)) (or_empty metadata)))
  ]
