-- ===== src/Adapters/Backends.antt =====
-- The backend adapters in src/vectorpin/adapters: what each reads of its client, its loop over the
-- pages, and the record that it builds of a row.
pub mod Chroma
pub mod Qdrant
pub mod Pgvector
pub mod Pinecone
pub mod Lancedb
pub mod Walks
pub mod Attach
use vector_pin.Prelude.{ℕ, Bool, true, false, List, [], ◌∷◌, Option, none, some, if◌then◌else◌, ltb}
use vector_pin.Outcome.{Result, ok, err, Exc, ◌>>=◌, ◌>>◌, raise_if}
use vector_pin.Text.{Text, codes}
use vector_pin.Text.Equality.{text_eq}
use vector_pin.Dict.{Dict, lookup}
use vector_pin.Platform.{Platform, Dtype}
use vector_pin.Hash.{little_float}
use vector_pin.Attestation.{Pin}
use vector_pin.Adapters.{PinnedRecord, RawField, ParseError, parse_pin_field}
use vector_pin.Adapters.Vectors.{Delivered, Arrays, vector_from_store}

-- `PIN_METADATA_KEY`
abbrev pub pin_metadata_key : Text
pin_metadata_key = codes "vectorpin"

-- `np.float32`
abbrev pub float32 : Dtype
float32 = little_float 4

-- A metadata value, read as a pin field and as text: `shown` is what `str(...)` gives, or `none`
-- for `None`.
pub record Value : Type 0 where
  pub raw : RawField
  pub shown : Option Text

-- The field that `meta.pop(PIN_METADATA_KEY, None)` returns, and the metadata without it.
unfoldable pub pin_field : Dict Value → RawField
unfolding lookup
pin_field meta = elim (lookup pin_metadata_key meta) [ none ↦ RawField.absent | some v ↦ v.raw ]

unfoldable pub other_fields : Dict Value → Dict (Option Text)
other_fields [] = []
other_fields ((k, v) ∷ meta) =
    let rest = other_fields meta in if text_eq k pin_metadata_key then rest else (k, v.shown) ∷ rest

-- `dict(metadata or {})`
abbrev pub or_empty : Option (Dict Value) → Dict Value
or_empty none = []
or_empty (some meta) = meta

module _ {K S V A : Type 0} (p : Platform K S A) (n : Arrays V A) where
  -- The record of a row: its vector, its parsed pin field and its other metadata. `none` stands for
  -- a row without a vector.
  unfoldable pub build_record :
      Option Dtype
      → Text
      → Option (Delivered V A)
      → RawField
      → Dict (Option Text)
      → Result (PinnedRecord A)
  unfolding parse_pin_field vector_from_store
  build_record native rid none raw metadata = err Exc.value_error
  build_record native rid (some values) raw metadata = do
    vector ← vector_from_store p n native values
    let (pin, parse_error) = parse_pin_field p raw
    ok (record {
      id = rid;
      vector = vector;
      pin = pin;
      metadata = metadata;
      parse_error = parse_error;
    })
