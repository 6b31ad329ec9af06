-- ===== src/Adapters/Backends/Lancedb.antt =====
-- `LanceDBAdapter` of src/vectorpin/adapters/lancedb.py.
use vector_pin.Prelude.{ℕ, zero, suc, not, List, [], ◌∷◌, Option, none, some, if◌then◌else◌, ◌==◌}
use vector_pin.Outcome.{Result, ok, err, Exc, ◌>>=◌, ◌>>◌, raise_if}
use vector_pin.Text.{Text}
use vector_pin.Dict.{Dict, contains}
use vector_pin.Platform.{Platform, Dtype}
use vector_pin.Attestation.{Pin}
use vector_pin.Attestation.Encode.{to_json}
use vector_pin.Adapters.{PinnedRecord, RawField}
use vector_pin.Adapters.Sql.{validate_identifier, id_predicate}
use vector_pin.Adapters.Vectors.{Delivered, Arrays}
use vector_pin.Adapters.Stream.{Stream, finished, raising, and_then, yield_all}
use vector_pin.Adapters.Backends.{Value, build_record}

-- A cell of a column, as `to_pylist` gives it.
pub record Cell (V A : Type 0) : Type 0 where
  pub text : Text
  pub vector : Option (Delivered V A)
  pub value : Value

-- A batch: the names of its columns, their element dtypes and its rows.
pub record Batch (V A : Type 0) : Type 0 where
  pub names : List Text
  pub element_dtype : Text → Option Dtype
  pub num_rows : ℕ
  pub cell : Text → ℕ → Cell V A

-- A table, on a state of the store: its batches of a size, the batch of one row at most that
-- matches a predicate, and an update of a column where a predicate holds.
pub record Table (V A W : Type 0) : Type 0 where
  pub batches : W → ℕ → Result (List (Batch V A))
  pub where_one : W → Text → Result (Batch V A)
  pub update : W → Text → Text → Text → Result W

-- The columns of an adapter.
pub record Columns : Type 0 where
  pub id : Text
  pub vec : Text
  pub pin : Text

-- `__init__`
unfoldable pub columns : Text → Text → Text → Result Columns
unfolding validate_identifier
columns id vec pin = do
  id ← validate_identifier id
  vec ← validate_identifier vec
  pin ← validate_identifier pin
  ok (record { id = id; vec = vec; pin = pin })

-- `range(n)`, from `i` on
unfoldable pub indices : ℕ → ℕ → List ℕ
indices i zero = []
indices i (suc n) = i ∷ indices (suc i) n

module _ {K S V A W : Type 0} (p : Platform K S A) (n : Arrays V A) (k : Columns) (t : Table V A W)
    (w : W) where
  -- The pin field of a row: `None` where the table has no such column
  unfoldable pub pin_cell : Batch V A → ℕ → RawField
  unfolding contains
  pin_cell b i = if contains k.pin b.names then (b.cell k.pin i).value.raw else RawField.absent

  -- The columns that are passed on
  unfoldable pub passed_on : Batch V A → ℕ → List Text → Dict (Option Text)
  unfolding contains
  passed_on b i [] = []
  passed_on b i (name ∷ names) =
      let rest = passed_on b i names in
      if contains name (k.id ∷ k.vec ∷ k.pin ∷ [])
      then rest
      else (name, (b.cell name i).value.shown) ∷ rest

  -- One round of the loop of `_batch_to_records`
  unfoldable pub row_to_record : Batch V A → ℕ → Result (PinnedRecord A)
  unfolding build_record pin_cell passed_on
  row_to_record b i =
      build_record p n (b.element_dtype k.vec) (b.cell k.id i).text (b.cell k.vec i).vector
        (pin_cell b i) (passed_on b i b.names)

  -- `_batch_to_records`
  unfoldable pub batch_to_records : Batch V A → Stream (PinnedRecord A)
  unfolding contains yield_all row_to_record indices
  batch_to_records b =
      if not (contains k.id b.names)
      then raising Exc.value_error
      else if not (contains k.vec b.names)
      then raising Exc.value_error
      else yield_all (row_to_record b) (indices 0 b.num_rows)

  unfoldable pub each_batch : List (Batch V A) → Stream (PinnedRecord A)
  unfolding batch_to_records
  each_batch [] = finished
  each_batch (b ∷ bs) = and_then (batch_to_records b) (each_batch bs)

  -- `iter_records`
  unfoldable pub iter_records : ℕ → Stream (PinnedRecord A)
  unfolding each_batch
  iter_records batch_size = elim (t.batches w batch_size) [
    | ok bs ↦ each_batch bs
    | err e ↦ raising e
  ]

  -- `get`: the first row, if there is one
  unfoldable pub get : Text → Result (PinnedRecord A)
  unfolding id_predicate batch_to_records
  get record_id = do
    predicate ← id_predicate k.id record_id
    rows ← t.where_one w predicate
    raise_if (rows.num_rows == 0) Exc.other
    first_of (batch_to_records (record rows { num_rows = 1 }))
    where
      first_of : Stream (PinnedRecord A) → Result (PinnedRecord A)
      first_of s = elim s.yielded [
        | r ∷ rs ↦ ok r
        | [] ↦ elim s.raised [ some e ↦ err e | none ↦ err Exc.other ]
      ]

  -- `attach_pin`
  unfoldable pub attach_pin : Text → Pin → Result W
  unfolding id_predicate to_json
  attach_pin record_id pin = do
    predicate ← id_predicate k.id record_id
    t.update w predicate k.pin (to_json pin)
