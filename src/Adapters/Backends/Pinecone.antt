-- ===== src/Adapters/Backends/Pinecone.antt =====
-- `PineconeAdapter` of src/vectorpin/adapters/pinecone.py.
use vector_pin.Prelude.{Bool, List, [], ◌∷◌, Option, none, some}
use vector_pin.Outcome.{Result, ok, err, Exc, ◌>>=◌, ◌>>◌}
use vector_pin.Text.{Text}
use vector_pin.Dict.{Dict, lookup}
use vector_pin.Platform.{Platform}
use vector_pin.Attestation.{Pin}
use vector_pin.Attestation.Encode.{to_json}
use vector_pin.Adapters.{PinnedRecord}
use vector_pin.Adapters.Transport.{Url, enforce_tls_host}
use vector_pin.Adapters.Vectors.{Delivered, Arrays}
use vector_pin.Adapters.Stream.{Stream, finished, raising, and_then, yield_all}
use vector_pin.Adapters.Backends.{
  Value, pin_metadata_key, float32, pin_field, other_fields, or_empty, build_record,
}

-- A fetched vector, of either client version.
pub record Fetched (V A : Type 0) : Type 0 where
  pub values : Option (Delivered V A)
  pub metadata : Option (Dict Value)

-- An index, in the adapter's namespace, on a state of the store: the pages of ids and the
-- exception that ends them, if one does; the vectors of some ids; and an update that sets one key.
pub record Index (V A W : Type 0) : Type 0 where
  pub list_ids : W → Stream (List Text)
  pub fetch : W → List Text → Result (Dict (Fetched V A))
  pub set_metadata : W → Text → Text → Text → Result W

-- `connect`
unfoldable pub connect :
    {C : Type 0} → (Text → Url) → Bool → (Option Text → Result C) → Text → Option Text → Result C
unfolding enforce_tls_host
connect urlparse allow_insecure open_index api_key host =
    enforce_tls_host urlparse allow_insecure host (some api_key) >> open_index host

module _ {K S V A W : Type 0} (p : Platform K S A) (n : Arrays V A) (i : Index V A W) (w : W) where
  -- `_record_from_fetch`
  unfoldable pub record_from_fetch : Text × Fetched V A → Result (PinnedRecord A)
  unfolding pin_field other_fields build_record
  record_from_fetch (rid, payload) =
      let meta = or_empty payload.metadata in
      build_record p n (some float32) rid payload.values (pin_field meta) (other_fields meta)

  -- The ids of a page that the fetch returned.
  unfoldable pub present : List Text → Dict (Fetched V A) → List (Text × Fetched V A)
  unfolding lookup
  present [] fetched = []
  present (rid ∷ ids) fetched =
      let rest = present ids fetched in
      elim (lookup rid fetched) [ none ↦ rest | some payload ↦ (rid, payload) ∷ rest ]

  -- One page of ids
  unfoldable pub fetch_ids : List Text → Stream (PinnedRecord A)
  unfolding present yield_all record_from_fetch
  fetch_ids [] = finished
  fetch_ids (rid ∷ ids) = elim (i.fetch w (rid ∷ ids)) [
    | err e ↦ raising e
    | ok fetched ↦ yield_all record_from_fetch (present (rid ∷ ids) fetched)
  ]

  unfoldable pub each_ids : List (List Text) → Stream (PinnedRecord A) → Stream (PinnedRecord A)
  unfolding fetch_ids
  each_ids [] end = end
  each_ids (ids ∷ pages) end = and_then (fetch_ids ids) (each_ids pages end)

  -- `iter_records`
  unfoldable pub iter_records : Stream (PinnedRecord A)
  unfolding each_ids
  iter_records =
      let pages = i.list_ids w in
      each_ids pages.yielded (record { yielded = []; raised = pages.raised })

  -- `get`
  unfoldable pub get : Text → Result (PinnedRecord A)
  unfolding lookup record_from_fetch
  get record_id = i.fetch w (record_id ∷ []) >>= λ fetched. elim (lookup record_id fetched) [
    | none ↦ err Exc.other
    | some payload ↦ record_from_fetch (record_id, payload)
  ]

  -- `attach_pin`
  unfoldable pub attach_pin : Text → Pin → Result W
  unfolding to_json
  attach_pin record_id pin = i.set_metadata w record_id pin_metadata_key (to_json pin)
