-- ===== src/Adapters/Backends/Qdrant.antt =====
-- `QdrantAdapter` of src/vectorpin/adapters/qdrant.py.
use vector_pin.Prelude.{ℕ, Bool, List, [], ◌∷◌, Option, none, some}
use vector_pin.Outcome.{Result, ok, err, Exc, ◌>>=◌, ◌>>◌}
use vector_pin.Text.{Text}
use vector_pin.Dict.{Dict}
use vector_pin.Json.{Fields}
use vector_pin.Platform.{Platform, Dtype}
use vector_pin.Attestation.{Pin}
use vector_pin.Attestation.Encode.{pin_to_dict}
use vector_pin.Adapters.{PinnedRecord}
use vector_pin.Adapters.Transport.{Url, enforce_tls_qdrant}
use vector_pin.Adapters.Vectors.{Delivered, Arrays}
use vector_pin.Adapters.Stream.{Stream, Page, each_page}
use vector_pin.Adapters.Backends.{
  Value, pin_metadata_key, pin_field, other_fields, or_empty, build_record,
}

pub record Point (V A : Type 0) : Type 0 where
  pub id : Text
  pub vector : Option (Delivered V A)
  pub payload : Option (Dict Value)

-- The methods of a client on one collection, on a state of the store. An offset is the client's
-- own; `set_payload` sets the value of one key.
pub record Client (V A O W : Type 0) : Type 0 where
  pub scroll : W → ℕ → Option O → Result (List (Point V A) × Option O)
  pub retrieve : W → Text → Result (List (Point V A))
  pub set_payload : W → Text → Text → Fields → Result W

-- `connect`: nothing is sent unless the transport check passes.
unfoldable pub connect :
    {C : Type 0}
    → (Text → Url)
    → Bool
    → (Text → Option Text → Result C)
    → Text
    → Option Text
    → Result C
unfolding enforce_tls_qdrant
connect urlparse allow_insecure open_client url api_key =
    enforce_tls_qdrant urlparse allow_insecure url api_key >> open_client url api_key

-- The vector dtype is the one that the adapter was made with.
module _ {K S V A O W : Type 0} (p : Platform K S A) (n : Arrays V A) (vector_dtype : Dtype)
    (c : Client V A O W) (w : W) where
  -- `_point_to_record`
  unfoldable pub point_to_record : Point V A → Result (PinnedRecord A)
  unfolding pin_field other_fields build_record
  point_to_record point =
      let payload = or_empty point.payload in
      build_record p n (some vector_dtype) point.id point.vector (pin_field payload)
        (other_fields payload)

  -- The state of the loop is the offset; an empty page ends it, whatever offset comes with it.
  abbrev pub page_of : List (Point V A) × Option O → Page (Point V A) (Option O)
  page_of (points, none) = record { rows = points; next = none }
  page_of ([], some o) = record { rows = []; next = none }
  page_of (x ∷ points, some o) = record { rows = x ∷ points; next = some (some o) }

  unfoldable pub fetch_page : ℕ → Option O → Result (Page (Point V A) (Option O))
  fetch_page batch_size offset = c.scroll w batch_size offset >>= λ r. ok (page_of r)

  -- `iter_records`, on fuel
  unfoldable pub iter_records : ℕ → ℕ → Option (Stream (PinnedRecord A))
  unfolding each_page fetch_page point_to_record
  iter_records fuel batch_size = each_page fuel (fetch_page batch_size) point_to_record none

  -- `get`
  unfoldable pub get : Text → Result (PinnedRecord A)
  unfolding point_to_record
  get record_id = c.retrieve w record_id >>= λ points. elim points [
    | [] ↦ err Exc.other
    | x ∷ xs ↦ point_to_record x
  ]

  -- `attach_pin`
  unfoldable pub attach_pin : Text → Pin → Result W
  unfolding pin_to_dict
  attach_pin record_id pin = c.set_payload w record_id pin_metadata_key (pin_to_dict pin)
