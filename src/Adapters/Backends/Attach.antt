-- ===== src/Adapters/Backends/Attach.antt =====
-- `attach_pin` and then `get` of src/vectorpin/adapters/chroma.py.
use vector_pin.Prelude.{
  ◌≡◌, ◌⊎◌, inl, inr, refl, ap, true, false, List, [], ◌∷◌, Option, none, some, Bool-cases,
}
use vector_pin.Outcome.{ok, ◌>>=◌}
use vector_pin.Text.{Text}
use vector_pin.Text.Equality.{text_eq}
use vector_pin.Dict.{Dict, put, lookup-put_same}
use vector_pin.Platform.{Platform}
use vector_pin.Attestation.{Pin}
use vector_pin.Attestation.Encode.{to_json}
use vector_pin.Adapters.{RawField}
use vector_pin.Adapters.Vectors.{Arrays}
use vector_pin.Adapters.Backends.{
  Value, pin_metadata_key, float32, pin_field, other_fields, or_empty, build_record,
}
use vector_pin.Adapters.Backends.Chroma

pin_field-put : (v : Value) (meta : Dict Value) → pin_field (put pin_metadata_key v meta) ≡ v.raw
unfolding pin_field
pin_field-put v meta =
    ap (λ o. elim o [ none ↦ RawField.absent | some u ↦ u.raw ])
      (lookup-put_same pin_metadata_key v meta)

other_fields-put :
    (v : Value) (meta : Dict Value) → other_fields (put pin_metadata_key v meta) ≡ other_fields meta
unfolding other_fields put
other_fields-put v [] = refl
other_fields-put v ((k, w) ∷ meta) =
    go (Bool-cases (text_eq k pin_metadata_key)) (other_fields-put v meta)
  where
    go :
        (text_eq k pin_metadata_key ≡ true) ⊎ (text_eq k pin_metadata_key ≡ false)
        → other_fields (put pin_metadata_key v meta) ≡ other_fields meta
        → other_fields (put pin_metadata_key v ((k, w) ∷ meta)) ≡ other_fields ((k, w) ∷ meta)
    go (inl e) ih = rw (e, e)
    go (inr e) ih = rw (e, e, ih)

-- After `attach_pin` has succeeded on a collection whose `update` replaces the metadata of the row
-- and nothing else, `get` builds its record from the same id and vector, the JSON text of the pin
-- as the pin field, and the other metadata that were there before.
pub get-attach_pin :
    {K S V A W : Type 0} (p : Platform K S A) (n : Arrays V A) (c : Chroma.Collection V A W)
    (w w' : W) (rid : Text) (pin : Pin) (row : Chroma.Row V A) (rows : List (Chroma.Row V A))
    (m : Option (Dict Value))
    → c.get_ids w rid ≡ ok (row ∷ rows)
    → row.metadata ≡ ok m
    → ((meta : Dict Value)
        → c.update w rid meta ≡ ok w'
        → c.get_ids w' rid ≡ ok (record row { metadata = ok (some meta) } ∷ rows))
    → Chroma.attach_pin p n c w rid pin ≡ ok w'
    → Chroma.get p n c w' rid ≡ (
        row.embedding >>= λ embedding.
        build_record p n
          (some float32)
          row.id
          embedding
          (RawField.text (to_json pin))
          (other_fields (or_empty m)))
unfolding Chroma.attach_pin Chroma.get Chroma.build_row
get-attach_pin p n c w w' rid pin row rows m there is_meta keeps h =
    let merged = put pin_metadata_key (Chroma.json_value (to_json pin)) (or_empty m) in
    rw (
      keeps merged (rw (there, is_meta) at h),
      pin_field-put (Chroma.json_value (to_json pin)) (or_empty m),
      other_fields-put (Chroma.json_value (to_json pin)) (or_empty m),
    )
