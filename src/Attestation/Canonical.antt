-- ===== src/Attestation/Canonical.antt =====
-- `PinHeader.canonicalize` of src/vectorpin/attestation.py: what its bytes say of the header.
pub mod Rows
pub mod HeaderText
use vector_pin.Prelude.{
  ℕ, ℤ, ◌≡◌, ◌≢◌, refl, sym, ap, ◌∙◌, List, [], ◌∷◌, ◌++◌, append_assoc, map, arith, Option, none,
  some, subst,
}
use vector_pin.Outcome.{ok, >>=-eq-ok}
use vector_pin.Text.{Text, Bytes, codes, encode_utf8, encode_pass}
use vector_pin.Text.Utf8.{encode_utf8_injective, encode_utf8-eq-ok}
use vector_pin.Text.Sort.{sort_by, insert_by, sort_by_idem}
use vector_pin.Json.{
  Fields, dumps, dumps_fields, raw_unicode, quote_mark, quote, int_text, object_text, members,
  join_comma, obj, end, field, str, int,
}
use vector_pin.Json.Quote.{quote-append_injective}
use vector_pin.Json.Decimal.{NoDigit, int_text-append_injective, int_text-ne_char}
use vector_pin.Json.Objects.{
  body, more, join_comma-body, body_injective, entry_row, entries_injective, member-split,
  member-ne_brace,
}
use vector_pin.Platform.{Platform}
use vector_pin.Attestation.{
  PinHeader, Extra, domain_tag, manifest_domain_tag, audit_summary_domain_tag,
}
use vector_pin.Attestation.Encode.{
  of_extra, with_model_hash, with_extra, sorted_items, to_dict, normalized, canonicalize,
  canonicalize_v1,
}
use vector_pin.Attestation.Canonical.Rows.{SameHeader}
use vector_pin.Attestation.Canonical.HeaderText.{header_text_injective}

pin_tag_differs : (x payload : Bytes) → domain_tag ++ x ≡ manifest_domain_tag ++ payload → ⊥
pin_tag_differs x payload h = ground arith

summary_tag_differs :
    (x payload : Bytes) → domain_tag ++ x ≡ audit_summary_domain_tag ++ payload → ⊥
summary_tag_differs x payload h = ground arith

v1_differs : (x y : Bytes) → domain_tag ++ x ≡ 123 ∷ y → ⊥
v1_differs x y h = ground arith

brace_first : (s : Text) (b : Bytes) → encode_utf8 (b'{' ∷ s) ≡ ok b → (r : Bytes) × (b ≡ 123 ∷ r)
unfolding encode_pass
brace_first s b q = (encode_pass s, sym (encode_utf8-eq-ok (b'{' ∷ s) b q).1)

append_cancel : (t x y : Bytes) → t ++ x ≡ t ++ y → x ≡ y
append_cancel [] x y h = h
append_cancel (c ∷ t) x y h = append_cancel t x y (ground arith)

module _ {K S A : Type 0} (p : Platform K S A) where
  abbrev header_json : PinHeader → Text
  header_json h = dumps raw_unicode (obj (to_dict (normalized p h)))

  canonicalize-eq-ok :
      (h : PinHeader) (b : Bytes)
      → canonicalize p h ≡ ok b
      → (body : Bytes) × (encode_utf8 (dumps raw_unicode (obj (to_dict (normalized p h))))
          ≡ ok body)
        × (b ≡ domain_tag ++ body)
  unfolding canonicalize
  canonicalize-eq-ok h b q =
      let (body, e, r) =
        >>=-eq-ok (encode_utf8 (dumps raw_unicode (obj (to_dict (normalized p h))))) _ q in
      (body, e, ground arith)

  -- Two headers with the same canonical bytes agree, once normalized, in every field: the
  -- version, key id, model, hashes, dtype, dimension, timestamp, model hash and the sorted
  -- `extra`.
  pub canonicalize_injective :
      (h g : PinHeader) (b : Bytes)
      → canonicalize p h ≡ ok b
      → canonicalize p g ≡ ok b
      → SameHeader (normalized p h) (normalized p g)
  canonicalize_injective h g b qh qg =
      let (x, ex, rx) = canonicalize-eq-ok h b qh in
      let (y, ey, ry) = canonicalize-eq-ok g b qg in
      let same : x ≡ y = append_cancel domain_tag x y (sym rx ∙ ry) in
      header_text_injective (normalized p h) (normalized p g) (
        encode_utf8_injective (header_json h) (header_json g) y
          (subst (λ z. encode_utf8 (header_json h) ≡ ok z) same ex) ey)

  -- The first byte of a protocol 1 encoding is an opening brace.
  canonicalize_v1-head :
      (h : PinHeader) (b : Bytes) → canonicalize_v1 h ≡ ok b → (r : Bytes) × (b ≡ 123 ∷ r)
  unfolding canonicalize_v1 dumps object_text
  canonicalize_v1-head h b q = brace_first _ b q

  -- The bytes that a pin signature covers are never those of a manifest or of an audit summary,
  -- whatever their payload, nor those of a protocol 1 pin.
  pub domains_disjoint :
      (h : PinHeader) (b : Bytes)
      → canonicalize p h ≡ ok b
      → ((payload : Bytes) → b ≢ manifest_domain_tag ++ payload)
        × ((payload : Bytes) → b ≢ audit_summary_domain_tag ++ payload)
        × ((g : PinHeader) (c : Bytes) → canonicalize_v1 g ≡ ok c → b ≢ c)
  domains_disjoint h b q =
      let (body, e, r) = canonicalize-eq-ok h b q in
      (
        λ payload f. pin_tag_differs body payload (sym r ∙ f),
        λ payload f. summary_tag_differs body payload (sym r ∙ f),
        λ g c k f. let (t, w) = canonicalize_v1-head g c k in v1_differs body t (sym r ∙ f ∙ w),
      )
