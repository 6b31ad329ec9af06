-- ===== src/Attestation/Canonical/HeaderText.antt =====
-- `PinHeader.canonicalize` of src/vectorpin/attestation.py: the text of the header's object is that
-- of its rows.
use vector_pin.Prelude.{ℕ, ◌≡◌, refl, sym, ap, ◌∙◌, [], ◌∷◌, ◌++◌, map, arith, Option, none, some}
use vector_pin.Text.{Text, codes}
use vector_pin.Text.Sort.{sort_by, insert_by, sort_by_idem}
use vector_pin.Json.{
  Fields, dumps, dumps_fields, raw_unicode, quote, object_text, members, join_comma, obj, end,
  field, str, int,
}
use vector_pin.Json.Objects.{body, join_comma-body, entry_row}
use vector_pin.Attestation.{PinHeader, Extra}
use vector_pin.Attestation.Encode.{of_extra, with_model_hash, with_extra, sorted_items, to_dict}
use vector_pin.Attestation.Canonical.Rows.{
  value_text, row, rows_injective, rows_of, SameHeader, rows_of-eq, dict,
}

-- The text of a header's object is that of its rows.
abbrev quoted : Text × Text → Text × Text
quoted (k, v) = (k, quote raw_unicode v)

dumps_fields-of_extra : (m : Extra) → dumps_fields raw_unicode (of_extra m) ≡ map quoted m
unfolding dumps of_extra
dumps_fields-of_extra [] = refl
dumps_fields-of_extra ((k, v) ∷ m) = ap (◌∷◌ (k, quote raw_unicode v)) (dumps_fields-of_extra m)

abbrev first : Text × Text → Text
first e = e.0

insert_by-quoted :
    (e : Text × Text) (m : Extra)
    → insert_by first (quoted e) (map quoted m) ≡ map quoted (insert_by first e m)
unfolding insert_by
insert_by-quoted e [] = refl
insert_by-quoted e (f ∷ m) = ground (arith, insert_by-quoted e m)

sort_by-quoted : (m : Extra) → sort_by first (map quoted m) ≡ map quoted (sort_by first m)
unfolding sort_by
sort_by-quoted [] = refl
sort_by-quoted (e ∷ m) =
    ap (insert_by first (quoted e)) (sort_by-quoted m) ∙ insert_by-quoted e (sort_by first m)

members-quoted : (m : Extra) → members raw_unicode (map quoted m) ≡ map entry_row m
unfolding members
members-quoted [] = refl
members-quoted ((k, v) ∷ m) =
    ap (◌∷◌ (quote raw_unicode k ++ b':' ∷ quote raw_unicode v)) (members-quoted m)

dumps-of_extra :
    (m : Extra) → sort_by first m ≡ m → dumps raw_unicode (obj (of_extra m)) ≡ value_text (dict m)
unfolding dumps object_text value_text
dumps-of_extra m s =
    ap (λ l. b'{' ∷ (join_comma (members raw_unicode (sort_by first l)) ++ b'}' ∷ []))
      (dumps_fields-of_extra m)
    ∙ ap (λ l. b'{' ∷ (join_comma (members raw_unicode l) ++ b'}' ∷ []))
        (sort_by-quoted m ∙ ap (map quoted) s)
    ∙ ap (λ l. b'{' ∷ (join_comma l ++ b'}' ∷ [])) (members-quoted m)
    ∙ ap (◌∷◌ b'{') (join_comma-body entry_row m [])

abbrev gen_fields : Extra → Option Text → PinHeader → Fields
gen_fields e mh h = field (codes "v") (int h.v) (
    field (codes "kid") (str h.kid) (
      field (codes "model") (str h.model) (
        field (codes "source_hash") (str h.source_hash) (
          field (codes "vec_hash") (str h.vec_hash) (
            field (codes "vec_dtype") (str h.vec_dtype) (
              field (codes "vec_dim") (int h.vec_dim)
                (field (codes "ts") (str h.ts) (with_model_hash mh (with_extra e end)))))))))

gen_members :
    (e : Extra) (mh : Option Text) (h : PinHeader)
    → sort_by first e ≡ e
    → members raw_unicode (sort_by first (dumps_fields raw_unicode (gen_fields e mh h)))
      ≡ map row (rows_of e mh h)
unfolding members sort_by dumps rows_of value_text
gen_members [] none h s = refl
gen_members [] (some a) h s = refl
gen_members (x ∷ e) mh h s =
    extra_member (dumps raw_unicode (obj (of_extra (x ∷ e)))) mh h
    ∙ ap (λ t. (quote raw_unicode (codes "extra") ++ b':' ∷ t) ∷ map row (rows_of [] mh h))
        (dumps-of_extra (x ∷ e) s)
  where
    extra_member :
        (t : Text) (mh : Option Text) (h : PinHeader)
        → members raw_unicode (sort_by first (dumps_fields raw_unicode (gen_fields (x ∷ e) mh h)))
          ≡ (quote raw_unicode (codes "extra") ++ b':' ∷ dumps raw_unicode (obj (of_extra (x ∷ e))))
            ∷ map row (rows_of [] mh h)
    extra_member t none h = refl
    extra_member t (some a) h = refl

header_text :
    (h : PinHeader)
    → dumps raw_unicode (obj (to_dict h))
      ≡ b'{' ∷ body row (rows_of (sorted_items h.extra) h.model_hash h) []
unfolding dumps object_text to_dict sorted_items
header_text h =
    ap (λ l. b'{' ∷ (join_comma l ++ b'}' ∷ []))
      (gen_members (sorted_items h.extra) h.model_hash h (sort_by_idem first h.extra))
    ∙ ap (◌∷◌ b'{') (join_comma-body row (rows_of (sorted_items h.extra) h.model_hash h) [])

-- The text of a header's object determines the header.
pub header_text_injective :
    (h g : PinHeader)
    → dumps raw_unicode (obj (to_dict h)) ≡ dumps raw_unicode (obj (to_dict g))
    → SameHeader h g
header_text_injective h g q =
    let (e, _) =
      rows_injective (rows_of (sorted_items h.extra) h.model_hash h)
        (rows_of (sorted_items g.extra) g.model_hash g) [] []
        (tail_eq (sym (header_text h) ∙ q ∙ header_text g)) in
    let (extra, mh, kid, model, source, ts, v, dim, dtype, vec) =
      rows_of-eq (sorted_items h.extra) (sorted_items g.extra) h.model_hash g.model_hash h g e in
    record {
      v = v;
      kid = kid;
      model = model;
      source_hash = source;
      vec_hash = vec;
      vec_dtype = dtype;
      vec_dim = dim;
      ts = ts;
      model_hash = mh;
      extra = extra;
    }
  where
    tail_eq : {c d : ℕ} {x y : Text} → c ∷ x ≡ d ∷ y → x ≡ y
    tail_eq h = ground arith
