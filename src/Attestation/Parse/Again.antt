-- ===== src/Attestation/Parse/Again.antt =====
-- A parsed pin's dict is read again: `Pin.from_dict` behind `Pin.to_dict`.
use vector_pin.Prelude.{
  ℕ, ℤ, ◌+◌, ◌*◌, ◌≤◌, ◌≡◌, inl, inr, refl, sym, ap, ◌∙◌, subst, List, [], ◌∷◌, Option, none, some,
  length, ltb, arith,
}
use vector_pin.Outcome.{ok, Exc, >>=-eq-ok, raise_if, raise_if-eq-ok}
use vector_pin.Text.{Text, Bytes}
use vector_pin.Text.Sort.Keeps.{All-sort_by, length-sort_by}
use vector_pin.Json.{Json, Fields, str}
use vector_pin.Platform.{Platform}
use vector_pin.Attestation.{Pin, Extra, max_model_bytes, max_kid_bytes, sig_len}
use vector_pin.Attestation.Base64.{b64}
use vector_pin.Attestation.Encode.{of_extra, sorted_items, pin_to_dict}
use vector_pin.Attestation.Parse.{
  parse_version, parse_name, parse_dtype, parse_dim, parse_hash, parse_model_hash, parse_ts,
  parse_sig, from_fields, dict_text_size, value_size,
}
use vector_pin.Attestation.Parse.Limits.{
  parse_dtype-eq-ok, parse_hash-eq-ok, parse_model_hash-eq-ok, parse_name-eq-ok, parse_sig-eq-ok,
}
use vector_pin.Attestation.Parse.Extras.{ExtraFits, EntryFits, parse_extra-Read, parse_extra-eq-ok}
use vector_pin.Attestation.Parse.Inverse.{
  parse_version-eq_int, parse_dim-eq_int, parse_dtype-eq_str, parse_hash-eq_str,
  parse_model_hash-eq_of, parse_name-eq_str, parse_ts-eq_str,
}
use vector_pin.Attestation.Parse.Sizes.{
  dict_size, check_dict_size_within, length-encode_pass, dict_text_size-of_extra, length-hash_re,
  length-ts_re,
}
use vector_pin.Attestation.Parse.Reads.{Reads, from_fields-Reads, Reads-from_fields}
use vector_pin.Attestation.Parse.Reparse.{
  behind_ts, pin_to_dict-Holds, has_unknown-pin_to_dict, parse_extra-pin_to_dict,
}

-- The length of a hash that may be missing.
abbrev text_size : Option Text → ℕ
text_size none = 0
text_size (some s) = length s

behind_size :
    (m : Option Text) (e : Extra) (sig : Bytes)
    → text_size m ≤ 72
    → dict_text_size (of_extra e) ≤ 32 * 1152
    → length (b64 sig) ≤ 256
    → dict_size (behind_ts m e sig) ≤ 10 + 72 + 5 + 32 * 1152 + 3 + 256
unfolding dict_size value_size
behind_size none [] sig a b c = omega arith
behind_size (some h) [] sig a b c = omega arith
behind_size none (x ∷ e) sig a b c = omega arith
behind_size (some h) (x ∷ e) sig a b c = omega arith

length-parse_sig : (j : Json) (sig : Bytes) → parse_sig j ≡ ok sig → length (b64 sig) ≤ 256
unfolding parse_sig
length-parse_sig j sig h = go (subst (λ i. parse_sig i ≡ ok sig) (parse_sig-eq-ok j sig h).1 h)
  where
    go : parse_sig (str (b64 sig)) ≡ ok sig → length (b64 sig) ≤ 256
    go q =
        let (_, few, _) =
          >>=-eq-ok (raise_if (ltb (4 * sig_len) (length (b64 sig))) Exc.value_error) _ q in
        let low = raise_if-eq-ok _ Exc.value_error few in ground arith

size-parse_model_hash : (j : Json) (o : Option Text) → parse_model_hash j ≡ ok o → text_size o ≤ 72
size-parse_model_hash j none h = omega arith
size-parse_model_hash j (some s) h = length-hash_re s (parse_model_hash-eq-ok j (some s) h s refl)

size-parse_dtype : (j : Json) (s : Text) → parse_dtype j ≡ ok s → length s ≤ 3
size-parse_dtype j s h = elim (parse_dtype-eq-ok j s h) [
  | inl e ↦ omega (arith, ap length e)
  | inr e ↦ omega (arith, ap length e)
]

size_sorted : (e : Extra) → ExtraFits e → dict_text_size (of_extra (sorted_items e)) ≤ 32 * 1152
unfolding sorted_items
size_sorted e (a, n) = omega (
  arith,
  dict_text_size-of_extra (sorted_items e) (All-sort_by (λ x. x.0) EntryFits e a),
  length-sort_by (λ x. x.0) e,
)

-- The pin with its `extra` in the order of its keys.
abbrev in_order : Pin → Pin
in_order pin = record pin { header = record pin.header { extra = sorted_items pin.header.extra } }

module _ {K S A : Type 0} (p : Platform K S A) (allowed : List ℤ) where
  size_name :
      (v : ℤ) (limit : ℕ) (j : Json) (s : Text) → parse_name p v limit j ≡ ok s → length s ≤ limit
  size_name v limit j s h =
      omega (arith, length-encode_pass s, (parse_name-eq-ok p v limit j s h).0.1)

  size_ts : (v : ℤ) (j : Json) (s : Text) → parse_ts p allowed v j ≡ ok s → length s ≤ 1024
  size_ts v j s h = elim ((parse_ts-eq_str p allowed v j s h).1) [
    | inl form ↦ omega (arith, length-ts_re s form)
    | inr few ↦ omega (arith, length-encode_pass s, few)
  ]

  dict_size-pin_to_dict :
      (d : Fields) (pin : Pin) → Reads p allowed d pin → dict_size (pin_to_dict pin) ≤ 65536
  unfolding dict_size value_size pin_to_dict
  dict_size-pin_to_dict d pin r = omega (
    arith,
    size_name pin.header.v max_model_bytes _ pin.header.model r.is_model,
    size_name pin.header.v max_kid_bytes _ pin.header.kid r.is_kid,
    behind_size pin.header.model_hash (sorted_items pin.header.extra) pin.sig
        (size-parse_model_hash _ pin.header.model_hash r.is_hash)
        (size_sorted pin.header.extra
          (parse_extra-eq-ok p pin.header.v d pin.header.extra r.is_extra))
        (length-parse_sig _ pin.sig r.is_sig),
    size-parse_dtype _ pin.header.vec_dtype r.is_dtype,
    length-hash_re pin.header.source_hash (parse_hash-eq-ok _ pin.header.source_hash r.is_source),
    length-hash_re pin.header.vec_hash (parse_hash-eq-ok _ pin.header.vec_hash r.is_vec),
    size_ts pin.header.v _ pin.header.ts r.is_ts,
  )

  Reads-pin_to_dict :
      (d : Fields) (pin : Pin)
      → Reads p allowed d pin
      → Reads p allowed (pin_to_dict pin) (in_order pin)
  Reads-pin_to_dict d pin r =
      let (v, model, kid, dtype, dim, source, vec, hash, ts, sig) = pin_to_dict-Holds pin in
      record {
        known = has_unknown-pin_to_dict pin;
        sized =
            check_dict_size_within 0 (pin_to_dict pin)
              (omega (arith, dict_size-pin_to_dict d pin r));
        is_v =
            ap (parse_version allowed) (v ∙ parse_version-eq_int allowed _ pin.header.v r.is_v)
            ∙ r.is_v;
        is_model =
            ap (parse_name p pin.header.v max_model_bytes) (
              model
              ∙ parse_name-eq_str p pin.header.v max_model_bytes _ pin.header.model r.is_model)
            ∙ r.is_model;
        is_kid =
            ap (parse_name p pin.header.v max_kid_bytes)
              (kid ∙ parse_name-eq_str p pin.header.v max_kid_bytes _ pin.header.kid r.is_kid)
            ∙ r.is_kid;
        is_dtype =
            ap parse_dtype (dtype ∙ parse_dtype-eq_str _ pin.header.vec_dtype r.is_dtype)
            ∙ r.is_dtype;
        is_dim = ap parse_dim (dim ∙ parse_dim-eq_int _ pin.header.vec_dim r.is_dim) ∙ r.is_dim;
        is_source =
            ap parse_hash (source ∙ parse_hash-eq_str _ pin.header.source_hash r.is_source)
            ∙ r.is_source;
        is_vec = ap parse_hash (vec ∙ parse_hash-eq_str _ pin.header.vec_hash r.is_vec) ∙ r.is_vec;
        is_hash =
            ap parse_model_hash (hash ∙ parse_model_hash-eq_of _ pin.header.model_hash r.is_hash)
            ∙ r.is_hash;
        is_ts =
            ap (parse_ts p allowed pin.header.v)
              (ts ∙ (parse_ts-eq_str p allowed pin.header.v _ pin.header.ts r.is_ts).0)
            ∙ r.is_ts;
        is_extra =
            parse_extra-pin_to_dict p pin.header.v pin
              (parse_extra-Read p pin.header.v d pin.header.extra r.is_extra);
        is_sig = ap parse_sig (sig ∙ sym (parse_sig-eq-ok _ pin.sig r.is_sig).1) ∙ r.is_sig;
      }

-- A pin that `Pin.from_dict` read from a dict is read again from its own `Pin.to_dict`, as the same
-- pin with its `extra` sorted by key.
pub from_fields-pin_to_dict :
    {K S A : Type 0} (p : Platform K S A) (allowed : List ℤ) (d : Fields) (pin : Pin)
    → from_fields p allowed d ≡ ok pin
    → from_fields p allowed (pin_to_dict pin)
      ≡ ok (record pin { header = record pin.header { extra = sorted_items pin.header.extra } })
from_fields-pin_to_dict p allowed d pin h =
    Reads-from_fields p allowed (pin_to_dict pin) (in_order pin)
      (Reads-pin_to_dict p allowed d pin (from_fields-Reads p allowed d pin h))
