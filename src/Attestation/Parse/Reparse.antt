-- ===== src/Attestation/Parse/Reparse.antt =====
-- `Pin.to_dict` and then `Pin.from_dict`: a pin that was parsed once parses again, to the same pin
-- with its `extra` sorted.
use vector_pin.Prelude.{
  ℤ, ◌≤◌, ◌≡◌, refl, sym, ap, ◌∙◌, subst, false, [], ◌∷◌, ◌++◌, append_assoc, append-nil, Option,
  none, some, ltb, arith, All,
}
use vector_pin.Outcome.{ok, Exc, ◌>>◌, raise_if}
use vector_pin.Text.{Text, Bytes, codes}
use vector_pin.Text.Sort.Keeps.{All-sort_by, length-sort_by}
use vector_pin.Dict.Distinct.{Distinct, put_new, has_key-Distinct_append, sort_by-Distinct}
use vector_pin.Json.{Fields, int, str, end, field}
use vector_pin.Platform.{Platform}
use vector_pin.Attestation.{Pin, Extra, max_extra_entries}
use vector_pin.Attestation.Base64.{b64}
use vector_pin.Attestation.Encode.{of_extra, sorted_items, with_model_hash, with_extra, pin_to_dict}
use vector_pin.Attestation.Parse.{
  get, has_unknown, allowed_top_level_keys, parse_entries, parse_extra, fields_length,
}
use vector_pin.Attestation.Parse.Extras.{EntryPasses, Read}
use vector_pin.Attestation.Parse.Inverse.{of_option}
use vector_pin.Attestation.Parse.Sizes.{fields_length-of_extra}

-- The fields behind `ts`.
abbrev pub behind_ts : Option Text → Extra → Bytes → Fields
behind_ts m e sig = with_model_hash m (with_extra e (field (codes "sig") (str (b64 sig)) end))

get_model_hash :
    (m : Option Text) (e : Extra) (sig : Bytes)
    → get (codes "model_hash") (behind_ts m e sig) ≡ of_option m
unfolding get
get_model_hash none [] sig = refl
get_model_hash none (x ∷ e) sig = refl
get_model_hash (some h) e sig = refl

get_sig :
    (m : Option Text) (e : Extra) (sig : Bytes)
    → get (codes "sig") (behind_ts m e sig) ≡ str (b64 sig)
unfolding get
get_sig none [] sig = refl
get_sig none (x ∷ e) sig = refl
get_sig (some h) [] sig = refl
get_sig (some h) (x ∷ e) sig = refl

-- What each key of a pin's dict holds.
abbrev pub Holds : Pin → Fields → Type 0
Holds pin d =
    (get (codes "v") d ≡ int pin.header.v)
    × (get (codes "model") d ≡ str pin.header.model)
    × (get (codes "kid") d ≡ str pin.header.kid)
    × (get (codes "vec_dtype") d ≡ str pin.header.vec_dtype)
    × (get (codes "vec_dim") d ≡ int pin.header.vec_dim)
    × (get (codes "source_hash") d ≡ str pin.header.source_hash)
    × (get (codes "vec_hash") d ≡ str pin.header.vec_hash)
    × (get (codes "model_hash") d ≡ of_option pin.header.model_hash)
    × (get (codes "ts") d ≡ str pin.header.ts)
    × (get (codes "sig") d ≡ str (b64 pin.sig))

pub pin_to_dict-Holds : (pin : Pin) → Holds pin (pin_to_dict pin)
unfolding get pin_to_dict
pin_to_dict-Holds pin = (
  refl,
  refl,
  refl,
  refl,
  refl,
  refl,
  refl,
  get_model_hash pin.header.model_hash (sorted_items pin.header.extra) pin.sig,
  refl,
  get_sig pin.header.model_hash (sorted_items pin.header.extra) pin.sig,
)

unknown_behind :
    (m : Option Text) (e : Extra) (sig : Bytes)
    → has_unknown allowed_top_level_keys (behind_ts m e sig) ≡ false
unfolding has_unknown
unknown_behind none [] sig = refl
unknown_behind none (x ∷ e) sig = refl
unknown_behind (some h) [] sig = refl
unknown_behind (some h) (x ∷ e) sig = refl

pub has_unknown-pin_to_dict :
    (pin : Pin) → has_unknown allowed_top_level_keys (pin_to_dict pin) ≡ false
unfolding has_unknown pin_to_dict
has_unknown-pin_to_dict pin =
    unknown_behind pin.header.model_hash (sorted_items pin.header.extra) pin.sig

module _ {K S A : Type 0} (p : Platform K S A) where
  -- Entries with new keys are appended in order.
  parse_entries-of_extra :
      (v : ℤ) (acc m : Extra)
      → All (EntryPasses p v) m
      → Distinct (acc ++ m)
      → parse_entries p v acc (of_extra m) ≡ ok (acc ++ m)
  unfolding parse_entries of_extra
  parse_entries-of_extra v acc [] a d = ap ok (sym (append-nil acc))
  parse_entries-of_extra v acc ((k, val) ∷ m) a d =
      let whole = append_assoc acc ((k, val) ∷ []) m in
      let placed = put_new k val acc (has_key-Distinct_append k val acc m d) in
      rw (a.0, placed)
        (parse_entries-of_extra v (acc ++ (k, val) ∷ []) m a.1 (subst Distinct (sym whole) d)
          ∙ ap ok whole)

  entries_again :
      (v : ℤ) (e : Extra)
      → Read p v e
      → (raise_if (ltb max_extra_entries (fields_length (of_extra e))) Exc.value_error
          >> parse_entries p v [] (of_extra e))
        ≡ ok e
  entries_again v e (a, d, n) =
      let few : ltb max_extra_entries (fields_length (of_extra e)) ≡ false =
        ground (arith, fields_length-of_extra e) in
      rw few (parse_entries-of_extra v [] e a d)

  extra_behind :
      (v : ℤ) (m : Option Text) (e : Extra) (sig : Bytes)
      → Read p v e
      → parse_extra p v (behind_ts m e sig) ≡ ok e
  unfolding parse_extra
  extra_behind v none [] sig r = refl
  extra_behind v (some h) [] sig r = refl
  extra_behind v none (x ∷ e) sig r = entries_again v (x ∷ e) r
  extra_behind v (some h) (x ∷ e) sig r = entries_again v (x ∷ e) r

  Read-sorted_items : (v : ℤ) (e : Extra) → Read p v e → Read p v (sorted_items e)
  unfolding sorted_items
  Read-sorted_items v e (a, d, n) = (
    All-sort_by (λ x. x.0) (EntryPasses p v) e a,
    sort_by-Distinct e d,
    subst (λ m. m ≤ max_extra_entries) (sym (length-sort_by (λ x. x.0) e)) n,
  )

  pub parse_extra-pin_to_dict :
      (v : ℤ) (pin : Pin)
      → Read p v pin.header.extra
      → parse_extra p v (pin_to_dict pin) ≡ ok (sorted_items pin.header.extra)
  unfolding parse_extra pin_to_dict
  parse_extra-pin_to_dict v pin r =
      extra_behind v pin.header.model_hash (sorted_items pin.header.extra) pin.sig
        (Read-sorted_items v pin.header.extra r)
