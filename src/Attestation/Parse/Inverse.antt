-- ===== src/Attestation/Parse/Inverse.antt =====
-- A parsed field tells the JSON value that it was read from.
use vector_pin.Prelude.{
  ℕ, ℤ, pos, ◌≡◌, sym, ap, Bool, true, false, ◌&&◌, not, eqb_ℤ, length, ◌≤◌, ◌⊎◌, inl, inr, subst,
  not-false, ◌||◌, List, [], ◌∷◌, Option, none, some, ltb, leb, if◌then◌else◌,
}
use vector_pin.Outcome.{Result, ok, Exc, ◌>>◌, raise_if, raise_if-eq-ok, >>=-eq-ok, ok-injective}
use vector_pin.Text.{Text, encode_pass}
use vector_pin.Json.{Json, null, int, str}
use vector_pin.Platform.{Platform}
use vector_pin.Hash.{f32, f64}
use vector_pin.Text.Equality.{text_eq}
use vector_pin.Attestation.{max_vec_dim, max_model_bytes, protocol_version}
use vector_pin.Attestation.Pattern.{hash_re, ts_re, check_ts_calendar}
use vector_pin.Attestation.Checks.{check_byte_cap, check_string_safe, check_nfc}
use vector_pin.Attestation.Parse.{
  elem_ℤ, parse_version, parse_dim, parse_dtype, parse_hash, parse_model_hash, parse_name, parse_ts,
  check_text,
}
use vector_pin.Attestation.Parse.Limits.{if_ok-eq-ok, check_byte_cap-eq-ok}

pub parse_version-eq_int :
    (allowed : List ℤ) (j : Json) (v : ℤ) → parse_version allowed j ≡ ok v → int v ≡ j
unfolding parse_version
parse_version-eq_int allowed (int w) v h =
    ap int (sym (if_ok-eq-ok (elem_ℤ w allowed) w Exc.value_error h).1)
parse_version-eq_int allowed _ v h = cc

pub parse_dim-eq_int : (j : Json) (d : ℤ) → parse_dim j ≡ ok d → int d ≡ j
unfolding parse_dim
parse_dim-eq_int (int (pos n)) d h =
    ap int (sym (if_ok-eq-ok (ltb 0 n && leb n max_vec_dim) (pos n) Exc.value_error h).1)
parse_dim-eq_int _ d h = cc

pub parse_dtype-eq_str : (j : Json) (s : Text) → parse_dtype j ≡ ok s → str s ≡ j
unfolding parse_dtype
parse_dtype-eq_str (str t) s h =
    ap str (sym (if_ok-eq-ok (text_eq t f32 || text_eq t f64) t Exc.value_error h).1)
parse_dtype-eq_str _ s h = cc

pub parse_hash-eq_str : (j : Json) (s : Text) → parse_hash j ≡ ok s → str s ≡ j
unfolding parse_hash
parse_hash-eq_str (str t) s h = ap str (sym (if_ok-eq-ok (hash_re t) t Exc.value_error h).1)
parse_hash-eq_str _ s h = cc

-- `None` and a string as JSON.
abbrev pub of_option : Option Text → Json
of_option none = null
of_option (some s) = str s

pub parse_model_hash-eq_of :
    (j : Json) (o : Option Text) → parse_model_hash j ≡ ok o → of_option o ≡ j
unfolding parse_model_hash
parse_model_hash-eq_of null o h = ap of_option (sym (ok-injective h))
parse_model_hash-eq_of (str t) o h =
    ap of_option (sym (if_ok-eq-ok (hash_re t) (some t) Exc.value_error h).1)
parse_model_hash-eq_of _ o h = cc

module _ {K S A : Type 0} (p : Platform K S A) where
  pub parse_name-eq_str :
      (v : ℤ) (limit : ℕ) (j : Json) (s : Text) → parse_name p v limit j ≡ ok s → str s ≡ j
  unfolding parse_name
  parse_name-eq_str v limit (str []) s h = cc
  parse_name-eq_str v limit (str (c ∷ t)) s h =
      let (_, _, h) = >>=-eq-ok (check_byte_cap (c ∷ t) limit) _ h in
      let (_, _, h) = >>=-eq-ok (check_text p v (c ∷ t)) _ h in ap str (sym (ok-injective h))
  parse_name-eq_str v limit _ s h = cc

  -- A timestamp is of the one form, or it has not too many bytes.
  pub parse_ts-eq_str :
      (allowed : List ℤ) (v : ℤ) (j : Json) (s : Text)
      → parse_ts p allowed v j ≡ ok s
      → (str s ≡ j) × ((ts_re s ≡ true) ⊎ (length (encode_pass s) ≤ max_model_bytes))
  unfolding parse_ts
  parse_ts-eq_str allowed v (str []) s h = cc
  parse_ts-eq_str allowed v (str (c ∷ t)) s h =
      go (elem_ℤ protocol_version allowed && eqb_ℤ v protocol_version) h
    where
      read : Text
      read = c ∷ t

      strict : Result Text
      strict = do
        raise_if (not (ts_re read)) Exc.value_error
        check_ts_calendar read
        check_string_safe read
        check_nfc p read
        ok read

      loose : Result Text
      loose = do check_byte_cap read max_model_bytes; check_string_safe read; ok read

      go :
          (b : Bool)
          → (if b then strict else loose) ≡ ok s
          → (str s ≡ str read) × ((ts_re s ≡ true) ⊎ (length (encode_pass s) ≤ max_model_bytes))
      go true h =
          let (_, q, r) = >>=-eq-ok (raise_if (not (ts_re read)) Exc.value_error) _ h in
          let (_, _, r) = >>=-eq-ok (check_ts_calendar read) _ r in
          let (_, _, r) = >>=-eq-ok (check_string_safe read) _ r in
          let (_, _, r) = >>=-eq-ok (check_nfc p read) _ r in
          let same : read ≡ s = ok-injective r in
          (
            ap str (sym same),
            inl (
                subst (λ z. ts_re z ≡ true) same
                  (not-false _ (raise_if-eq-ok _ Exc.value_error q))),
          )
      go false h =
          let (_, q, r) = >>=-eq-ok (check_byte_cap read max_model_bytes) _ h in
          let (_, _, r) = >>=-eq-ok (check_string_safe read) _ r in
          let same : read ≡ s = ok-injective r in
          (
            ap str (sym same),
            inr (
                subst (λ z. length (encode_pass z) ≤ max_model_bytes) same
                  (check_byte_cap-eq-ok read max_model_bytes q)),
          )
  parse_ts-eq_str allowed v _ s h = cc
