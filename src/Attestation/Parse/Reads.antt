-- ===== src/Attestation/Parse/Reads.antt =====
-- `Pin.from_dict` as one condition on each of its fields.
use vector_pin.Prelude.{ℤ, ◌≡◌, refl, subst, false, List}
use vector_pin.Outcome.{ok, Exc, >>=-eq-ok, raise_if, raise_if-eq-ok, ok-injective}
use vector_pin.Text.{codes}
use vector_pin.Json.{Fields}
use vector_pin.Platform.{Platform}
use vector_pin.Attestation.{Pin, max_model_bytes, max_kid_bytes}
use vector_pin.Attestation.Parse.{
  get, has_unknown, check_dict_size, allowed_top_level_keys, parse_version, parse_name, parse_dtype,
  parse_dim, parse_hash, parse_model_hash, parse_ts, parse_extra, parse_sig, from_fields,
}

-- `Pin.from_dict` gets through each of its steps.
pub record Reads {K S A : Type 0} (p : Platform K S A) (allowed : List ℤ) (d : Fields) (pin : Pin)
    : Type 0 where
  pub known : has_unknown allowed_top_level_keys d ≡ false
  pub sized : check_dict_size 0 d ≡ ok tt
  pub is_v : parse_version allowed (get (codes "v") d) ≡ ok pin.header.v
  pub is_model :
      parse_name p pin.header.v max_model_bytes (get (codes "model") d) ≡ ok pin.header.model
  pub is_kid : parse_name p pin.header.v max_kid_bytes (get (codes "kid") d) ≡ ok pin.header.kid
  pub is_dtype : parse_dtype (get (codes "vec_dtype") d) ≡ ok pin.header.vec_dtype
  pub is_dim : parse_dim (get (codes "vec_dim") d) ≡ ok pin.header.vec_dim
  pub is_source : parse_hash (get (codes "source_hash") d) ≡ ok pin.header.source_hash
  pub is_vec : parse_hash (get (codes "vec_hash") d) ≡ ok pin.header.vec_hash
  pub is_hash : parse_model_hash (get (codes "model_hash") d) ≡ ok pin.header.model_hash
  pub is_ts : parse_ts p allowed pin.header.v (get (codes "ts") d) ≡ ok pin.header.ts
  pub is_extra : parse_extra p pin.header.v d ≡ ok pin.header.extra
  pub is_sig : parse_sig (get (codes "sig") d) ≡ ok pin.sig

module _ {K S A : Type 0} (p : Platform K S A) (allowed : List ℤ) where
  pub from_fields-Reads :
      (d : Fields) (pin : Pin) → from_fields p allowed d ≡ ok pin → Reads p allowed d pin
  unfolding from_fields
  from_fields-Reads d pin h =
      let (_, a, h) =
        >>=-eq-ok (raise_if (has_unknown allowed_top_level_keys d) Exc.value_error) _ h in
      let (_, b, h) = >>=-eq-ok (check_dict_size 0 d) _ h in
      let (v, is_v, h) = >>=-eq-ok (parse_version allowed (get (codes "v") d)) _ h in
      let (model, is_model, h) =
        >>=-eq-ok (parse_name p v max_model_bytes (get (codes "model") d)) _ h in
      let (kid, is_kid, h) = >>=-eq-ok (parse_name p v max_kid_bytes (get (codes "kid") d)) _ h in
      let (dtype, is_dtype, h) = >>=-eq-ok (parse_dtype (get (codes "vec_dtype") d)) _ h in
      let (dim, is_dim, h) = >>=-eq-ok (parse_dim (get (codes "vec_dim") d)) _ h in
      let (source, is_source, h) = >>=-eq-ok (parse_hash (get (codes "source_hash") d)) _ h in
      let (vec, is_vec, h) = >>=-eq-ok (parse_hash (get (codes "vec_hash") d)) _ h in
      let (hash, is_hash, h) = >>=-eq-ok (parse_model_hash (get (codes "model_hash") d)) _ h in
      let (ts, is_ts, h) = >>=-eq-ok (parse_ts p allowed v (get (codes "ts") d)) _ h in
      let (extra, is_extra, h) = >>=-eq-ok (parse_extra p v d) _ h in
      let (sig, is_sig, h) = >>=-eq-ok (parse_sig (get (codes "sig") d)) _ h in
      subst (Reads p allowed d) (ok-injective h) (record {
        known = raise_if-eq-ok _ Exc.value_error a;
        sized = b;
        is_v = is_v;
        is_model = is_model;
        is_kid = is_kid;
        is_dtype = is_dtype;
        is_dim = is_dim;
        is_source = is_source;
        is_vec = is_vec;
        is_hash = is_hash;
        is_ts = is_ts;
        is_extra = is_extra;
        is_sig = is_sig;
      })

  pub Reads-from_fields :
      (d : Fields) (pin : Pin) → Reads p allowed d pin → from_fields p allowed d ≡ ok pin
  unfolding from_fields
  Reads-from_fields d pin r =
      rw
        (
          r.known, r.sized, r.is_v, r.is_model, r.is_kid, r.is_dtype, r.is_dim, r.is_source,
          r.is_vec, r.is_hash, r.is_ts, r.is_extra, r.is_sig,
        )
        refl
