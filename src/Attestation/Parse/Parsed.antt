-- ===== src/Attestation/Parse/Parsed.antt =====
-- What a pin that `Pin.from_dict` returns satisfies: the limits of the wire format.
use vector_pin.Prelude.{
  Option, none, ◌≢◌, false, inl, inr, Bool-cases, arith, negsuc, refl, ap, ◌==◌, ==_iff, ℕ, ℤ, pos,
  ◌≡◌, All, [], ◌∷◌, ◌≤◌, ◌<◌, ◌⊎◌, true, List, some, length, subst,
}
use vector_pin.Outcome.{ok}
use vector_pin.Text.{Text, codes}
use vector_pin.Platform.{Platform}
use vector_pin.Hash.{f32, f64}
use vector_pin.Json.{Json, Fields, str}
use vector_pin.Attestation.{
  PinHeader, Pin, Extra, max_pin_json_bytes, protocol_version, max_kid_bytes, max_model_bytes,
  max_vec_dim, sig_len,
}
use vector_pin.Attestation.Base64.{b64}
use vector_pin.Attestation.Parse.Sizes.{dict_size}
use vector_pin.Attestation.Parse.Formats.{
  HashText, Dated, SafeText, hash_re-HashText, check_text-SafeText, check_dict_size-eq-ok,
}
use vector_pin.Attestation.Parse.{
  elem_ℤ, get, has_unknown, allowed_top_level_keys, parse_ts, from_fields,
}
use vector_pin.Attestation.Parse.Extras.{
  ExtraFits, EntryPasses, check_entry-checks, parse_extra-eq-ok, parse_extra-Read,
}
use vector_pin.Attestation.Parse.Reads.{from_fields-Reads}
use vector_pin.Attestation.Parse.Limits.{
  Fits, parse_version-eq-ok, parse_dim-eq-ok, parse_dtype-eq-ok, parse_hash-eq-ok,
  parse_model_hash-eq-ok, parse_name-eq-ok, parse_ts-eq-ok, parse_sig-eq-ok,
}

abbrev HashIfGiven : Option Text → Type 0
HashIfGiven none = Unit
HashIfGiven (some s) = HashText s

hash_if_given : (o : Option Text) → ((s : Text) → o ≡ some s → HashText s) → HashIfGiven o
hash_if_given none f = tt
hash_if_given (some s) f = f s refl

version_dec : (v : ℤ) → (v ≡ protocol_version) ⊎ (v ≢ protocol_version)
version_dec (pos n) = elim (Bool-cases (n == 2)) [
  | inl e ↦ inl (ap pos ((==_iff n 2).0 e))
  | inr e ↦ inr (λ q. absurd (ground arith))
]
version_dec (negsuc n) = inr (λ q. cc)

-- The keys and the values of `extra` are safe texts.
abbrev SafeEntries : {K S A : Type 0} → Platform K S A → ℤ → Extra → Type 0
SafeEntries p v extra = All (λ e. SafeText p v e.0 × SafeText p v e.1) extra

entries_safe :
    {K S A : Type 0} (p : Platform K S A) (v : ℤ) (extra : Extra)
    → All (EntryPasses p v) extra
    → SafeEntries p v extra
entries_safe p v [] a = tt
entries_safe p v ((k, val) ∷ extra) (e, a) =
    let (x, y) = check_entry-checks p v k val e in
    ((check_text-SafeText p v k x, check_text-SafeText p v val y), entries_safe p v extra a)

-- The limits of a parsed header.
pub record Bounded {K S A : Type 0} (p : Platform K S A) (allowed : List ℤ) (h : PinHeader)
    : Type 0 where
  version_accepted : elem_ℤ h.v allowed ≡ true
  model_fits : Fits max_model_bytes h.model
  kid_fits : Fits max_kid_bytes h.kid
  model_safe : SafeText p h.v h.model
  kid_safe : SafeText p h.v h.kid
  dtype_known : (h.vec_dtype ≡ f32) ⊎ (h.vec_dtype ≡ f64)
  dim_in_range : (n : ℕ) × (h.vec_dim ≡ pos n) × (0 < n) × (n ≤ max_vec_dim)
  source_hash_formed : HashText h.source_hash
  vec_hash_formed : HashText h.vec_hash
  model_hash_formed : HashIfGiven h.model_hash
  extra_fits : ExtraFits h.extra
  extra_safe : SafeEntries p h.v h.extra
  ts_formed :
      (elem_ℤ protocol_version allowed ≡ false)
      ⊎ ((h.v ≢ protocol_version) ⊎ (Dated h.ts × SafeText p protocol_version h.ts))

-- The limits of a parsed pin: the signature has 64 bytes, and the dict holds its base64 form.
pub record Parsed {K S A : Type 0} (p : Platform K S A) (allowed : List ℤ) (d : Fields) (pin : Pin)
    : Type 0 where
  keys_known : has_unknown allowed_top_level_keys d ≡ false
  size_bounded : dict_size d ≤ max_pin_json_bytes
  header_bounded : Bounded p allowed pin.header
  sig_long : length pin.sig ≡ sig_len
  sig_encoded : get (codes "sig") d ≡ str (b64 pin.sig)

ts_if_current :
    {K S A : Type 0} (p : Platform K S A) (allowed : List ℤ) (v : ℤ) (j : Json) (ts : Text)
    → parse_ts p allowed v j ≡ ok ts
    → (elem_ℤ protocol_version allowed ≡ false)
      ⊎ ((v ≢ protocol_version) ⊎ (Dated ts × SafeText p protocol_version ts))
ts_if_current p allowed v j ts h = elim (Bool-cases (elem_ℤ protocol_version allowed)) [
  | inr m ↦ inl m
  | inl m ↦ inr (elim (version_dec v) [
    | inr other ↦ inl other
    | inl e ↦
        inr (parse_ts-eq-ok p allowed j ts m (subst (λ u. parse_ts p allowed u j ≡ ok ts) e h))
  ])
]

-- A dict that `Pin.from_dict` reads has known keys only and at most 65,536 characters of text, and
-- gives a pin of an accepted version, whose model and key id are not empty and at most 1024 and 256
-- bytes long, with a known dtype, a dimension from 1 to 2^20, hashes that are `sha256:` with 64
-- lowercase hex digits and at most a newline behind them, at most 32 entries of `extra` within
-- their byte limits, and a signature of 64 bytes whose base64 form the dict holds. In version 2 the
-- model, the key id and the keys and values of `extra` are in NFC and have no control character, no
-- bidirectional override and no surrogate; in another version they have no surrogate. Where
-- protocol 2 is accepted and is the version, the timestamp is such a text too, and reads as a date
-- and time in the one form, each field in the range of the calendar, with nothing behind the `Z`.
pub from_fields-Parsed :
    {K S A : Type 0} (p : Platform K S A) (allowed : List ℤ) (d : Fields) (pin : Pin)
    → from_fields p allowed d ≡ ok pin
    → Parsed p allowed d pin
from_fields-Parsed p allowed d pin h =
    let r = from_fields-Reads p allowed d pin h in
    let (long, encoded) = parse_sig-eq-ok _ pin.sig r.is_sig in
    let (passed, _, _) = parse_extra-Read p pin.header.v d pin.header.extra r.is_extra in
    let (model_fits, model_checked) =
      parse_name-eq-ok p pin.header.v max_model_bytes _ pin.header.model r.is_model in
    let (kid_fits, kid_checked) =
      parse_name-eq-ok p pin.header.v max_kid_bytes _ pin.header.kid r.is_kid in
    record {
      keys_known = r.known;
      size_bounded = omega (arith, check_dict_size-eq-ok 0 d (omega arith) r.sized);
      header_bounded = record {
        version_accepted = parse_version-eq-ok allowed _ pin.header.v r.is_v;
        model_fits = model_fits;
        kid_fits = kid_fits;
        model_safe = check_text-SafeText p pin.header.v pin.header.model model_checked;
        kid_safe = check_text-SafeText p pin.header.v pin.header.kid kid_checked;
        dtype_known = parse_dtype-eq-ok _ pin.header.vec_dtype r.is_dtype;
        dim_in_range = parse_dim-eq-ok _ pin.header.vec_dim r.is_dim;
        source_hash_formed =
            hash_re-HashText _ (parse_hash-eq-ok _ pin.header.source_hash r.is_source);
        vec_hash_formed = hash_re-HashText _ (parse_hash-eq-ok _ pin.header.vec_hash r.is_vec);
        model_hash_formed = hash_if_given pin.header.model_hash (λ s e.
            hash_re-HashText s (parse_model_hash-eq-ok _ pin.header.model_hash r.is_hash s e));
        extra_fits = parse_extra-eq-ok p pin.header.v d pin.header.extra r.is_extra;
        extra_safe = entries_safe p pin.header.v pin.header.extra passed;
        ts_formed = ts_if_current p allowed pin.header.v (get (codes "ts") d) pin.header.ts r.is_ts;
      };
      sig_long = long;
      sig_encoded = encoded;
    }
