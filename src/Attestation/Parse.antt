-- ===== src/Attestation/Parse.antt =====
-- `Pin.from_dict` and `Pin.from_json`: the wire-format rules, one function for each numbered step.
pub mod Limits
pub mod Extras
pub mod Inverse
pub mod Sizes
pub mod Reparse
pub mod Reads
pub mod Again
pub mod Formats
pub mod Parsed
use vector_pin.Prelude.{
  ℕ, ◌+◌, ◌*◌, ℤ, pos, eqb_ℤ, Bool, false, not, ◌&&◌, ◌||◌, List, [], ◌∷◌, Option, none, some, ltb,
  leb, ◌==◌, if◌then◌else◌, length,
}
use vector_pin.Outcome.{Result, Checked, ok, err, Exc, ◌>>=◌, ◌>>◌, raise_if}
use vector_pin.Text.{Text, Bytes, codes, encode_utf8}
use vector_pin.Text.Equality.{text_eq}
use vector_pin.Dict.{contains, put}
use vector_pin.Json.{Json, Fields, null, int, str, arr, obj, end, field}
use vector_pin.Platform.{Platform}
use vector_pin.Hash.{f32, f64}
use vector_pin.Attestation.{
  Pin, Extra, protocol_version, max_pin_json_bytes, max_extra_entries, max_extra_key_bytes,
  max_extra_value_bytes, max_kid_bytes, max_model_bytes, max_vec_dim, sig_len,
}
use vector_pin.Attestation.Base64.{b64dec}
use vector_pin.Attestation.Checks.{check_string_safe, check_byte_cap, check_surrogates, check_nfc}
use vector_pin.Attestation.Pattern.{hash_re, ts_re, check_ts_calendar}

-- `_ALLOWED_TOP_LEVEL_KEYS`
abbrev pub allowed_top_level_keys : List Text
allowed_top_level_keys =
    codes "v"
    ∷ codes "kid"
    ∷ codes "model"
    ∷ codes "model_hash"
    ∷ codes "source_hash"
    ∷ codes "vec_hash"
    ∷ codes "vec_dtype"
    ∷ codes "vec_dim"
    ∷ codes "ts"
    ∷ codes "extra"
    ∷ codes "sig"
    ∷ []

-- `d.get(k)`, where a missing key reads as `None`
unfoldable pub get : Text → Fields → Json
get k end = null
get k (field j v fs) = if text_eq j k then v else get k fs

unfoldable pub fields_length : Fields → ℕ
fields_length end = 0
fields_length (field k v fs) = fields_length fs + 1

-- `unknown = set(d.keys()) - _ALLOWED_TOP_LEVEL_KEYS`
unfoldable pub has_unknown : List Text → Fields → Bool
unfolding contains
has_unknown allowed end = false
has_unknown allowed (field k v fs) = not (contains k allowed) || has_unknown allowed fs

-- The code points of the strings in an `extra` dict.
unfoldable pub dict_text_size : Fields → ℕ
dict_text_size end = 0
dict_text_size (field k (str s) fs) = length k + length s + dict_text_size fs
dict_text_size (field k _ fs) = length k + dict_text_size fs

unfoldable pub value_size : Json → ℕ
unfolding dict_text_size
value_size (str s) = length s
value_size (obj fs) = dict_text_size fs
value_size _ = 0

-- `_check_dict_size`, with the total so far
unfoldable pub check_dict_size : ℕ → Fields → Checked
unfolding value_size
check_dict_size total end = ok tt
check_dict_size total (field k v fs) =
    let total' = total + length k + value_size v in
    if ltb max_pin_json_bytes total' then err Exc.value_error else check_dict_size total' fs

unfoldable pub elem_ℤ : ℤ → List ℤ → Bool
elem_ℤ n [] = false
elem_ℤ n (m ∷ ms) = eqb_ℤ n m || elem_ℤ n ms

-- Step 2: a JSON `2.0` and `true` are no integers here.
unfoldable pub parse_version : List ℤ → Json → Result ℤ
unfolding elem_ℤ
parse_version allowed (int v) = if elem_ℤ v allowed then ok v else err Exc.value_error
parse_version allowed _ = err Exc.value_error

-- Step 4
unfoldable pub parse_dim : Json → Result ℤ
parse_dim (int (pos n)) = if ltb 0 n && leb n max_vec_dim then ok (pos n) else err Exc.value_error
parse_dim _ = err Exc.value_error

-- `vec_dtype not in _ALLOWED_DTYPES`: a list or a dict cannot be hashed, and raises `TypeError`.
unfoldable pub parse_dtype : Json → Result Text
parse_dtype (str s) = if text_eq s f32 || text_eq s f64 then ok s else err Exc.value_error
parse_dtype (arr xs) = err Exc.type_error
parse_dtype (obj fs) = err Exc.type_error
parse_dtype _ = err Exc.value_error

-- Step 5
unfoldable pub parse_hash : Json → Result Text
unfolding hash_re
parse_hash (str s) = if hash_re s then ok s else err Exc.value_error
parse_hash _ = err Exc.value_error

unfoldable pub parse_model_hash : Json → Result (Option Text)
unfolding hash_re
parse_model_hash null = ok none
parse_model_hash (str s) = if hash_re s then ok (some s) else err Exc.value_error
parse_model_hash _ = err Exc.value_error

-- Step 8
unfoldable pub parse_sig : Json → Result Bytes
parse_sig (str s) = do
  raise_if (ltb (4 * sig_len) (length s)) Exc.value_error
  sig ← b64dec s
  raise_if (not (length sig == sig_len)) Exc.value_error
  ok sig
parse_sig _ = err Exc.value_error

module _ {K S A : Type 0} (p : Platform K S A) where
  -- The checks on a string that protocol 2 scans and protocol 1 does not.
  unfoldable pub check_text : ℤ → Text → Checked
  unfolding check_string_safe check_nfc check_surrogates
  check_text v s =
      if eqb_ℤ v protocol_version
      then (check_string_safe s >> check_nfc p s)
      else check_surrogates s

  -- Step 3: `model` and `kid`
  unfoldable pub parse_name : ℤ → ℕ → Json → Result Text
  unfolding check_text check_byte_cap
  parse_name v limit (str []) = err Exc.value_error
  parse_name v limit (str (c ∷ s)) = do
    check_byte_cap (c ∷ s) limit
    check_text v (c ∷ s)
    ok (c ∷ s)
  parse_name v limit _ = err Exc.value_error

  -- Step 6
  unfoldable pub parse_ts : List ℤ → ℤ → Json → Result Text
  unfolding ts_re check_ts_calendar check_string_safe check_nfc check_byte_cap
  parse_ts allowed v (str []) = err Exc.value_error
  parse_ts allowed v (str (c ∷ s)) =
      if elem_ℤ protocol_version allowed && eqb_ℤ v protocol_version
      then (do
        raise_if (not (ts_re (c ∷ s))) Exc.value_error
        check_ts_calendar (c ∷ s)
        check_string_safe (c ∷ s)
        check_nfc p (c ∷ s)
        ok (c ∷ s))
      else (do check_byte_cap (c ∷ s) max_model_bytes; check_string_safe (c ∷ s); ok (c ∷ s))
  parse_ts allowed v _ = err Exc.value_error

  -- One entry of `extra`. `encode` raises at a lone surrogate.
  unfoldable pub check_entry : ℤ → Text → Text → Checked
  unfolding check_text
  check_entry v k val = do
    kb ← encode_utf8 k
    raise_if (ltb max_extra_key_bytes (length kb)) Exc.value_error
    vb ← encode_utf8 val
    raise_if (ltb max_extra_value_bytes (length vb)) Exc.value_error
    check_text v k
    check_text v val

  -- Step 7: the loop over `extra_raw.items()`
  unfoldable pub parse_entries : ℤ → Extra → Fields → Result Extra
  unfolding check_entry
  parse_entries v acc end = ok acc
  parse_entries v acc (field k (str val) fs) =
      check_entry v k val >>= λ _. parse_entries v (put k val acc) fs
  parse_entries v acc (field k _ fs) = err Exc.value_error

  -- `d.get("extra", {})`: an absent key is the empty dict, and `null` is refused.
  unfoldable pub parse_extra : ℤ → Fields → Result Extra
  unfolding parse_entries fields_length
  parse_extra v end = ok []
  parse_extra v (field k (obj fs) rest) =
      if text_eq k (codes "extra")
      then (raise_if (ltb max_extra_entries (fields_length fs)) Exc.value_error
          >> parse_entries v [] fs)
      else parse_extra v rest
  parse_extra v (field k _ rest) =
      if text_eq k (codes "extra") then err Exc.value_error else parse_extra v rest

  unfoldable pub from_fields : List ℤ → Fields → Result Pin
  from_fields allowed d = do
    raise_if (has_unknown allowed_top_level_keys d) Exc.value_error
    check_dict_size 0 d
    v ← parse_version allowed (get (codes "v") d)
    model ← parse_name v max_model_bytes (get (codes "model") d)
    kid ← parse_name v max_kid_bytes (get (codes "kid") d)
    vec_dtype ← parse_dtype (get (codes "vec_dtype") d)
    vec_dim ← parse_dim (get (codes "vec_dim") d)
    source_hash ← parse_hash (get (codes "source_hash") d)
    vec_hash ← parse_hash (get (codes "vec_hash") d)
    model_hash ← parse_model_hash (get (codes "model_hash") d)
    ts ← parse_ts allowed v (get (codes "ts") d)
    extra ← parse_extra v d
    sig ← parse_sig (get (codes "sig") d)
    ok (record {
      header = record {
        v = v;
        kid = kid;
        model = model;
        source_hash = source_hash;
        vec_hash = vec_hash;
        vec_dtype = vec_dtype;
        vec_dim = vec_dim;
        ts = ts;
        model_hash = model_hash;
        extra = extra;
      };
      sig = sig;
    })

  -- `Pin.from_dict(d, accept_versions=allowed)`
  unfoldable pub from_dict : List ℤ → Json → Result Pin
  unfolding from_fields
  from_dict allowed (obj d) = from_fields allowed d
  from_dict allowed _ = err Exc.value_error

  -- `Pin.from_json`
  unfoldable pub from_json : List ℤ → Text → Result Pin
  unfolding from_dict
  from_json allowed s = do
    bytes ← encode_utf8 s
    raise_if (ltb max_pin_json_bytes (length bytes)) Exc.value_error
    d ← p.loads s
    from_dict allowed d
