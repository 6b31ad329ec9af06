-- ===== src/Attestation/Encode.antt =====
-- `PinHeader.to_dict`, `PinHeader.canonicalize`, `_canonicalize_v1`, `Pin.to_dict` and
-- `Pin.to_json`.
use vector_pin.Prelude.{[], ◌∷◌, ◌++◌, Option, none, some}
use vector_pin.Outcome.{Result, ok, ◌>>=◌}
use vector_pin.Text.{Text, Bytes, codes, encode_utf8}
use vector_pin.Text.Sort.{sort_by}
use vector_pin.Dict.{put}
use vector_pin.Json.{Fields, end, field, int, str, obj, dumps, raw_unicode, raw_ascii}
use vector_pin.Platform.{Platform}
use vector_pin.Attestation.{PinHeader, Pin, Extra, domain_tag}
use vector_pin.Attestation.Base64.{b64}

-- A dict of strings as a JSON object.
unfoldable pub of_extra : Extra → Fields
of_extra [] = end
of_extra ((k, v) ∷ m) = field k (str v) (of_extra m)

-- `dict(sorted(d.items()))`
unfoldable pub sorted_items : Extra → Extra
unfolding sort_by
sorted_items = sort_by (λ e. e.0)

abbrev pub with_model_hash : Option Text → Fields → Fields
with_model_hash none rest = rest
with_model_hash (some h) rest = field (codes "model_hash") (str h) rest

-- `if self.extra: out["extra"] = ...`
abbrev pub with_extra : Extra → Fields → Fields
with_extra [] rest = rest
with_extra (e ∷ m) rest = field (codes "extra") (obj (of_extra (e ∷ m))) rest

-- The entries that follow `v` and, in protocol 2, `kid`.
abbrev pub common_fields : PinHeader → Fields → Fields
common_fields h rest = field (codes "model") (str h.model) (
    field (codes "source_hash") (str h.source_hash) (
      field (codes "vec_hash") (str h.vec_hash) (
        field (codes "vec_dtype") (str h.vec_dtype) (
          field (codes "vec_dim") (int h.vec_dim) (
            field (codes "ts") (str h.ts)
              (with_model_hash h.model_hash (with_extra (sorted_items h.extra) rest)))))))

-- The header's dict, with what `Pin.to_dict` adds behind it.
unfoldable pub header_fields : PinHeader → Fields → Fields
unfolding of_extra
header_fields h rest =
    field (codes "v") (int h.v) (field (codes "kid") (str h.kid) (common_fields h rest))

-- `PinHeader.to_dict`
unfoldable pub to_dict : PinHeader → Fields
unfolding header_fields
to_dict h = header_fields h end

-- `Pin.to_dict`
unfoldable pub pin_to_dict : Pin → Fields
unfolding header_fields
pin_to_dict pin = header_fields pin.header (field (codes "sig") (str (b64 pin.sig)) end)

-- `Pin.to_json`
unfoldable pub to_json : Pin → Text
unfolding pin_to_dict
to_json pin = dumps raw_ascii (obj (pin_to_dict pin))

-- `_canonicalize_v1`
unfoldable pub canonicalize_v1 : PinHeader → Result Bytes
unfolding of_extra
canonicalize_v1 h =
    encode_utf8 (dumps raw_unicode (obj (field (codes "v") (int h.v) (common_fields h end))))

module _ {K S A : Type 0} (p : Platform K S A) where
  -- The dict comprehension: two keys that normalize alike leave the later value.
  unfoldable pub nfc_items : Extra → Extra → Extra
  nfc_items acc [] = acc
  nfc_items acc ((k, v) ∷ m) = nfc_items (put (p.nfc k) (p.nfc v) acc) m

  -- The header whose dict is signed.
  unfoldable pub normalized : PinHeader → PinHeader
  unfolding nfc_items
  normalized h = record h {
    kid = p.nfc h.kid;
    model = p.nfc h.model;
    ts = p.nfc h.ts;
    extra = nfc_items [] (sorted_items h.extra);
  }

  -- `PinHeader.canonicalize`
  unfoldable pub canonicalize : PinHeader → Result Bytes
  unfolding normalized to_dict
  canonicalize h = do
    body ← encode_utf8 (dumps raw_unicode (obj (to_dict (normalized h))))
    ok (domain_tag ++ body)
