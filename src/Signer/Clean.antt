-- ===== src/Signer/Clean.antt =====
-- The strings that `Signer.pin` of src/vectorpin/signer.py signs: they have no lone surrogate, so
-- that the canonical bytes exist.
use vector_pin.Prelude.{
  ℕ, ◌≡◌, refl, sym, subst, Bool, true, false, not, [], ◌∷◌, ◌++◌, Option, none, some, all, any,
  ltb, arith, All,
}
use vector_pin.Outcome.{ok}
use vector_pin.Text.{Text, Bytes, codes, encode_utf8, encode_pass, is_surrogate}
use vector_pin.Text.Sort.Keeps.{All-sort_by}
use vector_pin.Dict.{put}
use vector_pin.Json.{Fields, obj, dumps, raw_unicode}
use vector_pin.Json.Characters.{is_printable, Writes, Clean, CleanFields, dumps-Within}
use vector_pin.Platform.{Platform, PlatformLaws}
use vector_pin.Attestation.{PinHeader, Extra, domain_tag}
use vector_pin.Attestation.Checks.{check_string_safe}
use vector_pin.Attestation.Encode.{
  of_extra, sorted_items, with_model_hash, with_extra, to_dict, nfc_items, normalized, canonicalize,
}
use vector_pin.Attestation.Parse.Extras.{All-put}
use vector_pin.Signer.{normalize_str, normalize_extra}

abbrev pub NoSurrogate : Text → Type 0
NoSurrogate s = any is_surrogate s ≡ false

pub check_string_safe-NoSurrogate : (s : Text) → check_string_safe s ≡ ok tt → NoSurrogate s
unfolding check_string_safe
check_string_safe-NoSurrogate [] h = refl
check_string_safe-NoSurrogate (c ∷ s) h = ground (arith, check_string_safe-NoSurrogate s)

pub ascii-NoSurrogate : (s : Text) → all (λ c. ltb c 128) s ≡ true → NoSurrogate s
ascii-NoSurrogate [] h = refl
ascii-NoSurrogate (c ∷ s) h = ground (arith, ascii-NoSurrogate s)

abbrev allowed : ℕ → Bool
allowed c = not (is_surrogate c)

allowed_plain : (c : ℕ) → is_printable c ≡ true → allowed c ≡ true
allowed_plain c h = ground arith

abbrev CleanRaw : Fields → Type 0
CleanRaw = CleanFields allowed allowed_plain raw_unicode

writes : (s : Text) → NoSurrogate s → Writes allowed allowed_plain raw_unicode s
writes [] h = refl
writes (c ∷ s) h = ground (arith, writes s)

all_allowed-NoSurrogate : (s : Text) → all allowed s ≡ true → NoSurrogate s
all_allowed-NoSurrogate [] h = refl
all_allowed-NoSurrogate (c ∷ s) h = ground (arith, all_allowed-NoSurrogate s)

-- An entry of `extra` whose texts are normal and have no lone surrogate.
module _ {K S A : Type 0} (p : Platform K S A) where
  abbrev pub Normal : Text → Type 0
  Normal s = (p.nfc s ≡ s) × NoSurrogate s

  abbrev pub NormalEntry : Text × Text → Type 0
  NormalEntry (k, v) = Normal k × Normal v

  put-NormalEntry :
      (k v : Text) (d : Extra)
      → Normal k
      → Normal v
      → All NormalEntry d
      → All NormalEntry (put k v d)
  put-NormalEntry k v d a b c = (All-put NormalEntry k v d (λ j w h e. (h.0, b)) (a, b) c).0

  -- A text that `_normalize_str` lets through.
  abbrev pub Accepted : Text → Type 0
  Accepted s = check_string_safe (p.nfc s) ≡ ok tt

  abbrev pub AcceptedEntry : Text × Text → Type 0
  AcceptedEntry (k, v) = Accepted k × Accepted v

  pub normalize_str-Accepted : (s : Text) → Accepted s → normalize_str p s ≡ ok (p.nfc s)
  unfolding normalize_str
  normalize_str-Accepted s h = rw h refl

  module _ (laws : PlatformLaws p) where
    pub Normal-Accepted : (s : Text) → Accepted s → Normal (p.nfc s)
    Normal-Accepted s h = (laws.nfc_idem s, check_string_safe-NoSurrogate (p.nfc s) h)

    pub normalize_extra-Accepted :
        (acc m : Extra)
        → All NormalEntry acc
        → All AcceptedEntry m
        → (e : Extra) × (normalize_extra p acc m ≡ ok e) × All NormalEntry e
    unfolding normalize_extra
    normalize_extra-Accepted acc [] n a = (acc, refl, n)
    normalize_extra-Accepted acc ((k, v) ∷ m) n a =
        let (e, q, c) =
          normalize_extra-Accepted (put (p.nfc k) (p.nfc v) acc) m
            (put-NormalEntry (p.nfc k) (p.nfc v) acc (Normal-Accepted k a.0.0)
              (Normal-Accepted v a.0.1) n)
            a.1 in
        (e, rw (normalize_str-Accepted k a.0.0, normalize_str-Accepted v a.0.1) q, c)

  nfc_items-Normal :
      (acc m : Extra)
      → All NormalEntry acc
      → All NormalEntry m
      → All NormalEntry (nfc_items p acc m)
  unfolding nfc_items
  nfc_items-Normal acc [] n a = n
  nfc_items-Normal acc ((k, v) ∷ m) n a =
      nfc_items-Normal (put (p.nfc k) (p.nfc v) acc) m
        (put-NormalEntry (p.nfc k) (p.nfc v) acc (nfc-Normal k a.0.0) (nfc-Normal v a.0.1) n) a.1
    where
      nfc-Normal : (s : Text) → Normal s → Normal (p.nfc s)
      nfc-Normal s h = subst Normal (sym h.0) h

of_extra-CleanRaw :
    {K S A : Type 0} (p : Platform K S A) (m : Extra)
    → All (NormalEntry p) m
    → CleanRaw (of_extra m)
unfolding of_extra CleanFields Clean
of_extra-CleanRaw p [] a = tt
of_extra-CleanRaw p ((k, v) ∷ m) a = (writes k a.0.0.1, writes v a.0.1.1, of_extra-CleanRaw p m a.1)

-- The model hash, if one is given, has no lone surrogate.
abbrev pub HashNoSurrogate : Option Text → Type 0
HashNoSurrogate none = Unit
HashNoSurrogate (some s) = NoSurrogate s

with_extra-CleanRaw :
    {K S A : Type 0} (p : Platform K S A) (m : Extra) (rest : Fields)
    → All (NormalEntry p) m
    → CleanRaw rest
    → CleanRaw (with_extra m rest)
unfolding CleanFields Clean
with_extra-CleanRaw p [] rest a h = h
with_extra-CleanRaw p (e ∷ m) rest a h =
    (writes (codes "extra") refl, of_extra-CleanRaw p (e ∷ m) a, h)

with_model_hash-CleanRaw :
    (o : Option Text) (rest : Fields)
    → HashNoSurrogate o
    → CleanRaw rest
    → CleanRaw (with_model_hash o rest)
unfolding CleanFields Clean
with_model_hash-CleanRaw none rest a h = h
with_model_hash-CleanRaw (some s) rest a h = (writes (codes "model_hash") refl, writes s a, h)

-- The strings of a header that can be signed.
pub record CleanHeader {K S A : Type 0} (p : Platform K S A) (h : PinHeader) : Type 0 where
  pub kid : Normal p h.kid
  pub model : Normal p h.model
  pub ts : Normal p h.ts
  pub source_hash : NoSurrogate h.source_hash
  pub vec_hash : NoSurrogate h.vec_hash
  pub vec_dtype : NoSurrogate h.vec_dtype
  pub model_hash : HashNoSurrogate h.model_hash
  pub extra : All (NormalEntry p) h.extra

module _ {K S A : Type 0} (p : Platform K S A) (h : PinHeader) (c : CleanHeader p h) where
  normal_extra : All (NormalEntry p) (sorted_items (normalized p h).extra)
  unfolding normalized sorted_items
  normal_extra =
      All-sort_by (λ e. e.0) (NormalEntry p) (nfc_items p [] (sorted_items h.extra))
        (nfc_items-Normal p [] (sorted_items h.extra) tt
          (All-sort_by (λ e. e.0) (NormalEntry p) h.extra c.extra))

  to_dict-CleanRaw : CleanRaw (to_dict (normalized p h))
  unfolding to_dict normalized CleanFields Clean
  to_dict-CleanRaw = (
    writes (codes "v") refl,
    tt,
    (
      writes (codes "kid") refl,
      writes (p.nfc h.kid) (clean c.kid),
      (
        writes (codes "model") refl,
        writes (p.nfc h.model) (clean c.model),
        (
          writes (codes "source_hash") refl,
          writes h.source_hash c.source_hash,
          (
            writes (codes "vec_hash") refl,
            writes h.vec_hash c.vec_hash,
            (
              writes (codes "vec_dtype") refl,
              writes h.vec_dtype c.vec_dtype,
              (
                writes (codes "vec_dim") refl,
                tt,
                (
                  writes (codes "ts") refl,
                  writes (p.nfc h.ts) (clean c.ts),
                  with_model_hash-CleanRaw h.model_hash _ c.model_hash (
                      with_extra-CleanRaw p (sorted_items (normalized p h).extra) _ normal_extra
                        tt),
                ),
              ),
            ),
          ),
        ),
      ),
    ),
  )
    where
      clean : {s : Text} → Normal p s → NoSurrogate (p.nfc s)
      clean n = subst NoSurrogate (sym n.0) n.1

  body-NoSurrogate : NoSurrogate (dumps raw_unicode (obj (to_dict (normalized p h))))
  unfolding Clean CleanFields
  body-NoSurrogate = all_allowed-NoSurrogate (dumps raw_unicode (obj (to_dict (normalized p h)))) (
      dumps-Within allowed allowed_plain raw_unicode (obj (to_dict (normalized p h)))
        to_dict-CleanRaw)

  pub canonicalize-CleanHeader : (b : Bytes) × (canonicalize p h ≡ ok b)
  unfolding canonicalize encode_utf8
  canonicalize-CleanHeader = (
    domain_tag ++ encode_pass (dumps raw_unicode (obj (to_dict (normalized p h)))),
    rw body-NoSurrogate refl,
  )
