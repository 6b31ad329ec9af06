-- ===== src/Verifier/Accepts.antt =====
-- What `verify` promises: the independent description of an accepted pin.
use vector_pin.Prelude.{ℕ, pos, ◌≡◌, ◌⊎◌, true, false, [], ◌∷◌, Option, none, some, length}
use vector_pin.Outcome.{ok}
use vector_pin.Text.{Text, Bytes}
use vector_pin.Dict.{lookup}
use vector_pin.Platform.{Platform, Datetime}
use vector_pin.Hash.{is_wider_than, hash_vector, hash_text}
use vector_pin.Attestation.{PinHeader, Pin}
use vector_pin.Attestation.Parse.{elem_ℤ}
use vector_pin.Verifier.{
  Verifier, KeyEntry, Supplied, ndarray, not_array, Expected, accepted, canonical_for, datetime_lt,
  parse_ts, record_id_key, collection_id_key, tenant_id_key,
}

-- A bound of the window, at the instant `t`: `valid_from` is inclusive, `valid_until` exclusive.
abbrev pub From : Option Datetime → Datetime → Type 0
From none t = Unit
From (some bound) t = datetime_lt t bound ≡ ok false

abbrev pub Until : Option Datetime → Datetime → Type 0
Until none t = Unit
Until (some bound) t = datetime_lt t bound ≡ ok true

-- The window is evaluated at the trusted time, which the pin's own `ts` must not postdate, or at
-- that `ts` where there is none.
abbrev pub Window : {K : Type 0} → KeyEntry K → Option Datetime → Datetime → Type 0
Window e none ts = From e.valid_from ts × Until e.valid_until ts
Window e (some trusted) ts =
    (datetime_lt trusted ts ≡ ok false) × From e.valid_from trusted × Until e.valid_until trusted

-- A value that is given is the pin's value.
abbrev pub Agrees : Option Text → Option Text → Type 0
Agrees none actual = Unit
Agrees (some x) actual = actual ≡ some x

module _ {K S A : Type 0} (p : Platform K S A) where
  -- No bound is set and no trusted time given, or `ts` is read and lies in the window.
  abbrev pub InWindow : KeyEntry K → Text → Option Datetime → Type 0
  InWindow e ts trusted =
      ((e.valid_from ≡ none) × (e.valid_until ≡ none) × (trusted ≡ none))
      ⊎ ((t : Datetime) × (parse_ts p ts ≡ some t) × Window e trusted t)

  abbrev pub SourceAgrees : PinHeader → Option Text → Type 0
  SourceAgrees h none = Unit
  SourceAgrees h (some s) = hash_text p s ≡ ok h.source_hash

  -- A given vector is a one-dimensional array of the pinned length, no wider than the pinned
  -- dtype, finite, and hashes to the pinned hash.
  abbrev pub ArrayAgrees : PinHeader → A → Type 0
  ArrayAgrees h a =
      ((n : ℕ) × (p.shape a ≡ n ∷ []) × (pos n ≡ h.vec_dim))
      × (is_wider_than p a h.vec_dtype ≡ ok false)
      × (p.all_finite a ≡ true)
      × (hash_vector p a h.vec_dtype ≡ ok h.vec_hash)

  abbrev pub VectorAgrees : PinHeader → Option (Supplied A) → Type 0
  VectorAgrees h none = Unit
  VectorAgrees h (some not_array) = ⊥
  VectorAgrees h (some (ndarray a)) = ArrayAgrees h a

  abbrev pub Signed : KeyEntry K → Pin → Type 0
  Signed e pin =
      (m : Bytes) × (canonical_for p pin ≡ ok m) × (p.verifies e.public_key pin.sig m ≡ true)

  -- Everything that an accepted pin satisfies, under the registered entry of its key.
  pub record Accepts (vf : Verifier K) (pin : Pin) (x : Expected A) : Type 0 where
    pub version : elem_ℤ pin.header.v (accepted vf) ≡ true
    pub sig_length : length pin.sig ≡ 64
    pub registered : KeyEntry K
    pub found : lookup pin.header.kid vf.keys ≡ some registered
    pub in_window : InWindow registered pin.header.ts x.trusted_time
    pub trusted_aware : (t : Datetime) → x.trusted_time ≡ some t → t.is_aware ≡ true
    pub signed : Signed registered pin
    pub source : SourceAgrees pin.header x.source
    pub vector : VectorAgrees pin.header x.vector
    pub model : Agrees x.model (some pin.header.model)
    pub model_hash : Agrees x.model_hash pin.header.model_hash
    pub record_id : Agrees x.record_id (lookup record_id_key pin.header.extra)
    pub collection_id : Agrees x.collection_id (lookup collection_id_key pin.header.extra)
    pub tenant_id : Agrees x.tenant_id (lookup tenant_id_key pin.header.extra)
