-- ===== src/Attestation/Canonical/Rows.antt =====
-- `PinHeader.canonicalize` of src/vectorpin/attestation.py: the rows of the header's object.
use vector_pin.Prelude.{
  ℕ, ℤ, ◌≡◌, refl, sym, ap, ◌∙◌, List, [], ◌∷◌, ◌++◌, append_assoc, arith, Option, none, some,
}
use vector_pin.Text.{Text, codes}
use vector_pin.Json.{raw_unicode, quote_mark, quote, int_text}
use vector_pin.Json.Quote.{quote-append_injective}
use vector_pin.Json.Decimal.{NoDigit, int_text-append_injective, int_text-ne_char}
use vector_pin.Json.Objects.{
  body, more, body_injective, entry_row, entries_injective, member-split, member-ne_brace,
}
use vector_pin.Attestation.{PinHeader, Extra}
use vector_pin.Attestation.Encode.{sorted_items}

-- A member of the header's object: text, number or `extra`.
pub data Value : Type 0 where
  text : Text → Value
  number : ℤ → Value
  dict : Extra → Value

unfoldable pub value_text : Value → Text
value_text (text s) = quote raw_unicode s
value_text (number n) = int_text n
value_text (dict m) = b'{' ∷ body entry_row m []

abbrev pub row : Text × Value → Text
row (k, v) = quote raw_unicode k ++ b':' ∷ value_text v

pub body-append : (m : Extra) (x : Text) → body entry_row m [] ++ x ≡ body entry_row m x
body-append [] x = refl
body-append (e ∷ m) x =
    append_assoc (entry_row e) (more entry_row m []) x
    ∙ ap (λ (t : Text). entry_row e ++ t) (more-append m x)
  where
    more-append : (m : Extra) (x : Text) → more entry_row m [] ++ x ≡ more entry_row m x
    more-append [] x = refl
    more-append (e ∷ m) x = ap (◌∷◌ b',') (
        append_assoc (entry_row e) (more entry_row m []) x
        ∙ ap (λ (t : Text). entry_row e ++ t) (more-append m x))

pub value_text-split :
    (a b : Value) (x y : Text)
    → NoDigit x
    → NoDigit y
    → value_text a ++ x ≡ value_text b ++ y
    → (a ≡ b) × (x ≡ y)
unfolding value_text quote
value_text-split (text s) (text t) x y nx ny h =
    let (e, u) = quote-append_injective s t x y h in (ap text e, u)
value_text-split (number m) (number n) x y nx ny h =
    let (e, u) = int_text-append_injective m n x y nx ny h in (ap number e, u)
value_text-split (dict l) (dict m) x y nx ny h =
    let (e, u) = entries_injective l m x y (sym (body-append l x) ∙ tail_eq h ∙ body-append m y) in
    (ap dict e, u)
  where
    tail_eq : {c d : ℕ} {x y : Text} → c ∷ x ≡ d ∷ y → x ≡ y
    tail_eq h = ground arith
value_text-split (text s) (number n) x y nx ny h =
    absurd (int_text-ne_char n quote_mark y _ refl (omega arith) (sym h))
value_text-split (number n) (text s) x y nx ny h =
    absurd (int_text-ne_char n quote_mark x _ refl (omega arith) h)
value_text-split (text s) (dict m) x y nx ny h = ground arith
value_text-split (dict m) (text s) x y nx ny h = ground arith
value_text-split (number n) (dict m) x y nx ny h =
    absurd (int_text-ne_char n b'{' x _ refl (omega arith) h)
value_text-split (dict m) (number n) x y nx ny h =
    absurd (int_text-ne_char n b'{' y _ refl (omega arith) (sym h))

pub rows_injective :
    (l m : List (Text × Value)) (x y : Text) → body row l x ≡ body row m y → (l ≡ m) × (x ≡ y)
rows_injective =
    body_injective row
      (λ r s x y nx ny h.
        let (e, t) = member-split r.0 s.0 (value_text r.1) (value_text s.1) x y h in
        let (f, u) = value_text-split r.1 s.1 x y nx ny t in ((λ i. (e i, f i)), u))
      (λ r x y h. member-ne_brace r.0 (value_text r.1) x y h)

-- The rows of a header's object, in the order of their keys.
abbrev pub model_hash_row : Option Text → List (Text × Value) → List (Text × Value)
model_hash_row none l = l
model_hash_row (some h) l = (codes "model_hash", text h) ∷ l

abbrev pub extra_row : Extra → List (Text × Value) → List (Text × Value)
extra_row [] l = l
extra_row (e ∷ m) l = (codes "extra", dict (e ∷ m)) ∷ l

unfoldable pub rows_of : Extra → Option Text → PinHeader → List (Text × Value)
rows_of e mh h = extra_row e (
    (codes "kid", text h.kid)
    ∷ (codes "model", text h.model)
    ∷ model_hash_row mh (
        (codes "source_hash", text h.source_hash)
        ∷ (codes "ts", text h.ts)
        ∷ (codes "v", number h.v)
        ∷ (codes "vec_dim", number h.vec_dim)
        ∷ (codes "vec_dtype", text h.vec_dtype)
        ∷ (codes "vec_hash", text h.vec_hash)
        ∷ []))

-- Two headers agree in every field that is signed; `extra` is compared as a sorted dict.
pub record SameHeader (h g : PinHeader) : Type 0 where
  pub v : h.v ≡ g.v
  pub kid : h.kid ≡ g.kid
  pub model : h.model ≡ g.model
  pub source_hash : h.source_hash ≡ g.source_hash
  pub vec_hash : h.vec_hash ≡ g.vec_hash
  pub vec_dtype : h.vec_dtype ≡ g.vec_dtype
  pub vec_dim : h.vec_dim ≡ g.vec_dim
  pub ts : h.ts ≡ g.ts
  pub model_hash : h.model_hash ≡ g.model_hash
  pub extra : sorted_items h.extra ≡ sorted_items g.extra

pub rows_of-eq :
    (e f : Extra) (a b : Option Text) (h g : PinHeader)
    → rows_of e a h ≡ rows_of f b g
    → (e ≡ f)
      × (a ≡ b)
      × (h.kid ≡ g.kid)
      × (h.model ≡ g.model)
      × (h.source_hash ≡ g.source_hash)
      × (h.ts ≡ g.ts)
      × (h.v ≡ g.v)
      × (h.vec_dim ≡ g.vec_dim)
      × (h.vec_dtype ≡ g.vec_dtype)
      × (h.vec_hash ≡ g.vec_hash)
unfolding rows_of
rows_of-eq [] [] none none h g q = ground arith
rows_of-eq [] [] none (some b) h g q = ground arith
rows_of-eq [] [] (some a) none h g q = ground arith
rows_of-eq [] [] (some a) (some b) h g q = ground arith
rows_of-eq [] (y ∷ f) a b h g q = ground arith
rows_of-eq (x ∷ e) [] a b h g q = ground arith
rows_of-eq (x ∷ e) (y ∷ f) none none h g q = ground arith
rows_of-eq (x ∷ e) (y ∷ f) none (some b) h g q = ground arith
rows_of-eq (x ∷ e) (y ∷ f) (some a) none h g q = ground arith
rows_of-eq (x ∷ e) (y ∷ f) (some a) (some b) h g q = ground arith
