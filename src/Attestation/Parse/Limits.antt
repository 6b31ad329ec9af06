-- ===== src/Attestation/Parse/Limits.antt =====
-- The fields of a pin dict, one by one: what a parsed value satisfies.
use vector_pin.Prelude.{
  ℕ, ◌*◌, ◌≤◌, ◌<◌, ◌≡◌, ◌⊎◌, refl, sym, ap, ◌∙◌, subst, inl, inr, ℤ, pos, eqb_ℤ, Bool, true, false,
  not, ◌&&◌, ◌||◌, List, [], ◌∷◌, Option, none, some, ltb, leb, ◌==◌, ==_iff, if◌then◌else◌, length,
  arith, not-false, Bool-cases, is_empty,
}
use vector_pin.Outcome.{ok, err, Exc, raise_if, >>=-eq-ok, raise_if-eq-ok, ok-injective}
use vector_pin.Text.{Text, Bytes, encode_pass}
use vector_pin.Text.Equality.{text_eq, text_eq_iff}
use vector_pin.Json.{Json, null, int, str}
use vector_pin.Platform.{Platform}
use vector_pin.Hash.{f32, f64}
use vector_pin.Attestation.{protocol_version, max_vec_dim, sig_len}
use vector_pin.Attestation.Base64.{b64, b64dec}
use vector_pin.Attestation.Base64.RoundTrip.{b64dec-eq-ok}
use vector_pin.Attestation.Checks.{check_byte_cap, check_string_safe, check_nfc}
use vector_pin.Attestation.Pattern.{hash_re, ts_re, check_ts_calendar}
use vector_pin.Attestation.Parse.Formats.{
  Dated, SafeText, check_ts_calendar-Dated, check_nfc-eq-ok, check_string_safe-Safe,
}
use vector_pin.Attestation.Parse.{
  elem_ℤ, parse_version, parse_dim, parse_dtype, parse_hash, parse_model_hash, parse_sig,
  check_text, parse_name, parse_ts,
}

-- A text is not empty, and its UTF-8 form has at most so many bytes.
abbrev pub Fits : ℕ → Text → Type 0
Fits limit s = (is_empty s ≡ false) × (length (encode_pass s) ≤ limit)

pub parse_version-eq-ok :
    (allowed : List ℤ) (j : Json) (v : ℤ) → parse_version allowed j ≡ ok v → elem_ℤ v allowed ≡ true
unfolding parse_version
parse_version-eq-ok allowed j v h = ground arith

-- A value that a test lets through.
pub if_ok-eq-ok :
    {B : Type 0} (t : Bool) (b : B) (e : Exc) {c : B}
    → (if t then ok b else err e) ≡ ok c
    → (t ≡ true) × (b ≡ c)
if_ok-eq-ok true b e h = (refl, ok-injective h)
if_ok-eq-ok false b e h = cc

pub parse_dim-eq-ok :
    (j : Json) (d : ℤ) → parse_dim j ≡ ok d → (n : ℕ) × (d ≡ pos n) × (0 < n) × (n ≤ max_vec_dim)
unfolding parse_dim
parse_dim-eq-ok (int (pos n)) d h =
    let (e, q) = if_ok-eq-ok (ltb 0 n && leb n max_vec_dim) (pos n) Exc.value_error h in
    (n, sym q, ground arith, ground arith)
parse_dim-eq-ok _ d h = cc

pub parse_dtype-eq-ok : (j : Json) (d : Text) → parse_dtype j ≡ ok d → (d ≡ f32) ⊎ (d ≡ f64)
unfolding parse_dtype
parse_dtype-eq-ok (str s) d h =
    let (e, q) = if_ok-eq-ok (text_eq s f32 || text_eq s f64) s Exc.value_error h in
    go (Bool-cases (text_eq s f32)) e q
  where
    go :
        (text_eq s f32 ≡ true) ⊎ (text_eq s f32 ≡ false)
        → (text_eq s f32 || text_eq s f64) ≡ true
        → s ≡ d
        → (d ≡ f32) ⊎ (d ≡ f64)
    go (inl a) e q = inl (sym q ∙ (text_eq_iff s f32).0 a)
    go (inr a) e q = inr (sym q ∙ (text_eq_iff s f64).0 (rw a at e))
parse_dtype-eq-ok _ d h = cc

pub parse_hash-eq-ok : (j : Json) (s : Text) → parse_hash j ≡ ok s → hash_re s ≡ true
unfolding parse_hash
parse_hash-eq-ok (str t) s h =
    let (e, q) = if_ok-eq-ok (hash_re t) t Exc.value_error h in ap hash_re (sym q) ∙ e
parse_hash-eq-ok _ s h = cc

pub parse_model_hash-eq-ok :
    (j : Json) (o : Option Text)
    → parse_model_hash j ≡ ok o
    → (s : Text) → o ≡ some s
    → hash_re s ≡ true
unfolding parse_model_hash
parse_model_hash-eq-ok null o h s e = cc
parse_model_hash-eq-ok (str t) o h s e =
    let (m, q) = if_ok-eq-ok (hash_re t) (some t) Exc.value_error h in
    ap hash_re (sym (some-injective (q ∙ e))) ∙ m
  where
    some-injective : {a b : Text} → some a ≡ some b → a ≡ b
    some-injective {a} z = ap (λ (o : Option Text). elim o [ some x ↦ x | none ↦ a ]) z
parse_model_hash-eq-ok _ o h s e = cc

pub parse_sig-eq-ok :
    (j : Json) (b : Bytes) → parse_sig j ≡ ok b → (length b ≡ sig_len) × (j ≡ str (b64 b))
unfolding parse_sig
parse_sig-eq-ok (str s) b h =
    let (_, _, h) = >>=-eq-ok (raise_if (ltb (4 * sig_len) (length s)) Exc.value_error) _ h in
    let (sig, e, h) = >>=-eq-ok (b64dec s) _ h in
    let (_, q, h) = >>=-eq-ok (raise_if (not (length sig == sig_len)) Exc.value_error) _ h in
    let same : sig ≡ b = ok-injective h in
    (
      ap length (sym same)
          ∙ (==_iff (length sig) sig_len).0 (not-false _ (raise_if-eq-ok _ Exc.value_error q)),
      ap str (sym (b64dec-eq-ok s b (e ∙ ap ok same))),
    )
parse_sig-eq-ok _ b h = cc

pub check_byte_cap-eq-ok :
    (s : Text) (limit : ℕ) → check_byte_cap s limit ≡ ok tt → length (encode_pass s) ≤ limit
unfolding check_byte_cap
check_byte_cap-eq-ok s limit h = ground arith

module _ {K S A : Type 0} (p : Platform K S A) where
  pub parse_name-eq-ok :
      (v : ℤ) (limit : ℕ) (j : Json) (s : Text)
      → parse_name p v limit j ≡ ok s
      → Fits limit s × (check_text p v s ≡ ok tt)
  unfolding parse_name
  parse_name-eq-ok v limit (str []) s h = cc
  parse_name-eq-ok v limit (str (c ∷ t)) s h =
      let (_, e, h) = >>=-eq-ok (check_byte_cap (c ∷ t) limit) _ h in
      let (_, q, h) = >>=-eq-ok (check_text p v (c ∷ t)) _ h in
      subst (λ z. Fits limit z × (check_text p v z ≡ ok tt)) (ok-injective h)
        ((refl, check_byte_cap-eq-ok (c ∷ t) limit e), q)
  parse_name-eq-ok v limit _ s h = cc

  branch_then :
      {B : Type 0} (t : Bool) {a c : B} (b : B) → t ≡ true → (if t then a else b) ≡ c → a ≡ c
  branch_then true b e h = h
  branch_then false b e h = cc

  -- Protocol 2 keeps a timestamp in its one form, with a date and time of the calendar.
  pub parse_ts-eq-ok :
      (allowed : List ℤ) (j : Json) (s : Text)
      → elem_ℤ protocol_version allowed ≡ true
      → parse_ts p allowed protocol_version j ≡ ok s
      → Dated s × SafeText p protocol_version s
  unfolding parse_ts
  parse_ts-eq-ok allowed (str []) s m h = cc
  parse_ts-eq-ok allowed (str (c ∷ t)) s m h =
      let h' =
        branch_then (elem_ℤ protocol_version allowed && eqb_ℤ protocol_version protocol_version) _
          (rw m) h in
      let (_, _, r) = >>=-eq-ok (raise_if (not (ts_re (c ∷ t))) Exc.value_error) _ h' in
      let (_, dated, r) = >>=-eq-ok (check_ts_calendar (c ∷ t)) _ r in
      let (_, safe, r) = >>=-eq-ok (check_string_safe (c ∷ t)) _ r in
      let (_, nfc, r) = >>=-eq-ok (check_nfc p (c ∷ t)) _ r in
      subst (λ z. Dated z × SafeText p protocol_version z) (ok-injective r)
        (
          check_ts_calendar-Dated (c ∷ t) dated,
          inl (refl, check_nfc-eq-ok p (c ∷ t) nfc, check_string_safe-Safe (c ∷ t) safe),
        )
  parse_ts-eq-ok allowed _ s m h = cc
