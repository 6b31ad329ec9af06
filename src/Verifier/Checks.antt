-- ===== src/Verifier/Checks.antt =====
-- The other steps of `Verifier._verify_inner` in src/vectorpin/verifier.py and theirs.
use vector_pin.Prelude.{
  if◌then◌else◌, ◌≡◌, refl, sym, ◌↔◌, inl, inr, Bool, true, false, not, Option, none, some, arith,
  Bool-cases, subst, ◌||◌,
}
use vector_pin.Outcome.{Result, ok, err, is_value_error}
use vector_pin.Text.{Text, Bytes}
use vector_pin.Text.Equality.{text_eq, text_eq_iff, option_eq_iff}
use vector_pin.Platform.{Platform, Datetime}
use vector_pin.Hash.{hash_text}
use vector_pin.Attestation.{PinHeader, Pin}
use vector_pin.Verifier.{
  KeyEntry, canonical_for, datetime_lt, parse_ts, require_aware, check_from, check_until,
  window_instant, check_expected, check_window, check_signature, check_source, is_some,
}
use vector_pin.Verifier.Steps.{
  VerifyError, Step, pass, fail, raised, ◌▹◌, fail_if, attempt, ▹-eq-pass,
}
use vector_pin.Verifier.Accepts.{From, Until, Window, Agrees, InWindow, SourceAgrees, Signed}

pub check_from_iff : (b : Option Datetime) (t : Datetime) → (check_from b t ≡ pass) ↔ From b t
unfolding check_from
check_from_iff none t = (λ _. tt, λ _. refl)
check_from_iff (some bound) t = go (datetime_lt t bound)
  where
    go :
        (r : Result Bool)
        → (attempt r (λ early. fail_if early VerifyError.key_expired) ≡ pass) ↔ (r ≡ ok false)
    go (ok true) = ground arith
    go (ok false) = ground arith
    go (err e) = ground arith

pub check_until_iff : (b : Option Datetime) (t : Datetime) → (check_until b t ≡ pass) ↔ Until b t
unfolding check_until
check_until_iff none t = (λ _. tt, λ _. refl)
check_until_iff (some bound) t = go (datetime_lt t bound)
  where
    go :
        (r : Result Bool)
        → (attempt r (λ before. fail_if (not before) VerifyError.key_expired) ≡ pass)
          ↔ (r ≡ ok true)
    go (ok true) = ground arith
    go (ok false) = ground arith
    go (err e) = ground arith

pub check_expected_iff :
    (x actual : Option Text) (e : VerifyError)
    → (check_expected x actual e ≡ pass) ↔ Agrees x actual
unfolding check_expected
check_expected_iff none actual e = (λ _. tt, λ _. refl)
check_expected_iff (some x) actual e = ground (arith, option_eq_iff actual (some x))

pub require_aware_iff :
    (x : Option Datetime)
    → (attempt (require_aware x) (λ _. pass) ≡ pass)
      ↔ ((t : Datetime) → x ≡ some t → t.is_aware ≡ true)
unfolding require_aware
require_aware_iff none = (λ _ t e. ground arith, λ _. refl)
require_aware_iff (some d) = (λ h t e. ground arith, λ h. ground (arith, h d refl))

bounds_iff :
    {K : Type 0} (e : KeyEntry K) (t : Datetime)
    → ((check_from e.valid_from t ▹ check_until e.valid_until t) ≡ pass)
      ↔ (From e.valid_from t × Until e.valid_until t)
bounds_iff e t = (
  λ h.
      let (f, u) = (▹-eq-pass (check_from e.valid_from t) (check_until e.valid_until t)).0 h in
      ((check_from_iff e.valid_from t).0 f, (check_until_iff e.valid_until t).0 u),
  λ (f, u).
      (▹-eq-pass (check_from e.valid_from t) (check_until e.valid_until t)).1
        ((check_from_iff e.valid_from t).1 f, (check_until_iff e.valid_until t).1 u),
)

abbrev in_bounds : {K : Type 0} → KeyEntry K → Datetime → Step
in_bounds e t = check_from e.valid_from t ▹ check_until e.valid_until t

window_instant_iff :
    {K : Type 0} (e : KeyEntry K) (trusted : Option Datetime) (ts : Datetime)
    → (window_instant trusted ts (in_bounds e) ≡ pass) ↔ Window e trusted ts
unfolding window_instant
window_instant_iff e none ts = bounds_iff e ts
window_instant_iff e (some trusted) ts = go (datetime_lt trusted ts)
  where
    go :
        (r : Result Bool)
        → (attempt r (λ late. fail_if late VerifyError.key_expired ▹ in_bounds e trusted) ≡ pass)
          ↔ ((r ≡ ok false) × From e.valid_from trusted × Until e.valid_until trusted)
    go (ok true) = ground arith
    go (ok false) = (
      λ h. let (f, u) = (bounds_iff e trusted).0 h in (refl, f, u),
      λ (_, f, u). (bounds_iff e trusted).1 (f, u),
    )
    go (err x) = ground arith

module _ {K S A : Type 0} (p : Platform K S A) where
  bounded_iff :
      (e : KeyEntry K) (trusted : Option Datetime) (o : Option Datetime)
      → (elim o [
        | none ↦ fail VerifyError.key_expired
        | some ts ↦ window_instant trusted ts (in_bounds e)
      ]
          ≡ pass)
        ↔ ((t : Datetime) × (o ≡ some t) × Window e trusted t)
  bounded_iff e trusted none = (λ h. ground arith, λ (t, h, _). ground arith)
  bounded_iff e trusted (some ts) = (
    λ h. (ts, refl, (window_instant_iff e trusted ts).0 h),
    λ (t, q, w). (window_instant_iff e trusted ts).1 (subst (Window e trusted) (some_eq (sym q)) w),
  )
    where
      some_eq : {a b : Datetime} → some a ≡ some b → a ≡ b
      some_eq q = ground arith

  all_free :
      (f u t : Option Datetime)
      → (is_some f || is_some u || is_some t) ≡ false
      → (f ≡ none) × (u ≡ none) × (t ≡ none)
  all_free none none none h = (refl, refl, refl)
  all_free none none (some t) h = cc
  all_free none (some u) t h = cc
  all_free (some f) u t h = cc

  none_free :
      (f u t : Option Datetime)
      → (is_some f || is_some u || is_some t) ≡ true
      → ¬ ((f ≡ none) × (u ≡ none) × (t ≡ none))
  none_free none none none h q = cc
  none_free none none (some t) h (a, b, c) = cc
  none_free none (some u) t h (a, b, c) = cc
  none_free (some f) u t h (a, b, c) = cc

  pub check_window_iff :
      (e : KeyEntry K) (ts : Text) (trusted : Option Datetime)
      → (check_window p e ts trusted ≡ pass) ↔ InWindow p e ts trusted
  unfolding check_window
  check_window_iff e ts trusted =
      elim (Bool-cases (is_some e.valid_from || is_some e.valid_until || is_some trusted)) [
        | inl bound ↦ (
          λ h. inr ((bounded_iff e trusted (parse_ts p ts)).0 (rw bound at h)),
          λ w. rw bound (
              (bounded_iff e trusted (parse_ts p ts)).1
                (in_range w (none_free e.valid_from e.valid_until trusted bound))),
        )
        | inr free ↦ (λ h. inl (all_free e.valid_from e.valid_until trusted free), λ w. rw free)
      ]
    where
      in_range :
          InWindow p e ts trusted
          → ¬ ((e.valid_from ≡ none) × (e.valid_until ≡ none) × (trusted ≡ none))
          → (t : Datetime) × (parse_ts p ts ≡ some t) × Window e trusted t
      in_range (inl free) bound = absurd (bound free)
      in_range (inr w) bound = w

  pub check_signature_iff :
      (e : KeyEntry K) (pin : Pin) → (check_signature p e pin ≡ pass) ↔ Signed p e pin
  unfolding check_signature
  check_signature_iff e pin = go (canonical_for p pin)
    where
      go :
          (r : Result Bytes)
          → (attempt r (λ m.
                fail_if (not (p.verifies e.public_key pin.sig m)) VerifyError.signature_invalid)
              ≡ pass)
            ↔ ((m : Bytes) × (r ≡ ok m) × (p.verifies e.public_key pin.sig m ≡ true))
      go (ok m) = (λ h. (m, refl, ground arith), λ (n, q, v). ground arith)
      go (err x) = (λ h. ground arith, λ (n, q, v). ground arith)

  pub check_source_iff :
      (h : PinHeader) (s : Option Text) → (check_source p h s ≡ pass) ↔ SourceAgrees p h s
  unfolding check_source
  check_source_iff h none = (λ _. tt, λ _. refl)
  check_source_iff h (some s) = go (hash_text p s)
    where
      go :
          (r : Result Text)
          → (elim r [
            | ok hash ↦ fail_if (not (text_eq hash h.source_hash)) VerifyError.source_mismatch
            | err e ↦ if is_value_error e then fail VerifyError.parse_error else raised e
          ]
              ≡ pass)
            ↔ (r ≡ ok h.source_hash)
      go (ok hash) = ground (arith, text_eq_iff hash h.source_hash)
      go (err x) = ground arith
