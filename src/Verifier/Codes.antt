-- ===== src/Verifier/Codes.antt =====
-- The error codes with which the steps of `Verifier._verify_inner` in src/vectorpin/verifier.py
-- fail, and what is wrong when they do.
use vector_pin.Prelude.{
  ℕ, ◌≡◌, ◌≢◌, ◌⊎◌, ◌∙◌, refl, inl, inr, Bool, true, false, not, ◌||◌, List, Option, none, some,
  if◌then◌else◌, arith,
}
use vector_pin.Outcome.{Result, ok, err, Exc, is_value_error}
use vector_pin.Text.{Text}
use vector_pin.Text.Equality.{text_eq, text_eq-false, option_eq}
use vector_pin.Platform.{Platform, Datetime}
use vector_pin.Hash.{hash_text}
use vector_pin.Attestation.{PinHeader, Pin}
use vector_pin.Verifier.{
  KeyEntry, check_window, check_signature, check_source, is_some, parse_ts, window_instant,
  datetime_lt, check_from, check_until, canonical_for, check_expected,
}
use vector_pin.Verifier.Steps.{VerifyError, Step, pass, fail, raised, ◌▹◌, fail_if, attempt}

-- Every failure of a step has the property, an exception as the code `parse_error`.
abbrev pub Tells : (VerifyError → Type 0) → Step → Type 0
Tells P pass = Unit
Tells P (fail e) = P e
Tells P (raised x) = P VerifyError.parse_error

module _ (P : VerifyError → Type 0) where
  pub Tells-then : (a b : Step) → Tells P a → (a ≡ pass → Tells P b) → Tells P (a ▹ b)
  Tells-then pass b h k = k refl
  Tells-then (fail e) b h k = h
  Tells-then (raised x) b h k = h

  pub Tells-fail_if : (b : Bool) (e : VerifyError) → (b ≡ true → P e) → Tells P (fail_if b e)
  Tells-fail_if true e h = h refl
  Tells-fail_if false e h = tt

  pub Tells-attempt :
      {B : Type 0} (m : Result B) (k : B → Step)
      → ((v : B) → m ≡ ok v → Tells P (k v))
      → ((x : Exc) → m ≡ err x → P VerifyError.parse_error)
      → Tells P (attempt m k)
  Tells-attempt (ok v) k h f = h v refl
  Tells-attempt (err x) k h f = f x refl

  pub Tells-if :
      (b : Bool) (s t : Step) → Tells P s → (b ≡ false → Tells P t) → Tells P (if b then s else t)
  Tells-if true s t h k = h
  Tells-if false s t h k = k refl

  -- What a step that does not pass tells, read in another way.
  pub Tells-because :
      (C : VerifyError → Type 0) (s : Step)
      → Tells C s
      → ((e : VerifyError) → C e → s ≢ pass → P e)
      → Tells P s
  Tells-because C pass h k = tt
  Tells-because C (fail e) h k = k e h (λ q. cc)
  Tells-because C (raised x) h k = k VerifyError.parse_error h (λ q. cc)

abbrev pub Is : VerifyError → VerifyError → Type 0
Is code e = code ≡ e

pub check_expected-codes :
    (x actual : Option Text) (e : VerifyError) → Tells (Is e) (check_expected x actual e)
unfolding check_expected
check_expected-codes none actual e = tt
check_expected-codes (some x) actual e =
    Tells-fail_if (Is e) (not (option_eq actual (some x))) e (λ h. refl)

module _ {K : Type 0} (entry : KeyEntry K) where
  -- An instant before `valid_from`, at or after `valid_until`, or not comparable with one.
  pub data BoundsFault (t : Datetime) : VerifyError → Type 0 where
    early :
        (b : Datetime)
        → entry.valid_from ≡ some b
        → datetime_lt t b ≡ ok true
        → BoundsFault t VerifyError.key_expired
    over :
        (b : Datetime)
        → entry.valid_until ≡ some b
        → datetime_lt t b ≡ ok false
        → BoundsFault t VerifyError.key_expired
    mixed :
        (b : Datetime) (x : Exc)
        → (entry.valid_from ≡ some b) ⊎ (entry.valid_until ≡ some b)
        → datetime_lt t b ≡ err x
        → BoundsFault t VerifyError.parse_error

  abbrev bounds : Datetime → Step
  bounds t = check_from entry.valid_from t ▹ check_until entry.valid_until t

  check_from-Tells :
      (t : Datetime) (o : Option Datetime)
      → entry.valid_from ≡ o
      → Tells (BoundsFault t) (check_from o t)
  unfolding check_from
  check_from-Tells t none e = tt
  check_from-Tells t (some b) e =
      Tells-attempt (BoundsFault t) (datetime_lt t b)
        (λ early. fail_if early VerifyError.key_expired)
        (λ v q.
          Tells-fail_if (BoundsFault t) v VerifyError.key_expired
            (λ h. early b e (q ∙ (λ i. ok (h i)))))
        (λ x q. mixed b x (inl e) q)

  check_until-Tells :
      (t : Datetime) (o : Option Datetime)
      → entry.valid_until ≡ o
      → Tells (BoundsFault t) (check_until o t)
  unfolding check_until
  check_until-Tells t none e = tt
  check_until-Tells t (some b) e =
      Tells-attempt (BoundsFault t) (datetime_lt t b)
        (λ before. fail_if (not before) VerifyError.key_expired)
        (λ v q.
          Tells-fail_if (BoundsFault t) (not v) VerifyError.key_expired
            (λ h. let n : v ≡ false = ground arith in over b e (q ∙ (λ i. ok (n i)))))
        (λ x q. mixed b x (inr e) q)

  bounds-Tells : (t : Datetime) → Tells (BoundsFault t) (bounds t)
  bounds-Tells t =
      Tells-then (BoundsFault t) _ _ (check_from-Tells t entry.valid_from refl)
        (λ h. check_until-Tells t entry.valid_until refl)

module _ {K S A : Type 0} (p : Platform K S A) where
  -- What is wrong with the window: `ts` is not read, postdates the trusted time, or the instant
  -- that counts is out of bounds, or two times do not compare.
  pub data WindowFault (entry : KeyEntry K) (ts : Text) (trusted : Option Datetime)
      : VerifyError → Type 0 where
    unreadable : parse_ts p ts ≡ none → WindowFault entry ts trusted VerifyError.key_expired
    postdated :
        (t w : Datetime)
        → parse_ts p ts ≡ some t
        → trusted ≡ some w
        → datetime_lt w t ≡ ok true
        → WindowFault entry ts trusted VerifyError.key_expired
    incomparable :
        (t w : Datetime) (x : Exc)
        → parse_ts p ts ≡ some t
        → trusted ≡ some w
        → datetime_lt w t ≡ err x
        → WindowFault entry ts trusted VerifyError.parse_error
    at_ts :
        (t : Datetime) (e : VerifyError)
        → parse_ts p ts ≡ some t
        → trusted ≡ none
        → BoundsFault entry t e
        → WindowFault entry ts trusted e
    at_trusted :
        (w : Datetime) (e : VerifyError)
        → trusted ≡ some w
        → BoundsFault entry w e
        → WindowFault entry ts trusted e

  module _ (entry : KeyEntry K) (ts : Text) (trusted : Option Datetime) where
    abbrev Fault : VerifyError → Type 0
    Fault = WindowFault entry ts trusted

    window_instant-Tells :
        (t : Datetime) (o : Option Datetime)
        → parse_ts p ts ≡ some t
        → trusted ≡ o
        → Tells Fault (window_instant o t (bounds entry))
    unfolding window_instant
    window_instant-Tells t none h e =
        Tells-because Fault (BoundsFault entry t) (bounds entry t) (bounds-Tells entry t)
          (λ c b ne. at_ts t c h e b)
    window_instant-Tells t (some w) h e =
        Tells-attempt Fault (datetime_lt w t)
          (λ late. fail_if late VerifyError.key_expired ▹ bounds entry w)
          (λ late q.
            Tells-then Fault (fail_if late VerifyError.key_expired) (bounds entry w)
              (Tells-fail_if Fault late VerifyError.key_expired
                (λ l. postdated t w h e (q ∙ (λ i. ok (l i)))))
              (λ _.
                Tells-because Fault (BoundsFault entry w) (bounds entry w) (bounds-Tells entry w)
                  (λ c b ne. at_trusted w c e b)))
          (λ x q. incomparable t w x h e q)

    pub check_window-Tells : Tells Fault (check_window p entry ts trusted)
    unfolding check_window
    check_window-Tells =
        Tells-if Fault (is_some entry.valid_from || is_some entry.valid_until || is_some trusted) _
          pass (read (parse_ts p ts) refl) (λ _. tt)
      where
        read :
            (o : Option Datetime)
            → parse_ts p ts ≡ o
            → Tells Fault (elim o [
              | none ↦ fail VerifyError.key_expired
              | some pin_ts ↦ window_instant trusted pin_ts (bounds entry)
            ])
        read none h = unreadable h
        read (some t) h = window_instant-Tells t trusted h refl

  -- The signature does not verify over the canonical bytes, or there are none.
  pub data SignatureFault (entry : KeyEntry K) (pin : Pin) : VerifyError → Type 0 where
    forged :
        (m : List ℕ)
        → canonical_for p pin ≡ ok m
        → p.verifies entry.public_key pin.sig m ≡ false
        → SignatureFault entry pin VerifyError.signature_invalid
    uncanonical :
        (x : Exc) → canonical_for p pin ≡ err x → SignatureFault entry pin VerifyError.parse_error

  pub check_signature-Tells :
      (entry : KeyEntry K) (pin : Pin)
      → Tells (SignatureFault entry pin) (check_signature p entry pin)
  unfolding check_signature
  check_signature-Tells entry pin =
      Tells-attempt (SignatureFault entry pin) (canonical_for p pin) _
        (λ m q.
          Tells-fail_if (SignatureFault entry pin) (not (p.verifies entry.public_key pin.sig m))
            VerifyError.signature_invalid (λ h. forged m q (ground arith)))
        (λ x q. uncanonical x q)

  -- The given source has another hash than the pinned one, or none.
  pub data SourceFault (h : PinHeader) (source : Option Text) : VerifyError → Type 0 where
    other_source :
        (s hash : Text)
        → source ≡ some s
        → hash_text p s ≡ ok hash
        → hash ≢ h.source_hash
        → SourceFault h source VerifyError.source_mismatch
    unhashed_source :
        (s : Text) (x : Exc)
        → source ≡ some s
        → hash_text p s ≡ err x
        → SourceFault h source VerifyError.parse_error

  pub check_source-Tells :
      (h : PinHeader) (source : Option Text)
      → Tells (SourceFault h source) (check_source p h source)
  unfolding check_source
  check_source-Tells h none = tt
  check_source-Tells h (some s) = by_hash (hash_text p s) refl
    where
      by_hash :
          (r : Result Text)
          → hash_text p s ≡ r
          → Tells (SourceFault h (some s)) (elim r [
            | ok hash ↦ fail_if (not (text_eq hash h.source_hash)) VerifyError.source_mismatch
            | err e ↦ if is_value_error e then fail VerifyError.parse_error else raised e
          ])
      by_hash (ok hash) q =
          Tells-fail_if (SourceFault h (some s)) (not (text_eq hash h.source_hash))
            VerifyError.source_mismatch
            (λ n. other_source s hash refl q (text_eq-false hash h.source_hash (ground arith)))
      by_hash (err e) q =
          Tells-if (SourceFault h (some s)) (is_value_error e) _ (raised e)
            (unhashed_source s e refl q) (λ _. unhashed_source s e refl q)
