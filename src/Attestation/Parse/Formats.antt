-- ===== src/Attestation/Parse/Formats.antt =====
-- The formats of the wire: what the string checks and the patterns of `Pin.from_dict` say of a text.
use vector_pin.Prelude.{
  ℕ, zero, suc, ◌+◌, ◌≤◌, ◌≡◌, ◌≢◌, ◌⊎◌, refl, ap, ◌∙◌, inl, inr, ℤ, pos, negsuc, eqb_ℤ, Bool, true,
  false, not, ◌&&◌, [], ◌∷◌, ◌++◌, Option, none, some, ◌==◌, ==_iff, Bool-cases, All, length, ltb,
  leb, arith, not-false,
}
use vector_pin.Outcome.{Checked, ok, err, Exc, raise_if, >>=-eq-ok, raise_if-eq-ok}
use vector_pin.Text.{Text, codes, between, is_surrogate}
use vector_pin.Text.Equality.{text_eq_iff}
use vector_pin.Json.{Fields, end, field}
use vector_pin.Platform.{Platform}
use vector_pin.Attestation.{protocol_version, max_pin_json_bytes}
use vector_pin.Attestation.Checks.{
  is_control, is_bidi, check_string_safe, check_surrogates, check_nfc,
}
use vector_pin.Attestation.Pattern.{
  ◌>>=◌, literal, repeated, at_end, holds_at_end, is_lower_hex, hash_re, Stamp, read_stamp, ends,
  days_in_month, is_calendar, check_ts_calendar,
}
use vector_pin.Attestation.Parse.{check_dict_size, value_size, check_text}
use vector_pin.Attestation.Parse.Sizes.{dict_size, >>=-eq-some}

-- Not a control character, a bidirectional override or a surrogate.
abbrev pub Safe : ℕ → Type 0
Safe c = (is_control c ≡ false) × (is_bidi c ≡ false) × (is_surrogate c ≡ false)

refused : ◌≡◌ {A = Checked} (err Exc.value_error) (ok tt) → ⊥
refused e = cc

pub check_string_safe-Safe : (s : Text) → check_string_safe s ≡ ok tt → All Safe s
unfolding check_string_safe
check_string_safe-Safe [] h = tt
check_string_safe-Safe (c ∷ s) h =
    go (Bool-cases (is_control c)) (Bool-cases (is_bidi c)) (Bool-cases (is_surrogate c))
      (check_string_safe-Safe s)
  where
    go :
        (is_control c ≡ true) ⊎ (is_control c ≡ false)
        → (is_bidi c ≡ true) ⊎ (is_bidi c ≡ false)
        → (is_surrogate c ≡ true) ⊎ (is_surrogate c ≡ false)
        → (check_string_safe s ≡ ok tt → All Safe s)
        → Safe c × All Safe s
    go (inl a) _ _ ih = absurd (refused (rw a at h))
    go (inr a) (inl b) _ ih = absurd (refused (rw (a, b) at h))
    go (inr a) (inr b) (inl d) ih = absurd (refused (rw (a, b, d) at h))
    go (inr a) (inr b) (inr d) ih = ((a, b, d), ih (rw (a, b, d) at h))

check_surrogates-All : (s : Text) → check_surrogates s ≡ ok tt → All (λ c. is_surrogate c ≡ false) s
unfolding check_surrogates
check_surrogates-All [] h = tt
check_surrogates-All (c ∷ s) h = go (Bool-cases (is_surrogate c)) (check_surrogates-All s)
  where
    go :
        (is_surrogate c ≡ true) ⊎ (is_surrogate c ≡ false)
        → (check_surrogates s ≡ ok tt → All (λ c. is_surrogate c ≡ false) s)
        → (is_surrogate c ≡ false) × All (λ c. is_surrogate c ≡ false) s
    go (inl a) ih = absurd (refused (rw a at h))
    go (inr a) ih = (a, ih (rw a at h))

pub version_cases :
    (v : ℤ)
    → ((v ≡ protocol_version) × (eqb_ℤ v protocol_version ≡ true))
      ⊎ ((v ≢ protocol_version) × (eqb_ℤ v protocol_version ≡ false))
version_cases (pos n) = elim (Bool-cases (n == 2)) [
  | inl e ↦ inl (ap pos ((==_iff n 2).0 e), ground arith)
  | inr e ↦ inr (λ q. absurd (ground arith), ground arith)
]
version_cases (negsuc n) = inr (λ q. cc, refl)

-- Protocol 2 keeps a text in NFC and without unsafe characters; another version without surrogates.
abbrev pub SafeText : {K S A : Type 0} → Platform K S A → ℤ → Text → Type 0
SafeText p v s =
    ((v ≡ protocol_version) × (p.nfc s ≡ s) × All Safe s)
    ⊎ ((v ≢ protocol_version) × All (λ c. is_surrogate c ≡ false) s)

module _ {K S A : Type 0} (p : Platform K S A) where
  pub check_nfc-eq-ok : (s : Text) → check_nfc p s ≡ ok tt → p.nfc s ≡ s
  unfolding check_nfc
  check_nfc-eq-ok s h =
      (text_eq_iff (p.nfc s) s).0 (not-false _ (raise_if-eq-ok _ Exc.value_error h))

  pub check_text-SafeText : (v : ℤ) (s : Text) → check_text p v s ≡ ok tt → SafeText p v s
  unfolding check_text
  check_text-SafeText v s h = elim (version_cases v) [
    | inl (same, e) ↦
        let (_, safe, h) = >>=-eq-ok (check_string_safe s) (λ _. check_nfc p s) (rw e at h) in
        inl (same, check_nfc-eq-ok s h, check_string_safe-Safe s safe)
    | inr (other, e) ↦ inr (other, check_surrogates-All s (rw e at h))
  ]

-- `sha256:` and 64 lowercase hex digits, and at most a newline behind them.
abbrev pub HashText : Text → Type 0
HashText s =
    (digits : Text) × (tail : Text) × (s ≡ codes "sha256:" ++ digits ++ tail)
    × (length digits ≡ 64)
    × All (λ c. is_lower_hex c ≡ true) digits
    × ((tail ≡ []) ⊎ (tail ≡ 10 ∷ []))

literal-eq-some : (l s r : Text) → literal l s ≡ some r → s ≡ l ++ r
unfolding literal
literal-eq-some [] s r h = ground arith
literal-eq-some (c ∷ l) [] r h = cc
literal-eq-some (c ∷ l) (d ∷ s) r h = ground (arith, literal-eq-some l s r)

repeated-eq-some :
    (q : ℕ → Bool) (n : ℕ) (s r : Text)
    → repeated q n s ≡ some r
    → (d : Text) × (s ≡ d ++ r) × (length d ≡ n) × All (λ c. q c ≡ true) d
unfolding repeated
repeated-eq-some q zero s r h = ([], ground arith, refl, tt)
repeated-eq-some q (suc n) [] r h = cc
repeated-eq-some q (suc n) (c ∷ s) r h = go (Bool-cases (q c)) (repeated-eq-some q n s r)
  where
    go :
        (q c ≡ true) ⊎ (q c ≡ false)
        → (repeated q n s ≡ some r
            → (d : Text) × (s ≡ d ++ r) × (length d ≡ n) × All (λ c. q c ≡ true) d)
        → (d : Text) × (c ∷ s ≡ d ++ r) × (length d ≡ suc n) × All (λ c. q c ≡ true) d
    go (inl e) ih =
        let (d, f, m, a) = ih (rw e at h) in (c ∷ d, ap (λ z. c ∷ z) f, omega (arith, m), (e, a))
    go (inr e) ih = absurd (never (rw e at h))
      where
        never : ◌≡◌ {A = Option Text} none (some r) → ⊥
        never z = cc

at_end-eq-true : (s : Text) → at_end s ≡ true → (s ≡ []) ⊎ (s ≡ 10 ∷ [])
at_end-eq-true [] h = inl refl
at_end-eq-true (c ∷ []) h = let e : c ≡ 10 = ground arith in inr (λ i. e i ∷ [])
at_end-eq-true (c ∷ d ∷ s) h = cc

pub hash_re-HashText : (s : Text) → hash_re s ≡ true → HashText s
unfolding hash_re
hash_re-HashText s h =
    let (u, e, m) = matched (literal (codes "sha256:") s >>= λ r. repeated is_lower_hex 64 r) h in
    let (r, f, g) = >>=-eq-some (literal (codes "sha256:") s) _ e in
    let (d, k, n, a) = repeated-eq-some is_lower_hex 64 r u g in
    (d, u, literal-eq-some (codes "sha256:") s r f ∙ ap (λ z. codes "sha256:" ++ z) k, n, a, m)
  where
    matched :
        (o : Option Text)
        → holds_at_end o ≡ true
        → (r : Text) × (o ≡ some r) × ((r ≡ []) ⊎ (r ≡ 10 ∷ []))
    matched none h = cc
    matched (some r) h = (r, refl, at_end-eq-true r h)

-- A date and time of the calendar, every field in its range, with nothing behind the `Z`.
abbrev pub Dated : Text → Type 0
Dated s =
    (t : Stamp) × (read_stamp s ≡ some t)
    × (1 ≤ t.year)
    × ((1 ≤ t.month) × (t.month ≤ 12))
    × ((1 ≤ t.day) × (t.day ≤ days_in_month t.year t.month))
    × ((t.hour ≤ 23) × (t.minute ≤ 59) × (t.second ≤ 59))
    × (t.rest ≡ [])

seven_true :
    (a b c d e f g : Bool)
    → (a && b && c && d && e && f && g) ≡ true
    → (a ≡ true) × (b ≡ true) × (c ≡ true) × (d ≡ true) × (e ≡ true) × (f ≡ true) × (g ≡ true)
seven_true a b c d e f g h = ground arith

in_range : (low high n : ℕ) → between low high n ≡ true → (low ≤ n) × (n ≤ high)
in_range low high n h = (ground arith, ground arith)

pub check_ts_calendar-Dated : (s : Text) → check_ts_calendar s ≡ ok tt → Dated s
unfolding check_ts_calendar is_calendar
check_ts_calendar-Dated s h = go (read_stamp s) refl h
  where
    nothing : (r : Text) → ends r ≡ true → r ≡ []
    nothing [] e = refl
    nothing (c ∷ r) e = cc

    go :
        (o : Option Stamp)
        → read_stamp s ≡ o
        → raise_if (elim o [ none ↦ true | some t ↦ not (is_calendar t) ]) Exc.value_error ≡ ok tt
        → Dated s
    go none e h = cc
    go (some t) e h =
        let q = not-false (is_calendar t) (raise_if-eq-ok _ Exc.value_error h) in
        let (year, month, day, hour, minute, second, over) =
          seven_true (leb 1 t.year) (between 1 12 t.month)
            (between 1 (days_in_month t.year t.month) t.day) (leb t.hour 23) (leb t.minute 59)
            (leb t.second 59) (ends t.rest) q in
        (
          t,
          e,
          ground (arith, year),
          in_range 1 12 t.month month,
          in_range 1 (days_in_month t.year t.month) t.day day,
          (ground (arith, hour), ground (arith, minute), ground (arith, second)),
          nothing t.rest over,
        )

pub check_dict_size-eq-ok :
    (total : ℕ) (fs : Fields)
    → total ≤ max_pin_json_bytes
    → check_dict_size total fs ≡ ok tt
    → total + dict_size fs ≤ max_pin_json_bytes
unfolding check_dict_size dict_size
check_dict_size-eq-ok total end b h = omega (arith, b)
check_dict_size-eq-ok total (field k v fs) b h =
    go (Bool-cases (ltb max_pin_json_bytes (total + length k + value_size v)))
      (check_dict_size-eq-ok (total + length k + value_size v) fs)
  where
    go :
        (ltb max_pin_json_bytes (total + length k + value_size v) ≡ true)
          ⊎ (ltb max_pin_json_bytes (total + length k + value_size v) ≡ false)
        → (total + length k + value_size v ≤ max_pin_json_bytes
            → check_dict_size (total + length k + value_size v) fs ≡ ok tt
            → total + length k + value_size v + dict_size fs ≤ max_pin_json_bytes)
        → total + (length k + value_size v + dict_size fs) ≤ max_pin_json_bytes
    go (inl e) ih = absurd (refused (rw e at h))
    go (inr e) ih = omega (arith, ih (ground (arith, e)) (rw e at h))
