-- ===== src/Attestation/Parse/Extras.antt =====
-- The field `extra` of a pin dict: what its parsed entries satisfy.
use vector_pin.Prelude.{
  ℕ, ◌+◌, ◌≤◌, ◌≡◌, ◌⊎◌, sym, ap, subst, inl, inr, ℤ, Bool, true, false, [], ◌∷◌, ltb,
  if◌then◌else◌, length, arith, All, Bool-cases,
}
use vector_pin.Outcome.{Result, ok, err, Exc, raise_if, >>=-eq-ok, raise_if-eq-ok, ok-injective}
use vector_pin.Text.{Text, Bytes, codes, encode_pass, encode_utf8}
use vector_pin.Text.Equality.{text_eq, text_eq_iff}
use vector_pin.Text.Utf8.{encode_utf8-eq-ok}
use vector_pin.Dict.{put}
use vector_pin.Dict.Distinct.{Distinct, put-Distinct}
use vector_pin.Json.{Fields, null, bool, int, float, str, arr, obj, end, field}
use vector_pin.Platform.{Platform}
use vector_pin.Attestation.{Extra, max_extra_entries, max_extra_key_bytes, max_extra_value_bytes}
use vector_pin.Attestation.Parse.{
  check_text, check_entry, parse_entries, parse_extra, fields_length,
}

-- An entry of `extra` within its limits.
abbrev pub EntryFits : Text × Text → Type 0
EntryFits (k, val) =
    (length (encode_pass k) ≤ max_extra_key_bytes)
    × (length (encode_pass val) ≤ max_extra_value_bytes)

-- The entries of a parsed `extra`, within their limits, and their number.
abbrev pub ExtraFits : Extra → Type 0
ExtraFits extra = All EntryFits extra × (length extra ≤ max_extra_entries)

skipped :
    {B : Type 0} (t : Bool) (r : Result B) {b : B}
    → (if t then err Exc.value_error else r) ≡ ok b
    → r ≡ ok b
skipped true r h = cc
skipped false r h = h

pub All-put :
    (P : Text × Text → Type 0) (k val : Text) (d : Extra)
    → ((j w : Text) → P (j, w) → text_eq j k ≡ true → P (j, val))
    → P (k, val)
    → All P d
    → All P (put k val d) × (length (put k val d) ≤ length d + 1)
unfolding put
All-put P k val [] swap h a = ((h, tt), omega arith)
All-put P k val ((j, w) ∷ d) swap h a = go (Bool-cases (text_eq j k)) (All-put P k val d swap h a.1)
  where
    go :
        (text_eq j k ≡ true) ⊎ (text_eq j k ≡ false)
        → All P (put k val d) × (length (put k val d) ≤ length d + 1)
        → All P (put k val ((j, w) ∷ d))
          × (length (put k val ((j, w) ∷ d)) ≤ length ((j, w) ∷ d) + 1)
    go (inl e) ih = rw e ((swap j w a.0 e, a.1), omega arith)
    go (inr e) ih = rw e ((a.0, ih.0), omega (arith, ih.1))

module _ {K S A : Type 0} (p : Platform K S A) where
  -- The two texts of an entry pass the string checks.
  pub check_entry-checks :
      (v : ℤ) (k val : Text)
      → check_entry p v k val ≡ ok tt
      → (check_text p v k ≡ ok tt) × (check_text p v val ≡ ok tt)
  unfolding check_entry
  check_entry-checks v k val h =
      let (kb, _, h) = >>=-eq-ok (encode_utf8 k) _ h in
      let (_, _, h) =
        >>=-eq-ok (raise_if (ltb max_extra_key_bytes (length kb)) Exc.value_error) _ h in
      let (vb, _, h) = >>=-eq-ok (encode_utf8 val) _ h in
      let (_, _, h) =
        >>=-eq-ok (raise_if (ltb max_extra_value_bytes (length vb)) Exc.value_error) _ h in
      let (_, a, h) = >>=-eq-ok (check_text p v k) (λ _. check_text p v val) h in (a, h)

  check_entry-eq-ok : (v : ℤ) (k val : Text) → check_entry p v k val ≡ ok tt → EntryFits (k, val)
  unfolding check_entry
  check_entry-eq-ok v k val h =
      let (kb, e, h) = >>=-eq-ok (encode_utf8 k) _ h in
      let (_, a, h) =
        >>=-eq-ok (raise_if (ltb max_extra_key_bytes (length kb)) Exc.value_error) _ h in
      let (vb, f, h) = >>=-eq-ok (encode_utf8 val) _ h in
      let (_, b, h) =
        >>=-eq-ok (raise_if (ltb max_extra_value_bytes (length vb)) Exc.value_error) _ h in
      (
        within (encode_pass k) kb max_extra_key_bytes (encode_utf8-eq-ok k kb e).1 a,
        within (encode_pass val) vb max_extra_value_bytes (encode_utf8-eq-ok val vb f).1 b,
      )
    where
      within :
          (s b : Bytes) (limit : ℕ)
          → s ≡ b
          → raise_if (ltb limit (length b)) Exc.value_error ≡ ok tt
          → length s ≤ limit
      within s b limit q r = ap_le (ap length q) (ground arith)
        where
          ap_le : {m n : ℕ} → m ≡ n → n ≤ limit → m ≤ limit
          ap_le x y = omega arith

  -- An entry passes its checks.
  abbrev pub EntryPasses : ℤ → Text × Text → Type 0
  EntryPasses v (k, val) = check_entry p v k val ≡ ok tt

  -- What is read: entries that pass, with distinct keys, and not too many.
  abbrev pub Read : ℤ → Extra → Type 0
  Read v extra = All (EntryPasses v) extra × Distinct extra × (length extra ≤ max_extra_entries)

  parse_entries-Read :
      (v : ℤ) (acc : Extra) (fs : Fields) (extra : Extra)
      → parse_entries p v acc fs ≡ ok extra
      → All (EntryPasses v) acc
      → Distinct acc
      → All (EntryPasses v) extra × Distinct extra × (length extra ≤ length acc + fields_length fs)
  unfolding parse_entries fields_length
  parse_entries-Read v acc end extra h a d =
      let same : acc ≡ extra = ok-injective h in
      (subst (All (EntryPasses v)) same a, subst Distinct same d, omega (arith, ap length same))
  parse_entries-Read v acc (field k (str val) fs) extra h a d =
      let (_, e, h) = >>=-eq-ok (check_entry p v k val) _ h in
      let (b, n) =
        All-put (EntryPasses v) k val acc
          (λ j w x q. subst (λ i. EntryPasses v (i, val)) (sym ((text_eq_iff j k).0 q)) e) e a in
      let (c, c', m) =
        parse_entries-Read v (put k val acc) fs extra h b (put-Distinct k val acc d) in
      (c, c', omega (arith, m, n))
  parse_entries-Read v acc (field k _ fs) extra h a d = cc

  pub parse_extra-Read :
      (v : ℤ) (d : Fields) (extra : Extra) → parse_extra p v d ≡ ok extra → Read v extra
  unfolding parse_extra
  parse_extra-Read v end extra h = subst (Read v) (ok-injective h) (tt, tt, omega arith)
  parse_extra-Read v (field k (obj fs) rest) extra h =
      go (Bool-cases (text_eq k (codes "extra"))) (parse_extra-Read v rest extra)
    where
      go :
          (text_eq k (codes "extra") ≡ true) ⊎ (text_eq k (codes "extra") ≡ false)
          → (parse_extra p v rest ≡ ok extra → Read v extra)
          → Read v extra
      go (inl e) ih =
          let (_, q, r) =
            >>=-eq-ok (raise_if (ltb max_extra_entries (fields_length fs)) Exc.value_error)
              (λ _. parse_entries p v [] fs) (rw e at h) in
          let few = raise_if-eq-ok _ Exc.value_error q in
          let (a, n, m) = parse_entries-Read v [] fs extra r tt tt in (a, n, ground (arith, m, few))
      go (inr e) ih = ih (rw e at h)
  parse_extra-Read v (field k null rest) extra h =
      parse_extra-Read v rest extra (skipped (text_eq k (codes "extra")) _ h)
  parse_extra-Read v (field k (bool b) rest) extra h =
      parse_extra-Read v rest extra (skipped (text_eq k (codes "extra")) _ h)
  parse_extra-Read v (field k (int b) rest) extra h =
      parse_extra-Read v rest extra (skipped (text_eq k (codes "extra")) _ h)
  parse_extra-Read v (field k (float b) rest) extra h =
      parse_extra-Read v rest extra (skipped (text_eq k (codes "extra")) _ h)
  parse_extra-Read v (field k (str b) rest) extra h =
      parse_extra-Read v rest extra (skipped (text_eq k (codes "extra")) _ h)
  parse_extra-Read v (field k (arr b) rest) extra h =
      parse_extra-Read v rest extra (skipped (text_eq k (codes "extra")) _ h)

  entries_fit : (v : ℤ) (extra : Extra) → All (EntryPasses v) extra → All EntryFits extra
  entries_fit v [] a = tt
  entries_fit v ((k, val) ∷ extra) a = (check_entry-eq-ok v k val a.0, entries_fit v extra a.1)

  pub parse_extra-eq-ok :
      (v : ℤ) (d : Fields) (extra : Extra) → parse_extra p v d ≡ ok extra → ExtraFits extra
  parse_extra-eq-ok v d extra h =
      let (a, _, n) = parse_extra-Read v d extra h in (entries_fit v extra a, n)
