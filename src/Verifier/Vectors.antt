-- ===== src/Verifier/Vectors.antt =====
-- Step 6 of `Verifier._verify_inner` in src/vectorpin/verifier.py and its part of the description.
use vector_pin.Prelude.{
  not-false, ℕ, ℤ, pos, negsuc, ◌≡◌, refl, ◌↔◌, Bool, true, false, not, ◌&&◌, List, [], ◌∷◌, Option,
  none, some, arith, Bool-cases, if◌then◌else◌, inl, inr,
}
use vector_pin.Outcome.{Result, ok, err}
use vector_pin.Text.{Text}
use vector_pin.Text.Equality.{text_eq, text_eq_iff, text_eq_refl}
use vector_pin.Platform.{Platform}
use vector_pin.Hash.{is_wider_than, hash_vector, native_dtype, is_1d}
use vector_pin.Attestation.{PinHeader}
use vector_pin.Verifier.{Supplied, ndarray, not_array, check_array, check_vector, has_dim}
use vector_pin.Verifier.Steps.{
  VerifyError, Step, pass, fail, ◌▹◌, fail_if, attempt, ▹-eq-pass, three-eq-pass, fail_if-eq-pass,
}
use vector_pin.Verifier.Accepts.{ArrayAgrees, VectorAgrees}

module _ {K S A : Type 0} (p : Platform K S A) where
  pub shape_test :
      (s : List ℕ) (d : ℤ)
      → (is_1d s && has_dim p s d) ≡ true
      → (n : ℕ) × (s ≡ n ∷ []) × (pos n ≡ d)
  shape_test [] d h = cc
  shape_test (n ∷ []) (pos m) h = (n, refl, ground arith)
  shape_test (n ∷ []) (negsuc m) h = cc
  shape_test (n ∷ m ∷ s) d h = cc

  pub shape_known :
      (s : List ℕ) (d : ℤ) (n : ℕ) → s ≡ n ∷ [] → pos n ≡ d → (is_1d s && has_dim p s d) ≡ true
  shape_known s d n e q = rw (e, ← q) (ground arith)

  module _ (h : PinHeader) (a : A) where
    hash_test :
        (r : Result Text)
        → (attempt r (λ hash.
              if text_eq hash h.vec_hash
              then pass
              else attempt (native_dtype p a) (λ _. fail VerifyError.vector_tampered))
            ≡ pass)
        → r ≡ ok h.vec_hash
    hash_test (ok hash) q = elim (Bool-cases (text_eq hash h.vec_hash)) [
      | inl same ↦ ground (arith, text_eq_iff hash h.vec_hash)
      | inr other ↦ absurd (tampered (native_dtype p a) (rw other at q))
    ]
      where
        tampered : (r : Result Text) → attempt r (λ _. fail VerifyError.vector_tampered) ≡ pass → ⊥
        tampered (ok x) e = ground arith
        tampered (err x) e = ground arith
    hash_test (err x) q = ground arith

    pub wide_test :
        (r : Result Bool)
        → attempt r (λ wide. fail_if wide VerifyError.shape_mismatch) ≡ pass
        → r ≡ ok false
    wide_test (ok true) q = ground arith
    wide_test (ok false) q = refl
    wide_test (err x) q = ground arith

    abbrev width_step : Step
    width_step =
        attempt (is_wider_than p a h.vec_dtype) (λ wide. fail_if wide VerifyError.shape_mismatch)

    abbrev finite_step : Step
    finite_step = fail_if (not (p.all_finite a)) VerifyError.parse_error

    abbrev hash_step : Step
    hash_step = attempt (hash_vector p a h.vec_dtype) (λ hash.
        if text_eq hash h.vec_hash
        then pass
        else attempt (native_dtype p a) (λ _. fail VerifyError.vector_tampered))

    pub check_array_iff : (check_array p h a ≡ pass) ↔ ArrayAgrees p h a
    unfolding check_array
    check_array_iff = (
      λ q.
          let (shape, rest) =
            (▹-eq-pass
                (fail_if (not (is_1d (p.shape a) && has_dim p (p.shape a) h.vec_dim))
                  VerifyError.shape_mismatch)
                (width_step ▹ finite_step ▹ hash_step)).0
              q in
          let (width, finite, hash) = three-eq-pass width_step finite_step hash_step rest in
          (
            shape_test (p.shape a) h.vec_dim (not-false _ (fail_if-eq-pass _ _ shape)),
            wide_test (is_wider_than p a h.vec_dtype) width,
            not-false (p.all_finite a) (fail_if-eq-pass _ _ finite),
            hash_test (hash_vector p a h.vec_dtype) hash,
          ),
      λ (s, w, f, e).
          rw (shape_known (p.shape a) h.vec_dim s.0 s.1 s.2, w, f, e, text_eq_refl h.vec_hash),
    )

  pub check_vector_iff :
      (h : PinHeader) (v : Option (Supplied A)) → (check_vector p h v ≡ pass) ↔ VectorAgrees p h v
  unfolding check_vector
  check_vector_iff h none = (λ _. tt, λ _. refl)
  check_vector_iff h (some not_array) = (λ q. ground arith, λ x. absurd x)
  check_vector_iff h (some (ndarray a)) = check_array_iff h a
