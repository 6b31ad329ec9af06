-- ===== src/Verifier/Faults.antt =====
-- Step 6 of `Verifier._verify_inner` in src/vectorpin/verifier.py: what is wrong with a vector when
-- it fails.
use vector_pin.Prelude.{
  ℕ, pos, ◌≡◌, ◌≢◌, ◌⊎◌, ◌∙◌, refl, inl, inr, Bool, true, false, not, ◌&&◌, [], ◌∷◌, Option, none,
  some, if◌then◌else◌, arith, not-false,
}
use vector_pin.Outcome.{ok, err, Exc}
use vector_pin.Text.{Text}
use vector_pin.Text.Equality.{text_eq, text_eq-false}
use vector_pin.Platform.{Platform}
use vector_pin.Hash.{hash_vector, is_wider_than, native_dtype, is_1d}
use vector_pin.Attestation.{PinHeader}
use vector_pin.Verifier.{Supplied, ndarray, not_array, check_vector, check_array, has_dim}
use vector_pin.Verifier.Steps.{VerifyError, pass, fail, ◌▹◌, fail_if, attempt, fail_if-eq-pass}
use vector_pin.Verifier.Vectors.{shape_known, shape_test, wide_test}
use vector_pin.Verifier.Codes.{
  Tells, Tells-then, Tells-fail_if, Tells-attempt, Tells-if, Tells-because,
}

module _ {K S A : Type 0} (p : Platform K S A) where
  -- A one-dimensional array of the pinned length
  abbrev pub Shaped : PinHeader → A → Type 0
  Shaped h a = (n : ℕ) × (p.shape a ≡ n ∷ []) × (pos n ≡ h.vec_dim)

  -- An array of another shape or a wider dtype; one of the pinned shape, no wider than the pinned
  -- dtype and finite, but with another hash; or one that cannot be hashed.
  pub data ArrayFault (h : PinHeader) (a : A) : VerifyError → Type 0 where
    misshaped : (¬ Shaped h a) → ArrayFault h a VerifyError.shape_mismatch
    wider :
        Shaped h a
        → is_wider_than p a h.vec_dtype ≡ ok true
        → ArrayFault h a VerifyError.shape_mismatch
    tampered :
        (hash : Text)
        → Shaped h a
        → is_wider_than p a h.vec_dtype ≡ ok false
        → p.all_finite a ≡ true
        → hash_vector p a h.vec_dtype ≡ ok hash
        → hash ≢ h.vec_hash
        → ArrayFault h a VerifyError.vector_tampered
    not_finite : Shaped h a → p.all_finite a ≡ false → ArrayFault h a VerifyError.parse_error
    not_read :
        (x : Exc)
        → Shaped h a
        → (is_wider_than p a h.vec_dtype ≡ err x)
          ⊎ ((hash_vector p a h.vec_dtype ≡ err x) ⊎ (native_dtype p a ≡ err x))
        → ArrayFault h a VerifyError.parse_error

  module _ (h : PinHeader) (a : A) where
    abbrev shaped : Bool
    shaped = is_1d (p.shape a) && has_dim p (p.shape a) h.vec_dim

    misshaped-Tells : not shaped ≡ true → ArrayFault h a VerifyError.shape_mismatch
    misshaped-Tells q = misshaped (λ (n, e, d). absurd (never (shape_known p (p.shape a) _ n e d)))
      where
        never : shaped ≡ true → ⊥
        never e = ground arith

    check_array-Tells : Tells (ArrayFault h a) (check_array p h a)
    unfolding check_array
    check_array-Tells =
        Tells-then (ArrayFault h a) _ _
          (Tells-fail_if (ArrayFault h a) (not shaped) VerifyError.shape_mismatch misshaped-Tells)
          (λ s.
            let s = shape_test p (p.shape a) h.vec_dim (not-false _ (fail_if-eq-pass _ _ s)) in
            of_shaped s)
      where
        hashed :
            Shaped h a
            → is_wider_than p a h.vec_dtype ≡ ok false
            → p.all_finite a ≡ true
            → Tells (ArrayFault h a) (
                attempt (hash_vector p a h.vec_dtype) (λ hash.
                  if text_eq hash h.vec_hash
                  then pass
                  else attempt (native_dtype p a) (λ _. fail VerifyError.vector_tampered)))
        hashed s w f =
            Tells-attempt (ArrayFault h a) (hash_vector p a h.vec_dtype) _
              (λ hash q. Tells-if (ArrayFault h a) (text_eq hash h.vec_hash) pass _ tt (λ n.
                Tells-attempt (ArrayFault h a) (native_dtype p a)
                  (λ _. fail VerifyError.vector_tampered)
                  (λ _ _. tampered hash s w f q (text_eq-false hash h.vec_hash n))
                  (λ x q. not_read x s (inr (inr q)))))
              (λ x q. not_read x s (inr (inl q)))

        of_shaped :
            Shaped h a
            → Tells (ArrayFault h a) (
                attempt
                  (is_wider_than p a h.vec_dtype)
                  (λ wide. fail_if wide VerifyError.shape_mismatch)
                ▹ fail_if (not (p.all_finite a)) VerifyError.parse_error
                ▹ attempt (hash_vector p a h.vec_dtype) (λ hash.
                  if text_eq hash h.vec_hash
                  then pass
                  else attempt (native_dtype p a) (λ _. fail VerifyError.vector_tampered)))
        of_shaped s =
            Tells-then (ArrayFault h a) _ _
              (Tells-attempt (ArrayFault h a) (is_wider_than p a h.vec_dtype) _
                (λ v q.
                  Tells-fail_if (ArrayFault h a) v VerifyError.shape_mismatch
                    (λ e. wider s (q ∙ (λ i. ok (e i)))))
                (λ x q. not_read x s (inl q)))
              (λ w.
                Tells-then (ArrayFault h a) _ _
                  (Tells-fail_if (ArrayFault h a) (not (p.all_finite a)) VerifyError.parse_error
                    (λ e. not_finite s (ground arith)))
                  (λ f.
                    hashed s (wide_test p h a (is_wider_than p a h.vec_dtype) w)
                      (not-false (p.all_finite a) (fail_if-eq-pass _ _ f))))

  -- A vector that is no array, or whose array has a fault.
  pub data VectorFault (h : PinHeader) (v : Option (Supplied A)) : VerifyError → Type 0 where
    no_array : v ≡ some not_array → VectorFault h v VerifyError.shape_mismatch
    of_array :
        (a : A) (e : VerifyError) → v ≡ some (ndarray a) → ArrayFault h a e → VectorFault h v e

  pub check_vector-Tells :
      (h : PinHeader) (v : Option (Supplied A)) → Tells (VectorFault h v) (check_vector p h v)
  unfolding check_vector
  check_vector-Tells h none = tt
  check_vector-Tells h (some not_array) = no_array refl
  check_vector-Tells h (some (ndarray a)) =
      Tells-because (VectorFault h (some (ndarray a))) (ArrayFault h a) (check_array p h a)
        (check_array-Tells h a) (λ e f ne. of_array a e refl f)
