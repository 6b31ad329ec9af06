-- ===== src/Verifier/Tampering.antt =====
-- Step 6 of `Verifier._verify_inner`, on two arrays and one pin.
use vector_pin.Prelude.{
  ℕ, pos, ◌≡◌, sym, ap, ◌∙◌, ◌⊎◌, inl, inr, true, not, [], ◌∷◌, some, subst, arith,
}
use vector_pin.Outcome.{ok, ◌>>=◌, >>=-eq-ok, ok-injective, raise_if, Exc}
use vector_pin.Text.{Text}
use vector_pin.Platform.{Platform, PlatformLaws, Dtype}
use vector_pin.Hash.{hash_vector, canonical_vector_bytes, hash_bytes, np_dtype, is_1d}
use vector_pin.Hash.Binding.{CollisionOf, hash_bytes-eq_of}
use vector_pin.Attestation.{PinHeader, Pin}
use vector_pin.Verifier.{Verifier, ndarray, Expected, verify}
use vector_pin.Verifier.Accepts.{VectorAgrees, ArrayAgrees}
use vector_pin.Verifier.Refinement.{verify_refines}

module _ {K S A : Type 0} (p : Platform K S A) (laws : PlatformLaws p) where
  hash_vector-eq-ok :
      (a : A) (d t : Text)
      → hash_vector p a d ≡ ok t
      → (w : Dtype) × (np_dtype d ≡ ok w) × (hash_bytes p (p.tobytes (p.astype w a)) ≡ t)
  unfolding hash_vector canonical_vector_bytes
  hash_vector-eq-ok a d t h =
      let (b, e, h) = >>=-eq-ok (canonical_vector_bytes p a d) _ h in
      let (_, e1, e) =
        >>=-eq-ok (raise_if (not (is_1d (p.shape a))) Exc.value_error)
          (λ _. np_dtype d >>= λ w. ok (p.tobytes (p.astype w a))) e in
      let (w, e2, e) = >>=-eq-ok (np_dtype d) (λ w. ok (p.tobytes (p.astype w a))) e in
      (w, e2, ap (hash_bytes p) (ok-injective e) ∙ ok-injective h)

  arrays_eq :
      (h : PinHeader) (w : Dtype) (a b : A)
      → np_dtype h.vec_dtype ≡ ok w
      → p.dtype a ≡ w
      → p.dtype b ≡ w
      → ArrayAgrees p h a
      → ArrayAgrees p h b
      → (a ≡ b) ⊎ CollisionOf p (p.tobytes a) (p.tobytes b)
  arrays_eq h w a b known da db ((m, sa, ma), _, _, ha) ((n, sb, nb), _, _, hb) =
      let (wa, ea, xa) = hash_vector-eq-ok a h.vec_dtype h.vec_hash ha in
      let (wb, eb, xb) = hash_vector-eq-ok b h.vec_dtype h.vec_hash hb in
      let same_a : p.astype wa a ≡ a =
        subst (λ (z : Dtype). p.astype z a ≡ a) (da ∙ ok-injective (sym known ∙ ea))
          (laws.astype_same a) in
      let same_b : p.astype wb b ≡ b =
        subst (λ (z : Dtype). p.astype z b ≡ b) (db ∙ ok-injective (sym known ∙ eb))
          (laws.astype_same b) in
      go (
        hash_bytes-eq_of p laws (p.tobytes a) (p.tobytes b) (
          ap (λ z. hash_bytes p (p.tobytes z)) (sym same_a)
          ∙ xa
          ∙ sym xb
          ∙ ap (λ z. hash_bytes p (p.tobytes z)) same_b))
    where
      shapes : p.shape a ≡ p.shape b
      shapes = sa ∙ ap (λ (k : ℕ). k ∷ []) (pos_injective (ma ∙ sym nb)) ∙ sym sb
        where
          pos_injective : {i j : ℕ} → pos i ≡ pos j → i ≡ j
          pos_injective e = ground arith

      go :
          (p.tobytes a ≡ p.tobytes b) ⊎ CollisionOf p (p.tobytes a) (p.tobytes b)
          → (a ≡ b) ⊎ CollisionOf p (p.tobytes a) (p.tobytes b)
      go (inl e) = inl (laws.tobytes_injective a b (da ∙ sym db) shapes e)
      go (inr c) = inr c

  -- If one pin verifies against two arrays of the pinned dtype, with whatever other ground truth,
  -- then the arrays are equal, or their bytes differ and have one SHA-256 digest.
  pub verify_one_vector :
      (vf wf : Verifier K) (pin : Pin) (x y : Expected A) (w : Dtype) (a b : A)
      → np_dtype pin.header.vec_dtype ≡ ok w
      → p.dtype a ≡ w
      → p.dtype b ≡ w
      → x.vector ≡ some (ndarray a)
      → y.vector ≡ some (ndarray b)
      → (verify p vf pin x).is_ok ≡ true
      → (verify p wf pin y).is_ok ≡ true
      → (a ≡ b) ⊎ CollisionOf p (p.tobytes a) (p.tobytes b)
  verify_one_vector vf wf pin x y w a b known da db va vb ha hb =
      arrays_eq pin.header w a b known da db
        (subst (VectorAgrees p pin.header) va ((verify_refines p vf pin x).0 ha).vector)
        (subst (VectorAgrees p pin.header) vb ((verify_refines p wf pin y).0 hb).vector)
