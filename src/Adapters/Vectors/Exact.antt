-- ===== src/Adapters/Vectors/Exact.antt =====
-- `vector_from_store` of src/vectorpin/adapters/base.py: what the array that it returns keeps.
use vector_pin.Prelude.{
  ◌≤◌, ◌≢◌, ◌≡◌, sym, ap, ◌∙◌, ◌⊎◌, inl, inr, true, false, not, some, ltb, ◌==◌, arith, Bool-cases,
  not-false,
}
use vector_pin.Outcome.{ok, Exc, >>=-eq-ok, raise_if, raise_if-eq-ok, ok-injective}
use vector_pin.Platform.{Platform, Dtype}
use vector_pin.Hash.{float_kind, is_1d}
use vector_pin.Adapters.Vectors.{
  Delivered, Arrays, ArraysLaws, dtype_eq, as_array, narrow, to_native, with_native,
  vector_from_store,
}

dtype_eq_iff : (s t : Dtype) → dtype_eq s t ≡ true → s ≡ t
dtype_eq_iff s t h = ground arith

module _ {K S V A : Type 0} (p : Platform K S A) (n : Arrays V A) (laws : ArraysLaws p n) where
  -- The array that was delivered is not wider than the target, or converting the result back gives
  -- equal values.
  abbrev pub KeepsValues : Dtype → A → A → Type 0
  KeepsValues target delivered a =
      (((p.dtype delivered).kind ≢ float_kind) ⊎ ((p.dtype delivered).itemsize ≤ target.itemsize))
      ⊎ ((back : A) × (n.convert (p.dtype delivered) a ≡ ok back)
          × (n.array_equal back delivered ≡ true))

  narrow-eq-ok :
      (target : Dtype) (d a : A)
      → narrow p n target d ≡ ok a
      → (n.convert target d ≡ ok a)
        × ((back : A) × (n.convert (p.dtype d) a ≡ ok back) × (n.array_equal back d ≡ true))
  unfolding narrow
  narrow-eq-ok target d a h =
      let (b, e, h) = >>=-eq-ok (n.convert target d) _ h in
      let (w, f, h) = >>=-eq-ok (n.convert (p.dtype d) b) _ h in
      let (_, g, h) = >>=-eq-ok (raise_if (not (n.array_equal w d)) Exc.value_error) _ h in
      let same : b ≡ a = ok-injective h in
      (
        e ∙ ap ok same,
        (
          w,
          ap (n.convert (p.dtype d)) (sym same) ∙ f,
          not-false _ (raise_if-eq-ok _ Exc.value_error g),
        ),
      )

  to_native-eq-ok :
      (target : Dtype) (d a : A)
      → to_native p n target d ≡ ok a
      → (p.dtype a ≡ target) × KeepsValues target d a
  unfolding to_native
  to_native-eq-ok target d a h =
      go (Bool-cases (dtype_eq (p.dtype d) target)) (Bool-cases ((p.dtype d).kind == float_kind))
        (Bool-cases (ltb target.itemsize (p.dtype d).itemsize))
    where
      go :
          (dtype_eq (p.dtype d) target ≡ true) ⊎ (dtype_eq (p.dtype d) target ≡ false)
          → (((p.dtype d).kind == float_kind) ≡ true) ⊎ (((p.dtype d).kind == float_kind) ≡ false)
          → (ltb target.itemsize (p.dtype d).itemsize ≡ true)
            ⊎ (ltb target.itemsize (p.dtype d).itemsize ≡ false)
          → (p.dtype a ≡ target) × KeepsValues target d a
      go (inl e) k w =
          let same : d ≡ a = ok-injective (rw e at h) in
          let native : p.dtype d ≡ target = dtype_eq_iff (p.dtype d) target e in
          (
            ap p.dtype (sym same) ∙ native,
            inl (inr (omega (arith, ap (λ (t : Dtype). t.itemsize) native))),
          )
      go (inr e) (inr k) w =
          (laws.dtype_convert target d a (rw (e, k) at h), inl (inl (λ f. absurd (ground arith))))
      go (inr e) (inl k) (inl w) =
          let (converted, kept) = narrow-eq-ok target d a (rw (e, k, w) at h) in
          (laws.dtype_convert target d a converted, inr kept)
      go (inr e) (inl k) (inr w) =
          (laws.dtype_convert target d a (rw (e, k, w) at h), inl (inr (ground arith)))

  -- An array that `vector_from_store` returns for a declared native dtype has that dtype and one
  -- dimension; and if a wider float array was delivered, converting the result back to the
  -- delivered dtype gives values equal to the delivered ones.
  pub vector_from_store_exact :
      (target : Dtype) (values : Delivered V A) (a : A)
      → vector_from_store p n (some target) values ≡ ok a
      → (p.dtype a ≡ target)
        × (is_1d (p.shape a) ≡ true)
        × ((d : A) × (as_array p n values ≡ ok d) × KeepsValues target d a)
  unfolding vector_from_store
  vector_from_store_exact target values a h =
      let (b, e, h) = >>=-eq-ok (with_native p n (some target) values) _ h in
      let (_, g, h) = >>=-eq-ok (raise_if (not (is_1d (p.shape b))) Exc.value_error) _ h in
      let same : b ≡ a = ok-injective h in
      let (d, f, r) = >>=-eq-ok (as_array p n values) (λ arr. to_native p n target arr) e in
      let (native, kept) = to_native-eq-ok target d a (r ∙ ap ok same) in
      (
        native,
        ap (λ z. is_1d (p.shape z)) (sym same) ∙ not-false _ (raise_if-eq-ok _ Exc.value_error g),
        (d, f, kept),
      )
