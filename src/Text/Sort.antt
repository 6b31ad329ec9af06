-- ===== src/Text/Sort.antt =====
-- `sorted(items, key=...)` with a string for its key: a stable sort by code points.
pub mod Keeps
use vector_pin.Prelude.{
  ◌≡◌, refl, ap, sym, ◌∙◌, ◌≢◌, ◌⊎◌, inl, inr, Bool, true, false, ◌||◌, List, [], ◌∷◌, arith,
  if◌then◌else◌, subst,
}
use mathlib.Core.List.{Permᴰ}
use vector_pin.Text.{Text}
use vector_pin.Text.Equality.{text_eq, text_eq_iff, text_dec}
use vector_pin.Text.Order.{
  text_leb, text_leb_refl, text_leb_total, text_leb_trans, text_leb_antisym,
}

module _ {ℓ} {A : Type ℓ} (key : A → Text) where
  unfoldable pub insert_by : A → List A → List A
  insert_by x [] = x ∷ []
  insert_by x (y ∷ ys) = if text_leb (key x) (key y) then x ∷ y ∷ ys else y ∷ insert_by x ys

  unfoldable pub sort_by : List A → List A
  unfolding insert_by
  sort_by [] = []
  sort_by (x ∷ xs) = insert_by x (sort_by xs)

  -- Two neighbours have one key.
  unfoldable pub has_twins : List A → Bool
  has_twins [] = false
  has_twins (x ∷ []) = false
  has_twins (x ∷ y ∷ ys) = text_eq (key y) (key x) || has_twins (y ∷ ys)

  pub insert_by_comm :
      (x y : A) (s : List A)
      → key x ≢ key y
      → insert_by x (insert_by y s) ≡ insert_by y (insert_by x s)
  unfolding insert_by
  insert_by_comm x y [] ne =
      ground (arith, text_leb_total (key x) (key y), text_leb_antisym (key x) (key y))
  insert_by_comm x y (z ∷ s) ne = ground (
    arith,
    insert_by_comm x y s ne,
    text_leb_total (key x) (key y),
    text_leb_antisym (key x) (key y),
    text_leb_trans (key x) (key y) (key z),
    text_leb_trans (key y) (key x) (key z),
    text_leb_total (key y) (key z),
    text_leb_total (key x) (key z),
  )

  -- Inserting keeps twins, and a second item with the same key makes them.
  pub has_twins-insert_by :
      (x : A) (s : List A) → has_twins s ≡ true → has_twins (insert_by x s) ≡ true
  unfolding insert_by has_twins
  has_twins-insert_by x [] h = cc
  has_twins-insert_by x (y ∷ []) h = cc
  has_twins-insert_by x (y ∷ z ∷ s) h =
      ground (arith, has_twins-insert_by x (z ∷ s), text_eq_iff (key z) (key y))

  has_twins-cons : (z : A) (r : List A) → has_twins r ≡ true → has_twins (z ∷ r) ≡ true
  unfolding has_twins
  has_twins-cons z [] h = cc
  has_twins-cons z (x ∷ r) h = ground arith

  pub has_twins-insert_by_same :
      (x y : A) (s : List A) → key x ≡ key y → has_twins (insert_by x (insert_by y s)) ≡ true
  unfolding insert_by has_twins
  has_twins-insert_by_same x y [] e =
      ground (arith, text_leb_refl (key y), text_eq_iff (key y) (key x), e)
  has_twins-insert_by_same x y (z ∷ s) e = ground (
    arith,
    e,
    text_leb_refl (key y),
    text_eq_iff (key y) (key x),
    has_twins-insert_by_same x y s e,
    has_twins-cons z (insert_by x (insert_by y s)),
  )

  -- Two lists that are permutations of one another sort alike, unless a key occurs twice.
  abbrev pub SortAlike : List A → List A → Type ℓ
  SortAlike xs ys =
      (sort_by xs ≡ sort_by ys) ⊎ (has_twins (sort_by xs) ≡ true) × (has_twins (sort_by ys) ≡ true)

  SortAlike-cons : (x : A) (xs ys : List A) → SortAlike xs ys → SortAlike (x ∷ xs) (x ∷ ys)
  unfolding sort_by
  SortAlike-cons x xs ys (inl e) = inl (ap (insert_by x) e)
  SortAlike-cons x xs ys (inr (p, q)) =
      inr (has_twins-insert_by x (sort_by xs) p, has_twins-insert_by x (sort_by ys) q)

  SortAlike-swap : (x y : A) (l : List A) → SortAlike (y ∷ x ∷ l) (x ∷ y ∷ l)
  unfolding sort_by
  SortAlike-swap x y l = elim (text_dec (key x) (key y)) [
    | inl e ↦ inr (
      has_twins-insert_by_same y x (sort_by l) (sym e),
      has_twins-insert_by_same x y (sort_by l) e,
    )
    | inr ne ↦ inl (sym (insert_by_comm x y (sort_by l) ne))
  ]

  SortAlike-trans : (xs ys zs : List A) → SortAlike xs ys → SortAlike ys zs → SortAlike xs zs
  SortAlike-trans xs ys zs (inl p) (inl q) = inl (p ∙ q)
  SortAlike-trans xs ys zs (inl p) (inr (q, r)) = inr (rw p q, r)
  SortAlike-trans xs ys zs (inr (p, q)) (inl r) = inr (p, rw (← r) q)
  SortAlike-trans xs ys zs (inr (p, q)) (inr (r, s)) = inr (p, s)

  pub SortAlike-of_perm : {xs ys : List A} → Permᴰ xs ys → SortAlike xs ys
  SortAlike-of_perm Permᴰ.nil = inl refl
  SortAlike-of_perm (Permᴰ.cons {a = x} {l₁ = xs} {l₂ = ys} e p) =
      subst (λ z. SortAlike (x ∷ xs) (z ∷ ys)) e (SortAlike-cons x xs ys (SortAlike-of_perm p))
  SortAlike-of_perm (Permᴰ.swap {a = y} {b = x} {b' = z} {l = l} e f) =
      subst (λ u. SortAlike (y ∷ x ∷ l) (u ∷ z ∷ l)) f
        (subst (λ u. SortAlike (y ∷ x ∷ l) (x ∷ u ∷ l)) e (SortAlike-swap x y l))
  SortAlike-of_perm (Permᴰ.trans {l₁ = xs} {l₂ = ys} {l₃ = zs} p q) =
      SortAlike-trans xs ys zs (SortAlike-of_perm p) (SortAlike-of_perm q)

  -- Sorting what is sorted changes nothing.
  abbrev IsSorted : List A → Type 0
  IsSorted [] = Unit
  IsSorted (x ∷ []) = Unit
  IsSorted (x ∷ y ∷ s) = (text_leb (key x) (key y) ≡ true) × IsSorted (y ∷ s)

  insert_by-IsSorted : (x : A) (s : List A) → IsSorted s → IsSorted (insert_by x s)
  unfolding insert_by
  insert_by-IsSorted x [] h = tt
  insert_by-IsSorted x (y ∷ []) h = ground (arith, text_leb_total (key x) (key y))
  insert_by-IsSorted x (y ∷ z ∷ s) h =
      ground (arith, text_leb_total (key x) (key y), insert_by-IsSorted x (z ∷ s))

  sort_by-IsSorted : (l : List A) → IsSorted (sort_by l)
  unfolding sort_by
  sort_by-IsSorted [] = tt
  sort_by-IsSorted (x ∷ l) = insert_by-IsSorted x (sort_by l) (sort_by-IsSorted l)

  insert_by_sorted : (x : A) (s : List A) → IsSorted (x ∷ s) → insert_by x s ≡ x ∷ s
  unfolding insert_by
  insert_by_sorted x [] h = refl
  insert_by_sorted x (y ∷ s) h = rw h.0

  IsSorted-tail : (x : A) (s : List A) → IsSorted (x ∷ s) → IsSorted s
  IsSorted-tail x [] h = tt
  IsSorted-tail x (y ∷ s) h = h.1

  sort_by_sorted : (l : List A) → IsSorted l → sort_by l ≡ l
  unfolding sort_by
  sort_by_sorted [] h = refl
  sort_by_sorted (x ∷ l) h =
      ap (insert_by x) (sort_by_sorted l (IsSorted-tail x l h)) ∙ insert_by_sorted x l h

  pub sort_by_idem : (l : List A) → sort_by (sort_by l) ≡ sort_by l
  sort_by_idem l = sort_by_sorted (sort_by l) (sort_by-IsSorted l)
