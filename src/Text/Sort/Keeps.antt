-- ===== src/Text/Sort/Keeps.antt =====
-- What sorting keeps: a predicate on every item, and their number.
use vector_pin.Prelude.{
  ◌+◌, ◌≡◌, ◌⊎◌, inl, inr, refl, true, false, List, [], ◌∷◌, arith, All, length, Bool-cases,
}
use vector_pin.Text.{Text}
use vector_pin.Text.Order.{text_leb}
use vector_pin.Text.Sort.{insert_by, sort_by}

module _ {ℓ} {A : Type ℓ} (key : A → Text) where
  All-insert_by {κ} :
      (P : A → Type κ) (x : A) (s : List A) → P x → All P s → All P (insert_by key x s)
  unfolding insert_by
  All-insert_by P x [] h a = (h, tt)
  All-insert_by P x (y ∷ s) h a =
      go (Bool-cases (text_leb (key x) (key y))) (All-insert_by P x s h a.1)
    where
      go :
          (text_leb (key x) (key y) ≡ true) ⊎ (text_leb (key x) (key y) ≡ false)
          → All P (insert_by key x s)
          → All P (insert_by key x (y ∷ s))
      go (inl e) ih = rw e (h, a)
      go (inr e) ih = rw e (a.0, ih)

  pub All-sort_by {κ} : (P : A → Type κ) (l : List A) → All P l → All P (sort_by key l)
  unfolding sort_by
  All-sort_by P [] a = tt
  All-sort_by P (x ∷ l) a = All-insert_by P x (sort_by key l) a.0 (All-sort_by P l a.1)

  length-insert_by : (x : A) (s : List A) → length (insert_by key x s) ≡ length s + 1
  unfolding insert_by
  length-insert_by x [] = refl
  length-insert_by x (y ∷ s) = ground (arith, length-insert_by x s)

  pub length-sort_by : (l : List A) → length (sort_by key l) ≡ length l
  unfolding sort_by
  length-sort_by [] = refl
  length-sort_by (x ∷ l) = omega (arith, length-insert_by x (sort_by key l), length-sort_by l)
