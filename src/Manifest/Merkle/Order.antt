-- ===== src/Manifest/Merkle/Order.antt =====
-- `merkle_root` of src/vectorpin/manifest.py and the order of its entries.
use vector_pin.Prelude.{◌≡◌, ap, inl, inr, List}
use mathlib.Core.Logic.{∥∥₁_elim}
use mathlib.Core.List.{Perm}
use vector_pin.Outcome.{Result, Exc, ◌>>◌, raise_if}
use vector_pin.Text.{Text}
use vector_pin.Text.Sort.{has_twins, SortAlike, SortAlike-of_perm}
use vector_pin.Platform.{Platform}
use vector_pin.Manifest.Merkle.{Entry, record_id, merkle_root, root_of_sorted}
use native.Mathlib.Nat.{ℕ_set}

Result-set : IsSet (Result Text)
Result-set = hlevel ℕ_set

module _ {K S A : Type 0} (p : Platform K S A) where
  alike : (xs ys : List Entry) → SortAlike record_id xs ys → merkle_root p xs ≡ merkle_root p ys
  unfolding merkle_root
  alike xs ys (inl e) =
      ap (λ l. raise_if (has_twins record_id l) Exc.value_error >> root_of_sorted p l) e
  alike xs ys (inr (a, b)) = rw (a, b)

  -- Two walks of one set of records, in any two orders, have the same root, or the same error.
  pub merkle_root_perm : (xs ys : List Entry) → Perm xs ys → merkle_root p xs ≡ merkle_root p ys
  merkle_root_perm xs ys q =
      ∥∥₁_elim q (Result-set (merkle_root p xs) (merkle_root p ys))
        (λ d. alike xs ys (SortAlike-of_perm record_id d))
