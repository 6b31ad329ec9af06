-- ===== src/Manifest/Merkle/Total.antt =====
-- The loop over the levels in `merkle_root` of src/vectorpin/manifest.py.
use vector_pin.Prelude.{
  ℕ, zero, suc, ◌≤◌, ◌<◌, ◌≡◌, ◌≢◌, refl, List, [], ◌∷◌, Option, length, arith,
}
use vector_pin.Text.{Bytes}
use vector_pin.Platform.{Platform}
use vector_pin.Manifest.Merkle.{level_up, climb}

module _ {K S A : Type 0} (p : Platform K S A) where
  level_up-ne_nil : (a : Bytes) (r : List Bytes) → level_up p (a ∷ r) ≢ []
  unfolding level_up
  level_up-ne_nil a [] h = cc
  level_up-ne_nil a (b ∷ r) h = cc

  length-level_up-le : (l : List Bytes) → length (level_up p l) ≤ length l
  unfolding level_up
  length-level_up-le [] = omega arith
  length-level_up-le (a ∷ []) = omega arith
  length-level_up-le (a ∷ b ∷ r) = omega (arith, length-level_up-le r)

  length-level_up :
      (a b : Bytes) (r : List Bytes) → length (level_up p (a ∷ b ∷ r)) < length (a ∷ b ∷ r)
  unfolding level_up
  length-level_up a b r = omega (arith, length-level_up-le r)

  -- On a level that is not empty, the loop ends with a root whenever its fuel is at least the
  -- number of the level's hashes.
  pub climb_total :
      (f : ℕ) (l : List Bytes) → length l ≤ f → l ≢ [] → (h : Bytes) × (climb p f l ≡ Option.some h)
  unfolding climb
  climb_total zero [] le ne = absurd (ne refl)
  climb_total zero (a ∷ l) le ne = absurd (omega arith)
  climb_total (suc f) [] le ne = absurd (ne refl)
  climb_total (suc f) (a ∷ []) le ne = (a, refl)
  climb_total (suc f) (a ∷ b ∷ r) le ne =
      climb_total f (level_up p (a ∷ b ∷ r)) (omega (arith, length-level_up a b r)) ne'
    where
      ne' : level_up p (a ∷ b ∷ r) ≢ []
      ne' = level_up-ne_nil a (b ∷ r)
