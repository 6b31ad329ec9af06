-- ===== src/Dict.antt =====
-- Python's `dict` with string keys, in insertion order.
pub mod Distinct
use vector_pin.Prelude.{
  ◌≡◌, ◌≢◌, ap, ◌∙◌, refl, Bool, false, true, ◌||◌, List, [], ◌∷◌, Option, none, some, arith,
  if◌then◌else◌,
}
use vector_pin.Text.{Text}
use vector_pin.Text.Equality.{text_eq, text_eq_iff, text_eq_refl, not_equal}

abbrev pub Dict {ℓ} : Type ℓ → Type ℓ
Dict V = List (Text × V)

-- `x in xs`
unfoldable pub contains : Text → List Text → Bool
contains x [] = false
contains x (y ∷ ys) = text_eq y x || contains x ys

module _ {ℓ} {V : Type ℓ} where
  -- `d.get(k)`
  unfoldable pub lookup : Text → Dict V → Option V
  lookup k [] = none
  lookup k ((j, v) ∷ d) = if text_eq j k then some v else lookup k d

  -- `k in d`
  unfoldable pub has_key : Text → Dict V → Bool
  has_key k [] = false
  has_key k ((j, v) ∷ d) = text_eq j k || has_key k d

  -- `d[k] = v`
  unfoldable pub put : Text → V → Dict V → Dict V
  put k v [] = (k, v) ∷ []
  put k v ((j, w) ∷ d) = if text_eq j k then (j, v) ∷ d else (j, w) ∷ put k v d

  -- `k in d` where `d.get(k)` has a value.
  pub has_key-lookup :
      (k : Text) (d : Dict V) → has_key k d ≡ (elim (lookup k d) [ none ↦ false | some v ↦ true ])
  unfolding has_key lookup
  has_key-lookup k [] = refl
  has_key-lookup k ((j, v) ∷ d) = go (text_eq j k) (has_key-lookup k d)
    where
      go :
          (b : Bool)
          → has_key k d ≡ (elim (lookup k d) [ none ↦ false | some v ↦ true ])
          → (b || has_key k d)
            ≡ (elim (if b then some v else lookup k d) [ none ↦ false | some v ↦ true ])
      go true ih = refl
      go false ih = ih

  pub lookup-put :
      (k j : Text) (v : V) (d : Dict V)
      → lookup j (put k v d) ≡ (if text_eq k j then some v else lookup j d)
  unfolding lookup put
  lookup-put k j v [] = refl
  lookup-put k j v ((i, w) ∷ d) =
      ground (arith, text_eq_iff k j, text_eq_iff i k, text_eq_iff i j, lookup-put k j v d)

  pub lookup-put_same : (k : Text) (v : V) (d : Dict V) → lookup k (put k v d) ≡ some v
  lookup-put_same k v d =
      lookup-put k k v d ∙ ap (λ b. if b then some v else lookup k d) (text_eq_refl k)

  pub lookup-put_other :
      (k j : Text) (v : V) (d : Dict V) → k ≢ j → lookup j (put k v d) ≡ lookup j d
  lookup-put_other k j v d h =
      lookup-put k j v d ∙ ap (λ b. if b then some v else lookup j d) (not_equal k j h)
