-- ===== src/Dict/Distinct.antt =====
-- Dicts whose keys are distinct: what `put` and sorting keep, and how a new key is appended.
use vector_pin.Prelude.{
  ◌≡◌, refl, ap, ◌∙◌, ◌⊎◌, inl, inr, true, false, ◌||◌, [], ◌∷◌, ◌++◌, arith, Bool-cases,
}
use vector_pin.Text.{Text}
use vector_pin.Text.Equality.{text_eq, text_eq_iff}
use vector_pin.Text.Order.{text_leb}
use vector_pin.Text.Sort.{insert_by, sort_by}
use vector_pin.Dict.{Dict, has_key, put}

module _ {ℓ} {V : Type ℓ} where
  -- No key is met twice.
  abbrev pub Distinct : Dict V → Type 0
  Distinct [] = Unit
  Distinct ((k, v) ∷ d) = (has_key k d ≡ false) × Distinct d

  has_key-put :
      (j k : Text) (v : V) (d : Dict V)
      → text_eq k j ≡ false
      → has_key j d ≡ false
      → has_key j (put k v d) ≡ false
  unfolding has_key put
  has_key-put j k v [] e h = rw e
  has_key-put j k v ((i, w) ∷ d) e h = ground (arith, has_key-put j k v d)

  pub put-Distinct : (k : Text) (v : V) (d : Dict V) → Distinct d → Distinct (put k v d)
  unfolding put has_key
  put-Distinct k v [] h = (refl, tt)
  put-Distinct k v ((i, w) ∷ d) h = go (Bool-cases (text_eq i k)) (put-Distinct k v d h.1)
    where
      go :
          (text_eq i k ≡ true) ⊎ (text_eq i k ≡ false)
          → Distinct (put k v d)
          → Distinct (put k v ((i, w) ∷ d))
      go (inl e) ih = rw e (h.0, h.1)
      go (inr e) ih =
          rw e (has_key-put i k v d (ground (arith, text_eq_iff i k, text_eq_iff k i)) h.0, ih)

  -- A new key goes to the end.
  pub put_new : (k : Text) (v : V) (d : Dict V) → has_key k d ≡ false → put k v d ≡ d ++ (k, v) ∷ []
  unfolding put has_key
  put_new k v [] h = refl
  put_new k v ((i, w) ∷ d) h = ground (arith, put_new k v d)

  -- The keys of a front part do not come again.
  pub has_key-Distinct_append :
      (k : Text) (v : V) (a d : Dict V) → Distinct (a ++ (k, v) ∷ d) → has_key k a ≡ false
  unfolding has_key
  has_key-Distinct_append k v [] d h = refl
  has_key-Distinct_append k v ((i, w) ∷ a) d h = ground (
    arith,
    has_key-Distinct_append k v a d,
    has_key-append i a ((k, v) ∷ d),
    text_eq_iff i k,
    text_eq_iff k i,
  )
    where
      has_key-append : (j : Text) (a d : Dict V) → has_key j (a ++ d) ≡ (has_key j a || has_key j d)
      has_key-append j [] d = refl
      has_key-append j ((i, w) ∷ a) d = ground (arith, has_key-append j a d)

  has_key-insert_by :
      (j k : Text) (v : V) (s : Dict V)
      → has_key j (insert_by (λ e. e.0) (k, v) s) ≡ (text_eq k j || has_key j s)
  unfolding has_key insert_by
  has_key-insert_by j k v [] = refl
  has_key-insert_by j k v ((i, w) ∷ s) = ground (arith, has_key-insert_by j k v s)

  insert_by-Distinct :
      (k : Text) (v : V) (s : Dict V)
      → has_key k s ≡ false
      → Distinct s
      → Distinct (insert_by (λ e. e.0) (k, v) s)
  unfolding has_key insert_by
  insert_by-Distinct k v [] h d = (refl, tt)
  insert_by-Distinct k v ((i, w) ∷ s) h d =
      go (Bool-cases (text_leb k i)) (insert_by-Distinct k v s (ground arith) d.1)
    where
      go :
          (text_leb k i ≡ true) ⊎ (text_leb k i ≡ false)
          → Distinct (insert_by (λ e. e.0) (k, v) s)
          → Distinct (insert_by (λ e. e.0) (k, v) ((i, w) ∷ s))
      go (inl e) ih = rw e (h, (d.0, d.1))
      go (inr e) ih =
          rw e
            (has_key-insert_by i k v s ∙ ground (arith, d.0, text_eq_iff i k, text_eq_iff k i), ih)

  has_key-sort_by : (j : Text) (d : Dict V) → has_key j (sort_by (λ e. e.0) d) ≡ has_key j d
  unfolding has_key sort_by
  has_key-sort_by j [] = refl
  has_key-sort_by j ((k, v) ∷ d) =
      has_key-insert_by j k v (sort_by (λ e. e.0) d)
      ∙ ap (λ b. text_eq k j || b) (has_key-sort_by j d)

  pub sort_by-Distinct : (d : Dict V) → Distinct d → Distinct (sort_by (λ e. e.0) d)
  unfolding sort_by
  sort_by-Distinct [] h = tt
  sort_by-Distinct ((k, v) ∷ d) h =
      insert_by-Distinct k v (sort_by (λ e. e.0) d) (has_key-sort_by k d ∙ h.0)
        (sort_by-Distinct d h.1)
