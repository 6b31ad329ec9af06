-- ===== src/Text/Equality.antt =====
-- `==` on strings and bytes.
use vector_pin.Prelude.{
  ℕ, ◌≡◌, refl, ◌↔◌, ◌⊎◌, ◌≢◌, inl, inr, Bool, true, false, ◌&&◌, List, [], ◌∷◌, Option, none, some,
  arith, ◌==◌, Bool-cases,
}

abbrev pub text_eq : List ℕ → List ℕ → Bool
text_eq [] [] = true
text_eq [] (d ∷ t) = false
text_eq (c ∷ s) [] = false
text_eq (c ∷ s) (d ∷ t) = c == d && text_eq s t

pub text_eq_refl : (s : List ℕ) → text_eq s s ≡ true
text_eq_refl [] = refl
text_eq_refl (c ∷ s) = ground (arith, text_eq_refl s)

pub text_eq→eq : (s t : List ℕ) → text_eq s t ≡ true → s ≡ t
text_eq→eq [] [] h = refl
text_eq→eq [] (d ∷ t) h = cc
text_eq→eq (c ∷ s) [] h = cc
text_eq→eq (c ∷ s) (d ∷ t) h = ground (arith, text_eq→eq s t)

pub text_eq_iff : (s t : List ℕ) → (text_eq s t ≡ true) ↔ (s ≡ t)
text_eq_iff s t = (text_eq→eq s t, λ e. ground (arith, text_eq_refl s, e))

pub text_eq-false : (s t : List ℕ) → text_eq s t ≡ false → s ≢ t
text_eq-false s t h e = ground (arith, text_eq_refl s, e)

-- Two texts are the same or not.
pub text_dec : (s t : List ℕ) → (s ≡ t) ⊎ (s ≢ t)
text_dec s t = elim (Bool-cases (text_eq s t)) [
  | inl e ↦ inl (text_eq→eq s t e)
  | inr e ↦ inr (text_eq-false s t e)
]

-- `==` where one side or both may be `None`.
abbrev pub option_eq : Option (List ℕ) → Option (List ℕ) → Bool
option_eq none none = true
option_eq none (some t) = false
option_eq (some s) none = false
option_eq (some s) (some t) = text_eq s t

pub option_eq_iff : (a b : Option (List ℕ)) → (option_eq a b ≡ true) ↔ (a ≡ b)
option_eq_iff none none = ground arith
option_eq_iff none (some t) = ground arith
option_eq_iff (some s) none = ground arith
option_eq_iff (some s) (some t) = ground (arith, text_eq_iff s t)

pub not_equal : (s t : List ℕ) → s ≢ t → text_eq s t ≡ false
not_equal s t h = go (Bool-cases (text_eq s t))
  where
    go : (text_eq s t ≡ true) ⊎ (text_eq s t ≡ false) → text_eq s t ≡ false
    go (inl e) = absurd (h ((text_eq_iff s t).0 e))
    go (inr e) = e
