-- ===== src/Json/Objects.antt =====
-- `json.dumps` of objects: what the text says of the members.
use vector_pin.Prelude.{
  ℕ, ◌≡◌, refl, sym, ap, ap₂, ◌∙◌, List, [], ◌∷◌, ◌++◌, append_assoc, map, arith,
}
use vector_pin.Text.{Text}
use vector_pin.Json.{raw_unicode, quote, join_comma}
use vector_pin.Json.Quote.{quote-append_injective}
use vector_pin.Json.Decimal.{NoDigit}

-- Rows between braces, followed by a text.
module _ {R : Type 0} (row : R → Text) where
  abbrev pub more : List R → Text → Text
  more [] x = b'}' ∷ x
  more (r ∷ rs) x = b',' ∷ (row r ++ more rs x)

  abbrev pub body : List R → Text → Text
  body [] x = b'}' ∷ x
  body (r ∷ rs) x = row r ++ more rs x

  pub join_comma-body : (l : List R) (x : Text) → join_comma (map row l) ++ b'}' ∷ x ≡ body l x
  unfolding join_comma
  join_comma-body [] x = refl
  join_comma-body (r ∷ []) x = refl
  join_comma-body (r ∷ s ∷ l) x =
      append_assoc (row r) (b',' ∷ join_comma (map row (s ∷ l))) (b'}' ∷ x)
      ∙ ap (λ (t : Text). row r ++ b',' ∷ t) (join_comma-body (s ∷ l) x)

  more-NoDigit : (l : List R) (x : Text) → NoDigit (more l x)
  more-NoDigit [] x = refl
  more-NoDigit (r ∷ l) x = refl

  module _
      (split : (r s : R) (x y : Text)
        → NoDigit x
        → NoDigit y
        → row r ++ x ≡ row s ++ y
        → (r ≡ s) × (x ≡ y))
      (not_brace : (r : R) (x y : Text) → row r ++ x ≡ b'}' ∷ y → ⊥) where
    more_injective : (l m : List R) (x y : Text) → more l x ≡ more m y → (l ≡ m) × (x ≡ y)
    more_injective [] [] x y h = ground arith
    more_injective [] (s ∷ m) x y h = ground arith
    more_injective (r ∷ l) [] x y h = ground arith
    more_injective (r ∷ l) (s ∷ m) x y h =
        let (e, t) =
          split r s (more l x) (more m y) (more-NoDigit l x) (more-NoDigit m y) (tail_eq h) in
        let (f, u) = more_injective l m x y t in (ap₂ ◌∷◌ e f, u)
      where
        tail_eq : {c d : ℕ} {u v : Text} → c ∷ u ≡ d ∷ v → u ≡ v
        tail_eq q = ground arith

    pub body_injective : (l m : List R) (x y : Text) → body l x ≡ body m y → (l ≡ m) × (x ≡ y)
    body_injective [] [] x y h = ground arith
    body_injective [] (s ∷ m) x y h = absurd (not_brace s (more m y) x (sym h))
    body_injective (r ∷ l) [] x y h = absurd (not_brace r (more l x) y h)
    body_injective (r ∷ l) (s ∷ m) x y h =
        let (e, t) = split r s (more l x) (more m y) (more-NoDigit l x) (more-NoDigit m y) h in
        let (f, u) = more_injective l m x y t in (ap₂ ◌∷◌ e f, u)

-- A member whose value is a string.
abbrev pub entry_row : Text × Text → Text
entry_row (k, v) = quote raw_unicode k ++ b':' ∷ quote raw_unicode v

tail_eq : {c d : ℕ} {x y : Text} → c ∷ x ≡ d ∷ y → x ≡ y
tail_eq h = ground arith

quote-ne_brace : (s x y : Text) → quote raw_unicode s ++ x ≡ b'}' ∷ y → ⊥
unfolding quote
quote-ne_brace s x y h = ground arith

-- A key, a colon and a value in front of a text are told apart, if the value is.
pub member-split :
    (k j u v x y : Text)
    → (quote raw_unicode k ++ b':' ∷ u) ++ x ≡ (quote raw_unicode j ++ b':' ∷ v) ++ y
    → (k ≡ j) × (u ++ x ≡ v ++ y)
member-split k j u v x y h =
    let (e, t) =
      quote-append_injective k j (b':' ∷ (u ++ x)) (b':' ∷ (v ++ y)) (
        sym (append_assoc (quote raw_unicode k) _ _)
        ∙ h
        ∙ append_assoc (quote raw_unicode j) _ _) in
    (e, tail_eq t)

pub member-ne_brace : (k u x y : Text) → (quote raw_unicode k ++ b':' ∷ u) ++ x ≡ b'}' ∷ y → ⊥
member-ne_brace k u x y h =
    quote-ne_brace k (b':' ∷ (u ++ x)) y (sym (append_assoc (quote raw_unicode k) _ _) ∙ h)

pub entries_injective :
    (l m : List (Text × Text)) (x y : Text)
    → body entry_row l x ≡ body entry_row m y
    → (l ≡ m) × (x ≡ y)
entries_injective =
    body_injective entry_row
      (λ r s x y _ _ h.
        let (e, t) = member-split r.0 s.0 (quote raw_unicode r.1) (quote raw_unicode s.1) x y h in
        let (f, u) = quote-append_injective r.1 s.1 x y t in ((λ i. (e i, f i)), u))
      (λ r x y h. member-ne_brace r.0 (quote raw_unicode r.1) x y h)
