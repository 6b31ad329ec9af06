-- ===== src/Adapters/Sql/Identifiers.antt =====
-- The identifier checks of src/vectorpin/adapters/pgvector.py and lancedb.py.
use vector_pin.Prelude.{
  ◌≡◌, ◌⊎◌, ◌↔◌, refl, ap, inl, inr, true, false, [], ◌∷◌, ◌++◌, arith, all, Bool-cases,
}
use vector_pin.Outcome.{ok}
use vector_pin.Text.{Text}
use vector_pin.Adapters.Sql.{
  validate_identifier, ident_re, ident_rest, is_ident_start, is_ident_char,
}

-- A letter or underscore, then letters, digits and underscores.
abbrev pub IsIdentifier : Text → Type 0
IsIdentifier [] = ⊥
IsIdentifier (c ∷ s) = (is_ident_start c ≡ true) × (all is_ident_char s ≡ true)

rest_cases :
    (s : Text)
    → ident_rest s ≡ true
    → (all is_ident_char s ≡ true)
      ⊎ ((t : Text) × (s ≡ t ++ 10 ∷ []) × (all is_ident_char t ≡ true))
unfolding ident_rest
rest_cases [] h = inl refl
rest_cases (c ∷ []) h = go (Bool-cases (is_ident_char c))
  where
    go :
        (is_ident_char c ≡ true) ⊎ (is_ident_char c ≡ false)
        → (all is_ident_char (c ∷ []) ≡ true)
          ⊎ ((t : Text) × (c ∷ [] ≡ t ++ 10 ∷ []) × (all is_ident_char t ≡ true))
    go (inl e) = inl (rw e)
    go (inr e) = inr ([], ap (λ z. z ∷ []) (ground arith), refl)
rest_cases (c ∷ d ∷ s) h = go (rest_cases (d ∷ s) (ground arith))
  where
    first : is_ident_char c ≡ true
    first = ground arith

    go :
        (all is_ident_char (d ∷ s) ≡ true)
          ⊎ ((t : Text) × (d ∷ s ≡ t ++ 10 ∷ []) × (all is_ident_char t ≡ true))
        → (all is_ident_char (c ∷ d ∷ s) ≡ true)
          ⊎ ((t : Text) × (c ∷ d ∷ s ≡ t ++ 10 ∷ []) × (all is_ident_char t ≡ true))
    go (inl e) = inl (rw (first, e))
    go (inr (t, e, f)) = inr (c ∷ t, ap (λ z. c ∷ z) e, rw (first, f))

-- A name of a column or a table, as the checks read it: a newline may follow the identifier.
abbrev pub IsName : Text → Type 0
IsName name = IsIdentifier name ⊎ ((t : Text) × (name ≡ t ++ 10 ∷ []) × IsIdentifier t)

ident_rest-all : (s : Text) → all is_ident_char s ≡ true → ident_rest s ≡ true
unfolding ident_rest
ident_rest-all [] h = refl
ident_rest-all (c ∷ []) h = ground arith
ident_rest-all (c ∷ d ∷ s) h = ground (arith, ident_rest-all (d ∷ s))

ident_rest_newline : (s : Text) → all is_ident_char s ≡ true → ident_rest (s ++ 10 ∷ []) ≡ true
unfolding ident_rest
ident_rest_newline [] h = refl
ident_rest_newline (c ∷ []) h = ground arith
ident_rest_newline (c ∷ d ∷ s) h = ground (arith, ident_rest_newline (d ∷ s))

IsName-of_re : (name : Text) → ident_re name ≡ true → IsName name
unfolding ident_re
IsName-of_re [] h = cc
IsName-of_re (c ∷ s) h = go (rest_cases s (ground arith))
  where
    first : is_ident_start c ≡ true
    first = ground arith

    go :
        (all is_ident_char s ≡ true)
          ⊎ ((t : Text) × (s ≡ t ++ 10 ∷ []) × (all is_ident_char t ≡ true))
        → IsName (c ∷ s)
    go (inl e) = inl (first, e)
    go (inr (t, e, f)) = inr (c ∷ t, ap (λ z. c ∷ z) e, (first, f))

re_of_IsName : (name : Text) → IsName name → ident_re name ≡ true
unfolding ident_re
re_of_IsName [] (inl h) = absurd h
re_of_IsName (c ∷ s) (inl (h, r)) = rw (h, ident_rest-all s r)
re_of_IsName name (inr ([], e, h)) = absurd h
re_of_IsName name (inr (c ∷ t, e, (h, r))) = rw (e, h, ident_rest_newline t r)

-- `_validate_identifier` returns its argument exactly when that is an identifier or an identifier
-- that a newline follows.
pub validate_identifier_iff : (name : Text) → (validate_identifier name ≡ ok name) ↔ IsName name
unfolding validate_identifier
validate_identifier_iff name =
    (λ h. IsName-of_re name (ground arith), λ n. let e = re_of_IsName name n in rw e)
