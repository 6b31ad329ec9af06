-- ===== src/Adapters/Sql/Literals.antt =====
-- `_id_predicate` of src/vectorpin/adapters/lancedb.py, read back by a lexer of SQL string literals.
use vector_pin.Prelude.{
  ℕ, ◌≡◌, refl, sym, ◌∙◌, Bool, true, false, [], ◌∷◌, ◌++◌, Option, none, some, ◌==◌, if◌then◌else◌,
  arith, any, append_assoc,
}
use vector_pin.Outcome.{ok, >>=-eq-ok, ok-injective}
use vector_pin.Text.{Text, codes}
use vector_pin.Adapters.Sql.{
  validate_identifier, validate_record_id, double_quotes, id_predicate, quote_char, is_forbidden,
  ident_re,
}

abbrev prepend : ℕ → Option (Text × Text) → Option (Text × Text)
prepend c none = none
prepend c (some (value, rest)) = some (c ∷ value, rest)

-- The value of a SQL string literal whose opening quote has been read, and what stands behind its
-- closing quote: two quotes stand for one, and a single one ends the literal. The flag is set
-- behind a quote.
read : Bool → Text → Option (Text × Text)
read false [] = none
read true [] = some ([], [])
read false (c ∷ s) =
    let ended = read true s in
    let more = read false s in if c == quote_char then ended else prepend c more
read true (c ∷ s) =
    let more = read false s in if c == quote_char then prepend quote_char more else some ([], c ∷ s)

pub read_literal : Text → Option (Text × Text)
read_literal = read false

read-double_quotes : (s : Text) → read false (double_quotes s ++ quote_char ∷ []) ≡ some (s, [])
unfolding read double_quotes
read-double_quotes [] = refl
read-double_quotes (c ∷ s) = ground (arith, read-double_quotes s)

-- A predicate that `_id_predicate` returns is the column, an equals sign and one string literal
-- that denotes the record id, with nothing behind it, and the column matches the identifier
-- expression: no record id ends the literal early.
pub id_predicate_literal :
    (column rid predicate : Text)
    → id_predicate column rid ≡ ok predicate
    → (ident_re column ≡ true)
      × (any is_forbidden rid ≡ false)
      × ((literal : Text) × (predicate ≡ column ++ codes " = '" ++ literal)
          × (read_literal literal ≡ some (rid, [])))
unfolding id_predicate read_literal
id_predicate_literal column rid predicate h =
    let (c, e, h) = >>=-eq-ok (validate_identifier column) _ h in
    let (r, f, h) = >>=-eq-ok (validate_record_id rid) _ h in
    (
      ground arith,
      ground arith,
      (
        double_quotes rid ++ quote_char ∷ [],
        sym (ok-injective h) ∙ append_assoc (column ++ codes " = '") (double_quotes rid) _,
        read-double_quotes rid,
      ),
    )
