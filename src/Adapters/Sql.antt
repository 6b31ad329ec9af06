-- ===== src/Adapters/Sql.antt =====
-- The SQL texts that src/vectorpin/adapters/pgvector.py and src/vectorpin/adapters/lancedb.py build,
-- and the checks on what they put into them.
pub mod Literals
pub mod Identifiers
use vector_pin.Prelude.{
  ℕ, Bool, true, false, not, ◌&&◌, ◌||◌, List, [], ◌∷◌, ◌++◌, ◌==◌, if◌then◌else◌, any,
}
use vector_pin.Outcome.{Result, Checked, ok, err, Exc, ◌>>=◌, ◌>>◌, raise_if}
use vector_pin.Text.{Text, codes, between}

-- `[A-Za-z_]` and `[A-Za-z0-9_]`
abbrev pub is_ident_start : ℕ → Bool
is_ident_start c = between b'A' b'Z' c || between b'a' b'z' c || c == b'_'

abbrev pub is_ident_char : ℕ → Bool
is_ident_char c = is_ident_start c || between b'0' b'9' c

-- `[A-Za-z0-9_]*$`: `$` also matches before a newline at the end.
unfoldable pub ident_rest : Text → Bool
ident_rest [] = true
ident_rest (c ∷ []) = is_ident_char c || c == 10
ident_rest (c ∷ d ∷ s) = is_ident_char c && ident_rest (d ∷ s)

-- `_IDENT_RE.match(s)`, the same expression in both modules
unfoldable pub ident_re : Text → Bool
unfolding ident_rest
ident_re [] = false
ident_re (c ∷ s) = is_ident_start c && ident_rest s

-- `_validate_identifier` of pgvector.py, `_validate_column_name` of lancedb.py
unfoldable pub validate_identifier : Text → Result Text
unfolding ident_re
validate_identifier name = if ident_re name then ok name else err Exc.value_error

-- NUL, newline, carriage return and backslash
abbrev pub is_forbidden : ℕ → Bool
is_forbidden c = c == 0 || c == 10 || c == 13 || c == 92

-- `_validate_record_id`
unfoldable pub validate_record_id : Text → Result Text
validate_record_id rid = if any is_forbidden rid then err Exc.value_error else ok rid

abbrev pub quote_char : ℕ
quote_char = 39

-- `s.replace("'", "''")`
unfoldable pub double_quotes : Text → Text
double_quotes [] = []
double_quotes (c ∷ s) =
    if c == quote_char then quote_char ∷ quote_char ∷ double_quotes s else c ∷ double_quotes s

-- `_id_predicate`
unfoldable pub id_predicate : Text → Text → Result Text
unfolding validate_identifier validate_record_id double_quotes
id_predicate column record_id = do
  validate_identifier column >>= λ _. validate_record_id record_id >>= λ _.
      ok (column ++ codes " = '" ++ double_quotes record_id ++ quote_char ∷ [])

-- The columns and the table of a `PgVectorAdapter`.
pub record PgTable : Type 0 where
  pub table : Text
  pub id : Text
  pub vec : Text
  pub pin : Text

-- `PgVectorAdapter.__init__`
unfoldable pub pg_table : Text → Text → Text → Text → Result PgTable
unfolding validate_identifier
pg_table table id vec pin = do
  table ← validate_identifier table
  id ← validate_identifier id
  vec ← validate_identifier vec
  pin ← validate_identifier pin
  ok (record { table = table; id = id; vec = vec; pin = pin })

-- A name between double quotes.
abbrev pub quoted : Text → Text
quoted name = b'"' ∷ (name ++ b'"' ∷ [])

abbrev select_from : PgTable → Text
select_from t =
    codes "SELECT "
    ++ quoted t.id
    ++ codes ", "
    ++ quoted t.vec
    ++ codes ", "
    ++ quoted t.pin
    ++ codes " FROM "
    ++ quoted t.table

-- The statements of `iter_records`, `get` and `attach_pin`
unfoldable pub select_all : PgTable → Text
select_all t = select_from t ++ codes " ORDER BY " ++ quoted t.id

unfoldable pub select_one : PgTable → Text
select_one t = select_from t ++ codes " WHERE " ++ quoted t.id ++ codes " = %s"

unfoldable pub update_pin : PgTable → Text
update_pin t =
    codes "UPDATE "
    ++ quoted t.table
    ++ codes " SET "
    ++ quoted t.pin
    ++ codes " = %s::jsonb WHERE "
    ++ quoted t.id
    ++ codes " = %s"
