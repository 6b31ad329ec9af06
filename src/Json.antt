-- ===== src/Json.antt =====
-- JSON values, and `json.dumps(value, sort_keys=True, separators=(",", ":"))`.
pub mod Quote
pub mod Decimal
pub mod Objects
pub mod Characters
use vector_pin.Prelude.{
  ℕ, zero, suc, ◌+◌, ◌-◌, ◌/◌, ◌%◌, Bool, true, false, ◌||◌, ◌&&◌, List, [], ◌∷◌, ◌++◌, ltb, leb,
  ◌==◌, if◌then◌else◌, ℤ, pos, negsuc,
}
use vector_pin.Text.{Text, codes}
use vector_pin.Text.Sort.{sort_by}

-- What `json.loads` returns, and what `json.dumps` is given. A float is the text that it prints.
mutual
  pub data Json : Type 0 where
    null : Json
    bool : Bool → Json
    int : ℤ → Json
    float : Text → Json
    str : Text → Json
    arr : Items → Json
    obj : Fields → Json

  pub data Items : Type 0 where
    nil : Items
    cons : Json → Items → Items

  pub data Fields : Type 0 where
    end : Fields
    field : Text → Json → Fields → Fields

abbrev pub quote_mark : ℕ
quote_mark = b'"'

-- A hexadecimal digit, lower case.
unfoldable pub hex_digit : ℕ → ℕ
hex_digit n = if ltb n 10 then b'0' + n else 87 + n

-- `\uXXXX`
unfoldable pub unicode_escape : ℕ → Text
unfolding hex_digit
unicode_escape c =
    b'\\'
    ∷ b'u'
    ∷ hex_digit (c / 4096 % 16)
    ∷ hex_digit (c / 256 % 16)
    ∷ hex_digit (c / 16 % 16)
    ∷ hex_digit (c % 16)
    ∷ []

-- The escape of a character that `json` never writes raw; the rest is left to `raw`.
unfoldable pub escape_char : (ℕ → Text) → ℕ → Text
escape_char raw c =
    if c == quote_mark
    then b'\\' ∷ quote_mark ∷ []
    else if c == b'\\'
    then b'\\' ∷ b'\\' ∷ []
    else if c == 8
    then b'\\' ∷ b'b' ∷ []
    else if c == 12
    then b'\\' ∷ b'f' ∷ []
    else if c == 10
    then b'\\' ∷ b'n' ∷ []
    else if c == 13
    then b'\\' ∷ b'r' ∷ []
    else if c == 9
    then b'\\' ∷ b't' ∷ []
    else if ltb c 0x20
    then unicode_escape c
    else raw c

-- `ensure_ascii=False`
abbrev pub raw_unicode : ℕ → Text
raw_unicode c = c ∷ []

-- `ensure_ascii=True`, with a surrogate pair beyond the basic plane
unfoldable pub raw_ascii : ℕ → Text
unfolding unicode_escape
raw_ascii c =
    if ltb c 0x7F
    then c ∷ []
    else if ltb c 0x1_0000
    then unicode_escape c
    else unicode_escape (0xD800 + (c - 0x1_0000) / 1024 % 1024)
      ++ unicode_escape (0xDC00 + (c - 0x1_0000) % 1024)

unfoldable pub escape : (ℕ → Text) → Text → Text
escape raw [] = []
escape raw (c ∷ s) = escape_char raw c ++ escape raw s

unfoldable pub quote : (ℕ → Text) → Text → Text
unfolding escape
quote raw s = quote_mark ∷ (escape raw s ++ quote_mark ∷ [])

-- Decimal digits, on fuel that exceeds the number.
unfoldable pub digits_from : ℕ → ℕ → Text
digits_from zero n = []
digits_from (suc f) n =
    let front = digits_from f (n / 10) in
    if ltb n 10 then (b'0' + n) ∷ [] else front ++ (b'0' + n % 10) ∷ []

unfoldable pub decimal : ℕ → Text
unfolding digits_from
decimal n = digits_from (suc n) n

unfoldable pub int_text : ℤ → Text
unfolding decimal
int_text (pos n) = decimal n
int_text (negsuc n) = b'-' ∷ decimal (suc n)

unfoldable pub join_comma : List Text → Text
join_comma [] = []
join_comma (x ∷ []) = x
join_comma (x ∷ y ∷ r) = x ++ b',' ∷ join_comma (y ∷ r)

unfoldable pub members : (ℕ → Text) → List (Text × Text) → List Text
unfolding quote
members raw [] = []
members raw ((k, v) ∷ m) = (quote raw k ++ b':' ∷ v) ∷ members raw m

-- `{...}` with the members in the order of their keys
unfoldable pub object_text : (ℕ → Text) → List (Text × Text) → Text
unfolding join_comma members sort_by
object_text raw m = b'{' ∷ (join_comma (members raw (sort_by (λ e. e.0) m)) ++ b'}' ∷ [])

unfoldable mutual
  unfolding object_text int_text quote join_comma

  pub dumps : (ℕ → Text) → Json → Text
  dumps raw null = codes "null"
  dumps raw (bool true) = codes "true"
  dumps raw (bool false) = codes "false"
  dumps raw (int n) = int_text n
  dumps raw (float t) = t
  dumps raw (str s) = quote raw s
  dumps raw (arr xs) = b'[' ∷ (join_comma (dumps_items raw xs) ++ b']' ∷ [])
  dumps raw (obj fs) = object_text raw (dumps_fields raw fs)

  pub dumps_items : (ℕ → Text) → Items → List Text
  dumps_items raw nil = []
  dumps_items raw (cons x xs) = dumps raw x ∷ dumps_items raw xs

  pub dumps_fields : (ℕ → Text) → Fields → List (Text × Text)
  dumps_fields raw end = []
  dumps_fields raw (field k v fs) = (k, dumps raw v) ∷ dumps_fields raw fs
