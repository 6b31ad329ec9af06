-- ===== src/Text.antt =====
-- Python's `str` as a list of code points (a lone surrogate is allowed), `bytes` as a list of
-- numbers, and `str.encode("utf-8")`.
pub mod Equality
pub mod Order
pub mod Sort
pub mod Utf8
pub mod Split
use Prim.Native.Char.{code}
use vector_pin.Prelude.{
  ℕ, ◌+◌, ◌/◌, ◌%◌, String, Bool, ◌&&◌, List, [], ◌∷◌, ◌++◌, ltb, leb, if◌then◌else◌, length, any,
}
use vector_pin.Outcome.{Result, ok, err, Exc}

abbrev pub Text : Type 0
Text = List ℕ

abbrev pub Bytes : Type 0
Bytes = List ℕ

-- The code points of a literal.
abbrev pub codes : String → Text
codes String.[] = []
codes (String.◌∷◌ c s) = code c ∷ codes s

-- `c` in a range of code points, both ends included.
abbrev pub between : ℕ → ℕ → ℕ → Bool
between lo hi c = leb lo c && leb c hi

abbrev pub is_surrogate : ℕ → Bool
is_surrogate c = between 0xD800 0xDFFF c

-- The UTF-8 bytes of one code point.
unfoldable pub utf8_char : ℕ → Bytes
utf8_char c =
    if ltb c 0x80
    then c ∷ []
    else if ltb c 0x800
    then (0xC0 + c / 64) ∷ (0x80 + c % 64) ∷ []
    else if ltb c 0x1_0000
    then (0xE0 + c / 4096) ∷ (0x80 + c / 64 % 64) ∷ (0x80 + c % 64) ∷ []
    else (0xF0 + c / 262144) ∷ (0x80 + c / 4096 % 64) ∷ (0x80 + c / 64 % 64) ∷ (0x80 + c % 64) ∷ []

-- `s.encode("utf-8", errors="surrogatepass")`
unfoldable pub encode_pass : Text → Bytes
unfolding utf8_char
encode_pass [] = []
encode_pass (c ∷ s) = utf8_char c ++ encode_pass s

-- `s.encode("utf-8")`, which raises `UnicodeEncodeError` at a lone surrogate.
unfoldable pub encode_utf8 : Text → Result Bytes
unfolding encode_pass
encode_utf8 s = if any is_surrogate s then err Exc.unicode_encode_error else ok (encode_pass s)
