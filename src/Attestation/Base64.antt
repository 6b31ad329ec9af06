-- ===== src/Attestation/Base64.antt =====
-- `_b64` and `_b64dec`: base64url without padding, and its strict inverse.
pub mod RoundTrip
use vector_pin.Prelude.{
  ℕ, ◌+◌, ◌-◌, ◌*◌, ◌/◌, ◌%◌, Bool, true, not, ◌&&◌, ◌||◌, [], ◌∷◌, ◌++◌, Option, none, some, map,
  ltb, ◌==◌, if◌then◌else◌, length,
}
use vector_pin.Outcome.{Result, ok, err, Exc, ◌>>=◌, ◌>>◌, raise_if}
use vector_pin.Text.{Text, Bytes, between}
use vector_pin.Text.Equality.{text_eq}

-- The character of a six-bit group, in the URL-safe alphabet.
unfoldable pub url_char : ℕ → ℕ
url_char n =
    if ltb n 26
    then b'A' + n
    else if ltb n 52
    then b'a' + (n - 26)
    else if ltb n 62
    then b'0' + (n - 52)
    else if n == 62
    then b'-'
    else b'_'

-- `base64.urlsafe_b64encode(data).rstrip(b"=").decode("ascii")`
unfoldable pub b64 : Bytes → Text
unfolding url_char
b64 [] = []
b64 (x ∷ []) = url_char (x / 4) ∷ url_char (x % 4 * 16) ∷ []
b64 (x ∷ y ∷ []) = url_char (x / 4) ∷ url_char (x % 4 * 16 + y / 16) ∷ url_char (y % 16 * 4) ∷ []
b64 (x ∷ y ∷ z ∷ r) =
    url_char (x / 4)
    ∷ url_char (x % 4 * 16 + y / 16)
    ∷ url_char (y % 16 * 4 + z / 64)
    ∷ url_char (z % 64)
    ∷ b64 r

-- `[A-Za-z0-9_-]`
abbrev pub is_url_char : ℕ → Bool
is_url_char c =
    between b'A' b'Z' c || between b'a' b'z' c || between b'0' b'9' c || c == b'_' || c == b'-'

-- `_B64URL_RE.match`: `$` also matches before a newline at the end.
unfoldable pub b64url_re : Text → Bool
b64url_re [] = true
b64url_re (c ∷ []) = is_url_char c || c == 10
b64url_re (c ∷ d ∷ s) = is_url_char c && b64url_re (d ∷ s)

-- `_URLSAFE_TO_STD`
unfoldable pub to_std : ℕ → ℕ
to_std c = if c == b'-' then b'+' else if c == b'_' then b'/' else c

-- The six bits of a character of the standard alphabet.
unfoldable pub std_value : ℕ → Option ℕ
std_value c =
    if between b'A' b'Z' c
    then some (c - b'A')
    else if between b'a' b'z' c
    then some (c - b'a' + 26)
    else if between b'0' b'9' c
    then some (c - b'0' + 52)
    else if c == b'+'
    then some 62
    else if c == b'/'
    then some 63
    else none

abbrev pub pad_char : ℕ
pad_char = b'='

infixl 5 ◌>>?◌
abbrev ◌>>?◌ : {A B : Type 0} → Option A → (A → Option B) → Option B
none >>? f = none
some a >>? f = f a

-- The bytes of the last group, which may be padded.
unfoldable pub last_group : ℕ → ℕ → ℕ → ℕ → Option Bytes
unfolding std_value
last_group a b c d = std_value a >>? λ i. std_value b >>? λ j.
    if d == pad_char
    then (if c == pad_char
        then some ((i * 4 + j / 16) ∷ [])
        else (std_value c >>? λ k. some ((i * 4 + j / 16) ∷ (j % 16 * 16 + k / 4) ∷ [])))
    else (std_value c >>? λ k. std_value d >>? λ l.
        some ((i * 4 + j / 16) ∷ (j % 16 * 16 + k / 4) ∷ (k % 4 * 64 + l) ∷ []))

unfoldable pub full_group : ℕ → ℕ → ℕ → ℕ → Option Bytes
unfolding std_value
full_group a b c d = std_value a >>? λ i. std_value b >>? λ j. std_value c >>? λ k.
    std_value d >>? λ l. some ((i * 4 + j / 16) ∷ (j % 16 * 16 + k / 4) ∷ (k % 4 * 64 + l) ∷ [])

-- `base64.b64decode(s, validate=True)` on a text padded to whole groups.
unfoldable pub b64decode : Text → Option Bytes
unfolding last_group full_group
b64decode [] = some []
b64decode (a ∷ b ∷ c ∷ d ∷ []) = last_group a b c d
b64decode (a ∷ b ∷ c ∷ d ∷ e ∷ r) =
    full_group a b c d >>? λ x. b64decode (e ∷ r) >>? λ y. some (x ++ y)
b64decode _ = none

abbrev from_option : {A : Type 0} → Option A → Result A
from_option none = err Exc.value_error
from_option (some a) = ok a

-- `"=" * (-len(s) % 4)`
unfoldable pub padding : ℕ → Text
padding n =
    if n % 4 == 0
    then []
    else if n % 4 == 3
    then pad_char ∷ []
    else if n % 4 == 2
    then pad_char ∷ pad_char ∷ []
    else pad_char ∷ pad_char ∷ pad_char ∷ []

unfoldable pub b64dec : Text → Result Bytes
unfolding b64url_re to_std b64decode padding b64
b64dec s = do
  raise_if (not (b64url_re s)) Exc.value_error
  raise_if (length s % 4 == 1) Exc.value_error
  decoded ← from_option (b64decode (map to_std s ++ padding (length s)))
  raise_if (not (text_eq (b64 decoded) s)) Exc.value_error
  ok decoded
