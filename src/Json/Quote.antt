-- ===== src/Json/Quote.antt =====
-- `json.dumps` of strings with ensure_ascii=False: what the quoted text says of the string.
use vector_pin.Prelude.{
  ℕ, ◌+◌, ◌-◌, ◌*◌, ◌<◌, ◌≡◌, refl, ap, ap₂, sym, ◌∙◌, [], ◌∷◌, ◌++◌, append_assoc, arith, Option,
  none, some, if◌then◌else◌, ◌==◌, ltb, ◌/◌, ◌%◌,
}
use vector_pin.Text.{Text}
use vector_pin.Json.{quote_mark, hex_digit, unicode_escape, escape_char, raw_unicode, escape, quote}

hex_value : ℕ → ℕ
hex_value c = if ltb c 58 then c - 48 else c - 87

hex_value-hex_digit : (n : ℕ) → n < 16 → hex_value (hex_digit n) ≡ n
unfolding hex_value hex_digit
hex_value-hex_digit n h = ground arith

-- The inverse of one escape: the character, and what follows.
read_hex : Text → Option (ℕ × Text)
read_hex (a ∷ b ∷ c ∷ d ∷ s) =
    some (((hex_value a * 16 + hex_value b) * 16 + hex_value c) * 16 + hex_value d, s)
read_hex _ = none

read_escape : Text → Option (ℕ × Text)
read_escape [] = none
read_escape (k ∷ s) =
    if k == quote_mark
    then some (quote_mark, s)
    else if k == b'\\'
    then some (b'\\', s)
    else if k == b'b'
    then some (8, s)
    else if k == b'f'
    then some (12, s)
    else if k == b'n'
    then some (10, s)
    else if k == b'r'
    then some (13, s)
    else if k == b't'
    then some (9, s)
    else read_hex s

read_char : Text → Option (ℕ × Text)
read_char [] = none
read_char (c ∷ s) = if c == b'\\' then read_escape s else some (c, s)

read_hex-control : (c : ℕ) (x : Text) → c < 0x20 → read_char (unicode_escape c ++ x) ≡ some (c, x)
unfolding read_char read_escape read_hex unicode_escape
read_hex-control c x h =
    ap (λ (n : ℕ). some (n, x))
      (omega (
        arith,
        hex_value-hex_digit (c / 4096 % 16) (omega arith),
        hex_value-hex_digit (c / 256 % 16) (omega arith),
        hex_value-hex_digit (c / 16 % 16) (omega arith),
        hex_value-hex_digit (c % 16) (omega arith),
      ))

read_char-escape_char :
    (c : ℕ) (x : Text) → read_char (escape_char raw_unicode c ++ x) ≡ some (c, x)
unfolding read_char read_escape escape_char
read_char-escape_char c x = ground (arith, read_hex-control c x)

some-pair :
    {c d : ℕ} {x y : Text}
    → ◌≡◌ {A = Option (ℕ × Text)} (some (c, x)) (some (d, y))
    → (c ≡ d) × (x ≡ y)
some-pair h = ground arith

escape_char-append_injective :
    (c d : ℕ) (x y : Text)
    → escape_char raw_unicode c ++ x ≡ escape_char raw_unicode d ++ y
    → (c ≡ d) × (x ≡ y)
escape_char-append_injective c d x y h =
    some-pair (sym (read_char-escape_char c x) ∙ ap read_char h ∙ read_char-escape_char d y)

escape_char-ne_quote : (c : ℕ) (x y : Text) → escape_char raw_unicode c ++ x ≡ quote_mark ∷ y → ⊥
unfolding escape_char unicode_escape
escape_char-ne_quote c x y h = ground arith

escape-append_injective :
    (s t x y : Text)
    → escape raw_unicode s ++ quote_mark ∷ x ≡ escape raw_unicode t ++ quote_mark ∷ y
    → (s ≡ t) × (x ≡ y)
unfolding escape
escape-append_injective [] [] x y h = (refl, cc)
escape-append_injective [] (d ∷ t) x y h = absurd (
    escape_char-ne_quote d (escape raw_unicode t ++ quote_mark ∷ y) x
      (sym (append_assoc (escape_char raw_unicode d) _ _) ∙ sym h))
escape-append_injective (c ∷ s) [] x y h = absurd (
    escape_char-ne_quote c (escape raw_unicode s ++ quote_mark ∷ x) y
      (sym (append_assoc (escape_char raw_unicode c) _ _) ∙ h))
escape-append_injective (c ∷ s) (d ∷ t) x y h =
    let (e, r) =
      escape_char-append_injective c d (escape raw_unicode s ++ quote_mark ∷ x)
        (escape raw_unicode t ++ quote_mark ∷ y)
        (sym (append_assoc (escape_char raw_unicode c) _ _)
          ∙ h
          ∙ append_assoc (escape_char raw_unicode d) _ _) in
    let (f, z) = escape-append_injective s t x y r in (ap₂ ◌∷◌ e f, z)

tail_eq : {c d : ℕ} {x y : Text} → c ∷ x ≡ d ∷ y → x ≡ y
tail_eq h = ground arith

pub quote-append_injective :
    (s t x y : Text) → quote raw_unicode s ++ x ≡ quote raw_unicode t ++ y → (s ≡ t) × (x ≡ y)
unfolding quote
quote-append_injective s t x y h = escape-append_injective s t x y (
    sym (append_assoc (escape raw_unicode s) _ _)
    ∙ tail_eq h
    ∙ append_assoc (escape raw_unicode t) _ _)
