-- ===== src/Json/Decimal.antt =====
-- `json.dumps` of integers: what the digits say of the number.
use vector_pin.Prelude.{
  ℕ, zero, suc, ◌+◌, ◌-◌, ◌*◌, ◌/◌, ◌%◌, ◌<◌, ◌≡◌, ◌≢◌, refl, ap, sym, ◌∙◌, Bool, true, false, [],
  ◌∷◌, ◌++◌, arith, all, all-append, ℤ, pos, negsuc,
}
use vector_pin.Text.{Text, between}
use vector_pin.Json.{digits_from, decimal, int_text}

abbrev pub is_digit : ℕ → Bool
is_digit c = between b'0' b'9' c

-- The number that some digits spell, behind a number that is spelled already.
value_from : ℕ → Text → ℕ
value_from acc [] = acc
value_from acc (c ∷ s) = value_from (acc * 10 + (c - b'0')) s

append-ne_nil : (s : Text) (c : ℕ) (t : Text) → s ++ c ∷ t ≢ []
append-ne_nil [] c t h = cc
append-ne_nil (d ∷ s) c t h = cc

value_from-append :
    (acc : ℕ) (s t : Text) → value_from acc (s ++ t) ≡ value_from (value_from acc s) t
unfolding value_from
value_from-append acc [] t = refl
value_from-append acc (c ∷ s) t = value_from-append (acc * 10 + (c - b'0')) s t

digits_from-all : (f n : ℕ) → all is_digit (digits_from f n) ≡ true
unfolding digits_from
digits_from-all zero n = refl
digits_from-all (suc f) n = ground (
  arith,
  digits_from-all f (n / 10),
  all-append is_digit (digits_from f (n / 10)) ((b'0' + n % 10) ∷ []),
)

value_from-digits_from : (f n : ℕ) → n < f → value_from 0 (digits_from f n) ≡ n
unfolding digits_from value_from
value_from-digits_from zero n h = absurd (omega arith)
value_from-digits_from (suc f) n h = ground (
  arith,
  value_from-digits_from f (n / 10),
  value_from-append 0 (digits_from f (n / 10)) ((b'0' + n % 10) ∷ []),
)

-- A decimal has at least one digit.
decimal-ne_nil : (n : ℕ) → decimal n ≢ []
unfolding decimal digits_from
decimal-ne_nil n h = ground (arith, append-ne_nil (digits_from n (n / 10)) (b'0' + n % 10) [])

-- A text that does not begin with a digit.
abbrev pub NoDigit : Text → Type 0
NoDigit [] = Unit
NoDigit (c ∷ s) = is_digit c ≡ false

-- Digits in front of such texts are told apart.
digits_split :
    (s t x y : Text)
    → all is_digit s ≡ true
    → all is_digit t ≡ true
    → NoDigit x
    → NoDigit y
    → s ++ x ≡ t ++ y
    → (s ≡ t) × (x ≡ y)
digits_split [] [] x y ds dt nx ny h = (refl, h)
digits_split [] (d ∷ t) [] y ds dt nx ny h = cc
digits_split [] (d ∷ t) (c ∷ x) y ds dt nx ny h = ground arith
digits_split (c ∷ s) [] x [] ds dt nx ny h = cc
digits_split (c ∷ s) [] x (d ∷ y) ds dt nx ny h = ground arith
digits_split (c ∷ s) (d ∷ t) x y ds dt nx ny h = ground (arith, digits_split s t x y)

pub decimal-append_injective :
    (m n : ℕ) (x y : Text)
    → NoDigit x
    → NoDigit y
    → decimal m ++ x ≡ decimal n ++ y
    → (m ≡ n) × (x ≡ y)
unfolding decimal
decimal-append_injective m n x y nx ny h =
    let (e, r) =
      digits_split (decimal m) (decimal n) x y (digits_from-all (suc m) m)
        (digits_from-all (suc n) n) nx ny h in
    (
      sym (value_from-digits_from (suc m) m (omega arith))
          ∙ ap (value_from 0) e
          ∙ value_from-digits_from (suc n) n (omega arith),
      r,
    )

tail_eq : {c d : ℕ} {x y : Text} → c ∷ x ≡ d ∷ y → x ≡ y
tail_eq h = ground arith

-- A decimal begins with a digit.
pub decimal-ne_char : (n c : ℕ) (x y : Text) → is_digit c ≡ false → decimal n ++ x ≡ c ∷ y → ⊥
unfolding decimal
decimal-ne_char n c x y nc h =
    head_digit (decimal n) x y (digits_from-all (suc n) n) (decimal-ne_nil n) h
  where
    head_digit : (s x y : Text) → all is_digit s ≡ true → s ≢ [] → s ++ x ≡ c ∷ y → ⊥
    head_digit [] x y ds ne h = ne refl
    head_digit (d ∷ s) x y ds ne h = ground arith

-- An integer begins with a digit or a minus sign.
pub int_text-ne_char :
    (n : ℤ) (c : ℕ) (x y : Text) → is_digit c ≡ false → c ≢ b'-' → int_text n ++ x ≡ c ∷ y → ⊥
unfolding int_text
int_text-ne_char (pos n) c x y nc ne h = decimal-ne_char n c x y nc h
int_text-ne_char (negsuc n) c x y nc ne h = ground arith

pub int_text-append_injective :
    (m n : ℤ) (x y : Text)
    → NoDigit x
    → NoDigit y
    → int_text m ++ x ≡ int_text n ++ y
    → (m ≡ n) × (x ≡ y)
unfolding int_text
int_text-append_injective (pos m) (pos n) x y nx ny h =
    let (e, r) = decimal-append_injective m n x y nx ny h in (ap pos e, r)
int_text-append_injective (negsuc m) (negsuc n) x y nx ny h =
    let (e, r) = decimal-append_injective (suc m) (suc n) x y nx ny (tail_eq h) in
    (ap negsuc (omega (arith, e)), r)
int_text-append_injective (pos m) (negsuc n) x y nx ny h =
    absurd (decimal-ne_char m b'-' x (decimal (suc n) ++ y) refl h)
int_text-append_injective (negsuc m) (pos n) x y nx ny h =
    absurd (decimal-ne_char n b'-' y (decimal (suc m) ++ x) refl (sym h))
