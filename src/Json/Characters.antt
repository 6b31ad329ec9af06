-- ===== src/Json/Characters.antt =====
-- The characters of `json.dumps`: a set with the printable ASCII ones and what the strings are
-- written with has them all.
use vector_pin.Prelude.{
  ℕ, zero, suc, ◌+◌, ◌/◌, ◌%◌, ◌<◌, ◌≡◌, refl, ◌∙◌, Bool, true, false, ◌||◌, ◌&&◌, List, [], ◌∷◌,
  ◌++◌, ltb, leb, ◌==◌, if◌then◌else◌, ℤ, pos, negsuc, all, all-append, All, arith,
}
use vector_pin.Text.{Text, codes}
use vector_pin.Text.Sort.{sort_by}
use vector_pin.Text.Sort.Keeps.{All-sort_by}
use vector_pin.Json.{
  Json, Items, Fields, null, bool, int, float, str, arr, obj, nil, cons, end, field, quote_mark,
  hex_digit, unicode_escape, escape_char, escape, quote, digits_from, decimal, int_text, join_comma,
  members, object_text, dumps, dumps_items, dumps_fields,
}

-- The printable ASCII characters.
abbrev pub is_printable : ℕ → Bool
is_printable c = leb 0x20 c && ltb c 0x7F

hex_digit-is_printable : (n : ℕ) → n < 16 → is_printable (hex_digit n) ≡ true
unfolding hex_digit
hex_digit-is_printable n h = ground arith

pub unicode_escape-printable : (c : ℕ) → all is_printable (unicode_escape c) ≡ true
unfolding unicode_escape
unicode_escape-printable c =
    rw
      (
        hex_digit-is_printable (c / 4096 % 16) (omega arith),
        hex_digit-is_printable (c / 256 % 16) (omega arith),
        hex_digit-is_printable (c / 16 % 16) (omega arith),
        hex_digit-is_printable (c % 16) (omega arith),
      )
      refl

digits_from-printable : (f n : ℕ) → all is_printable (digits_from f n) ≡ true
unfolding digits_from
digits_from-printable zero n = refl
digits_from-printable (suc f) n = by_last (ltb n 10) refl (digits_from-printable f (n / 10))
  where
    by_last :
        (b : Bool)
        → ltb n 10 ≡ b
        → all is_printable (digits_from f (n / 10)) ≡ true
        → all is_printable
            (if b then (b'0' + n) ∷ [] else digits_from f (n / 10) ++ (b'0' + n % 10) ∷ [])
          ≡ true
    by_last true e ih = ground arith
    by_last false e ih =
        all-append is_printable (digits_from f (n / 10)) ((b'0' + n % 10) ∷ []) ∙ ground arith

int_text-printable : (n : ℤ) → all is_printable (int_text n) ≡ true
unfolding int_text decimal
int_text-printable (pos n) = digits_from-printable (suc n) n
int_text-printable (negsuc n) = digits_from-printable (suc (suc n)) (suc n)

module _ (q : ℕ → Bool) (plain : (c : ℕ) → is_printable c ≡ true → q c ≡ true) where
  -- Every character is in the set.
  abbrev pub Within : Text → Type 0
  Within s = all q s ≡ true

  pub Within-append : (s t : Text) → Within s → Within t → Within (s ++ t)
  Within-append s t h k = all-append q s t ∙ ground arith

  printable-Within : (s : Text) → all is_printable s ≡ true → Within s
  printable-Within [] h = refl
  printable-Within (c ∷ s) h = ground (arith, plain c, printable-Within s)

  Within-cons : (c : ℕ) (s : Text) → is_printable c ≡ true → Within s → Within (c ∷ s)
  Within-cons c s h k = rw (plain c h) k

  Within-if :
      (b : Bool) (s t : Text)
      → all is_printable s ≡ true
      → (b ≡ false → Within t)
      → Within (if b then s else t)
  Within-if true s t h k = printable-Within s h
  Within-if false s t h k = k refl

  join_comma-Within : (l : List Text) → All Within l → Within (join_comma l)
  unfolding join_comma
  join_comma-Within [] a = refl
  join_comma-Within (x ∷ []) a = a.0
  join_comma-Within (x ∷ y ∷ r) a =
      Within-append x (b',' ∷ join_comma (y ∷ r)) a.0
        (Within-cons b',' (join_comma (y ∷ r)) refl (join_comma-Within (y ∷ r) a.1))

  module _ (raw : ℕ → Text) where
    -- Every character of the string that is not a control is written within the set.
    abbrev pub Writes : Text → Type 0
    Writes s = all (λ c. ltb c 0x20 || all q (raw c)) s ≡ true

    escape_char-Within : (c : ℕ) → (ltb c 0x20 || all q (raw c)) ≡ true → Within (escape_char raw c)
    unfolding escape_char
    escape_char-Within c h = Within-if (c == quote_mark) (b'\\' ∷ quote_mark ∷ []) _ refl (λ _.
        Within-if (c == b'\\') (b'\\' ∷ b'\\' ∷ []) _ refl (λ _.
          Within-if (c == 8) (b'\\' ∷ b'b' ∷ []) _ refl (λ _.
            Within-if (c == 12) (b'\\' ∷ b'f' ∷ []) _ refl (λ _.
              Within-if (c == 10) (b'\\' ∷ b'n' ∷ []) _ refl (λ _.
                Within-if (c == 13) (b'\\' ∷ b'r' ∷ []) _ refl (λ _.
                  Within-if (c == 9) (b'\\' ∷ b't' ∷ []) _ refl (λ _.
                    Within-if (ltb c 0x20) (unicode_escape c) (raw c) (unicode_escape-printable c)
                      (λ e. ground arith))))))))

    escape-Within : (s : Text) → Writes s → Within (escape raw s)
    unfolding escape
    escape-Within [] h = refl
    escape-Within (c ∷ s) h =
        Within-append (escape_char raw c) (escape raw s) (escape_char-Within c (ground arith))
          (escape-Within s (ground arith))

    quote-Within : (s : Text) → Writes s → Within (quote raw s)
    unfolding quote
    quote-Within s h = Within-cons quote_mark (escape raw s ++ quote_mark ∷ []) refl (
        Within-append (escape raw s) (quote_mark ∷ []) (escape-Within s h)
          (Within-cons quote_mark [] refl refl))

    -- A member with a key that is written, and a value that is.
    abbrev MemberWithin : Text × Text → Type 0
    MemberWithin (k, v) = Writes k × Within v

    members-Within : (m : List (Text × Text)) → All MemberWithin m → All Within (members raw m)
    unfolding members
    members-Within [] a = tt
    members-Within ((k, v) ∷ m) a = (
      Within-append (quote raw k) (b':' ∷ v) (quote-Within k a.0.0) (Within-cons b':' v refl a.0.1),
      members-Within m a.1,
    )

    object_text-Within : (m : List (Text × Text)) → All MemberWithin m → Within (object_text raw m)
    unfolding object_text
    object_text-Within m a =
        Within-cons b'{' (join_comma (members raw (sort_by (λ e. e.0) m)) ++ b'}' ∷ []) refl (
          Within-append (join_comma (members raw (sort_by (λ e. e.0) m))) (b'}' ∷ [])
            (join_comma-Within (members raw (sort_by (λ e. e.0) m))
              (members-Within (sort_by (λ e. e.0) m) (All-sort_by (λ e. e.0) MemberWithin m a)))
            (Within-cons b'}' [] refl refl))

    -- Every string of a value is written, and every float of it.
    unfoldable mutual
      pub Clean : Json → Type 0
      Clean null = Unit
      Clean (bool b) = Unit
      Clean (int n) = Unit
      Clean (float t) = Within t
      Clean (str s) = Writes s
      Clean (arr xs) = CleanItems xs
      Clean (obj fs) = CleanFields fs

      pub CleanItems : Items → Type 0
      CleanItems nil = Unit
      CleanItems (cons x xs) = Clean x × CleanItems xs

      pub CleanFields : Fields → Type 0
      CleanFields end = Unit
      CleanFields (field k v fs) = Writes k × Clean v × CleanFields fs

    mutual
      unfolding dumps Clean

      pub dumps-Within : (j : Json) → Clean j → Within (dumps raw j)
      dumps-Within null a = printable-Within (codes "null") refl
      dumps-Within (bool true) a = printable-Within (codes "true") refl
      dumps-Within (bool false) a = printable-Within (codes "false") refl
      dumps-Within (int n) a = printable-Within (int_text n) (int_text-printable n)
      dumps-Within (float t) a = a
      dumps-Within (str s) a = quote-Within s a
      dumps-Within (arr xs) a =
          Within-cons b'[' (join_comma (dumps_items raw xs) ++ b']' ∷ []) refl (
            Within-append (join_comma (dumps_items raw xs)) (b']' ∷ [])
              (join_comma-Within (dumps_items raw xs) (dumps_items-Within xs a))
              (Within-cons b']' [] refl refl))
      dumps-Within (obj fs) a = object_text-Within (dumps_fields raw fs) (dumps_fields-Within fs a)

      dumps_items-Within : (xs : Items) → CleanItems xs → All Within (dumps_items raw xs)
      dumps_items-Within nil a = tt
      dumps_items-Within (cons x xs) a = (dumps-Within x a.0, dumps_items-Within xs a.1)

      dumps_fields-Within : (fs : Fields) → CleanFields fs → All MemberWithin (dumps_fields raw fs)
      dumps_fields-Within end a = tt
      dumps_fields-Within (field k v fs) (h, c, a) =
          ((h, dumps-Within v c), dumps_fields-Within fs a)
