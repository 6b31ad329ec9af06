-- ===== src/Text/Split.antt =====
-- `str.split`, `str.rsplit`, `str.strip`, `str.lower` and `str.startswith`, as the adapters call
-- them.
use vector_pin.Prelude.{
  ℕ, ◌+◌, Bool, true, false, ◌&&◌, ◌||◌, List, [], ◌∷◌, ◌++◌, Option, none, some, ◌==◌,
  if◌then◌else◌,
}
use vector_pin.Text.{Text, between}

-- `s.startswith(t)`
unfoldable pub starts_with : Text → Text → Bool
starts_with [] s = true
starts_with (c ∷ t) [] = false
starts_with (c ∷ t) (d ∷ s) = c == d && starts_with t s

-- What follows `t` in front of `s`.
unfoldable pub after_prefix : Text → Text → Option Text
after_prefix [] s = some s
after_prefix (c ∷ t) [] = none
after_prefix (c ∷ t) (d ∷ s) = if c == d then after_prefix t s else none

-- `s.split(t, 1)[1] if t in s else s`, for a `t` that is not empty
unfoldable pub after_first : Text → Text → Text
unfolding after_prefix
after_first t s = go s s
  where
    go : Text → Text → Text
    go whole [] = whole
    go whole (c ∷ r) = elim (after_prefix t (c ∷ r)) [ some rest ↦ rest | none ↦ go whole r ]

-- `s.split(c, 1)[0]`
unfoldable pub before_first : ℕ → Text → Text
before_first c [] = []
before_first c (d ∷ s) = if d == c then [] else d ∷ before_first c s

unfoldable pub has_char : ℕ → Text → Bool
has_char c [] = false
has_char c (d ∷ s) = d == c || has_char c s

-- `s.rsplit(c, 1)[0]`
unfoldable pub before_last : ℕ → Text → Text
unfolding has_char
before_last c [] = []
before_last c (d ∷ s) =
    if d == c && (if has_char c s then false else true) then [] else d ∷ before_last c s

-- `s.split(c)`
unfoldable pub split_on : ℕ → Text → List Text
split_on c s = go [] s
  where
    go : Text → Text → List Text
    go word [] = word ∷ []
    go word (d ∷ r) = if d == c then word ∷ go [] r else go (word ++ d ∷ []) r

-- `s.strip()`, of the characters that a test holds of
unfoldable pub lstrip : (ℕ → Bool) → Text → Text
lstrip p [] = []
lstrip p (c ∷ s) = if p c then lstrip p s else c ∷ s

unfoldable pub rstrip : (ℕ → Bool) → Text → Text
rstrip p [] = []
rstrip p (c ∷ s) = elim (rstrip p s) [ [] ↦ if p c then [] else c ∷ [] | d ∷ r ↦ c ∷ d ∷ r ]

unfoldable pub strip : (ℕ → Bool) → Text → Text
unfolding lstrip rstrip
strip p s = rstrip p (lstrip p s)

-- `s.partition(c)`, without the separator: `none` is a text that does not hold it.
unfoldable pub partition : ℕ → Text → Option (Text × Text)
partition c [] = none
partition c (d ∷ s) =
    let more = partition c s in
    if d == c then some ([], s) else elim more [ none ↦ none | some (a, b) ↦ some (d ∷ a, b) ]

abbrev pub is_bracket : ℕ → Bool
is_bracket c = c == b'[' || c == b']'

-- `s.lower()`, on ASCII. No other character lowers to a letter of the words that the results are
-- compared with.
unfoldable pub lower : Text → Text
lower [] = []
lower (c ∷ s) = (if between b'A' b'Z' c then c + 32 else c) ∷ lower s
