-- ===== src/Attestation/Pattern.antt =====
-- The regular expressions of attestation.py, and the calendar check of a timestamp.
use vector_pin.Prelude.{
  ℕ, zero, suc, ◌+◌, ◌-◌, ◌*◌, ◌%◌, Bool, true, false, not, ◌&&◌, ◌||◌, [], ◌∷◌, Option, none, some,
  leb, ◌==◌, if◌then◌else◌,
}
use vector_pin.Outcome.{Checked, Exc, raise_if}
use vector_pin.Text.{Text, between, codes}
use vector_pin.Json.Decimal.{is_digit}

infixl 5 ◌>>=◌
abbrev pub ◌>>=◌ {ℓ κ} : {A : Type ℓ} {B : Type κ} → Option A → (A → Option B) → Option B
none >>= f = none
some a >>= f = f a

-- A literal in front of a text.
unfoldable pub literal : Text → Text → Option Text
literal [] s = some s
literal (c ∷ l) [] = none
literal (c ∷ l) (d ∷ s) = if c == d then literal l s else none

-- `[class]{n}` in front of a text.
unfoldable pub repeated : (ℕ → Bool) → ℕ → Text → Option Text
repeated p zero s = some s
repeated p (suc n) [] = none
repeated p (suc n) (c ∷ s) = if p c then repeated p n s else none

-- `$`: the end, or a newline that ends the text.
abbrev pub at_end : Text → Bool
at_end [] = true
at_end (c ∷ []) = c == 10
at_end (c ∷ d ∷ s) = false

abbrev pub holds_at_end : Option Text → Bool
holds_at_end none = false
holds_at_end (some s) = at_end s

abbrev pub is_lower_hex : ℕ → Bool
is_lower_hex c = between b'0' b'9' c || between b'a' b'f' c

-- `_HASH_RE.match(s)`
unfoldable pub hash_re : Text → Bool
unfolding literal repeated
hash_re s = holds_at_end (do r ← literal (codes "sha256:") s; repeated is_lower_hex 64 r)

-- The fields of a timestamp, and what stands behind its `Z`.
pub record Stamp : Type 0 where
  pub year : ℕ
  pub month : ℕ
  pub day : ℕ
  pub hour : ℕ
  pub minute : ℕ
  pub second : ℕ
  pub rest : Text

-- `[0-9]{2}`, and its value
unfoldable pub two_digits : Text → Option (ℕ × Text)
two_digits [] = none
two_digits (a ∷ []) = none
two_digits (a ∷ b ∷ s) =
    if is_digit a && is_digit b then some ((a - b'0') * 10 + (b - b'0'), s) else none

-- `[0-9]{4}-[0-9]{2}-[0-9]{2}T[0-9]{2}:[0-9]{2}:[0-9]{2}Z`
unfoldable pub read_stamp : Text → Option Stamp
unfolding two_digits literal
read_stamp s = do
  (century, s) ← two_digits s
  (decade, s) ← two_digits s
  s ← literal (codes "-") s
  (month, s) ← two_digits s
  s ← literal (codes "-") s
  (day, s) ← two_digits s
  s ← literal (codes "T") s
  (hour, s) ← two_digits s
  s ← literal (codes ":") s
  (minute, s) ← two_digits s
  s ← literal (codes ":") s
  (second, s) ← two_digits s
  rest ← literal (codes "Z") s
  some (record {
    year = century * 100 + decade;
    month = month;
    day = day;
    hour = hour;
    minute = minute;
    second = second;
    rest = rest;
  })

-- `_TS_RE.match(s)`
unfoldable pub ts_re : Text → Bool
unfolding read_stamp
ts_re s = elim (read_stamp s) [ none ↦ false | some t ↦ at_end t.rest ]

unfoldable pub is_leap : ℕ → Bool
is_leap y = (y % 4 == 0 && not (y % 100 == 0)) || y % 400 == 0

unfoldable pub days_in_month : ℕ → ℕ → ℕ
unfolding is_leap
days_in_month y m =
    if m == 2
    then (if is_leap y then 29 else 28)
    else if m == 4 || m == 6 || m == 9 || m == 11
    then 30
    else 31

abbrev pub ends : Text → Bool
ends [] = true
ends (c ∷ s) = false

-- `datetime.strptime` of a stamp: every field in its range, and nothing left over.
unfoldable pub is_calendar : Stamp → Bool
unfolding days_in_month
is_calendar t =
    leb 1 t.year
    && between 1 12 t.month
    && between 1 (days_in_month t.year t.month) t.day
    && leb t.hour 23
    && leb t.minute 59
    && leb t.second 59
    && ends t.rest

-- `_check_ts_calendar`, on a text that `_TS_RE` has matched
unfoldable pub check_ts_calendar : Text → Checked
unfolding read_stamp is_calendar
check_ts_calendar s =
    raise_if (elim (read_stamp s) [ none ↦ true | some t ↦ not (is_calendar t) ]) Exc.value_error
