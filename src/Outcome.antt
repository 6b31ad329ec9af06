-- ===== src/Outcome.antt =====
-- Python exceptions as values. Messages are not modelled: an exception is its class.
use vector_pin.Prelude.{◌≡◌, refl, ap, Bool, true, false}

-- The classes that the code raises or catches. `unicode_encode_error` is a subclass of
-- `value_error`; `other` is any exception that is neither of these nor a `TypeError`.
pub data Exc : Type 0 where
  value_error unicode_encode_error type_error other : Exc

-- `except ValueError` catches the subclass too.
abbrev pub is_value_error : Exc → Bool
is_value_error Exc.value_error = true
is_value_error Exc.unicode_encode_error = true
is_value_error Exc.type_error = false
is_value_error Exc.other = false

pub data Result {ℓ} (A : Type ℓ) : Type ℓ where
  ok : A → Result A
  err : Exc → Result A

-- The result of a function that returns `None` or raises.
abbrev pub Checked : Type 0
Checked = Result (Unit {0})

-- `if c: raise e`
abbrev pub raise_if : Bool → Exc → Checked
raise_if false x = ok tt
raise_if true x = err x

-- Statements in sequence: an exception skips what follows.
infixl 5 ◌>>=◌
abbrev pub ◌>>=◌ {ℓ κ} :
    {Before : Type ℓ} {After : Type κ} → Result Before → (Before → Result After) → Result After
err x >>= next = err x
ok value >>= next = next value

infixl 5 ◌>>◌
abbrev pub ◌>>◌ {ℓ} : {After : Type ℓ} → Checked → Result After → Result After
check >> next = check >>= λ u. next

module _ {ℓ κ} {Before : Type ℓ} {After : Type κ} where
  -- A sequence returns only if its first part does.
  pub >>=-eq-ok :
      (first : Result Before) (next : Before → Result After) {out : After}
      → first >>= next ≡ ok out
      → (value : Before) × (first ≡ ok value) × (next value ≡ ok out)
  >>=-eq-ok (err x) next raised = cc
  >>=-eq-ok (ok value) next returned = (value, refl, returned)

pub raise_if-eq-ok : (b : Bool) (e : Exc) {u : Unit {0}} → raise_if b e ≡ ok u → b ≡ false
raise_if-eq-ok true e h = cc
raise_if-eq-ok false e h = refl

pub ok-injective {ℓ} : {A : Type ℓ} {a b : A} → ok a ≡ ok b → a ≡ b
ok-injective {a} h = ap (λ r. elim r [ ok x ↦ x | err e ↦ a ]) h
