-- ===== src/Verifier/Steps.antt =====
-- Code with early returns: it goes on, returns a failure, or raises.
use vector_pin.Prelude.{◌≡◌, refl, ◌↔◌, Bool, true, false, arith}
use vector_pin.Outcome.{Result, Exc}

pub data VerifyError : Type 0 where
  ok unknown_key unsupported_version key_expired parse_error signature_invalid : VerifyError
  vector_tampered source_mismatch model_mismatch shape_mismatch : VerifyError
  record_mismatch collection_mismatch tenant_mismatch : VerifyError

pub data Step : Type 0 where
  pass : Step
  fail : VerifyError → Step
  raised : Exc → Step

infixr 5 ◌▹◌
abbrev pub ◌▹◌ : Step → Step → Step
pass ▹ k = k
fail e ▹ k = fail e
raised x ▹ k = raised x

abbrev pub fail_if : Bool → VerifyError → Step
fail_if true e = fail e
fail_if false e = pass

-- An expression that may raise, and what is done with its value.
abbrev pub attempt {ℓ} : {A : Type ℓ} → Result A → (A → Step) → Step
attempt (Result.ok a) k = k a
attempt (Result.err e) k = raised e

pub ▹-eq-pass : (a b : Step) → ((a ▹ b) ≡ pass) ↔ ((a ≡ pass) × (b ≡ pass))
▹-eq-pass pass b = ground arith
▹-eq-pass (fail e) b = ground arith
▹-eq-pass (raised x) b = ground arith

pub attempt-eq-pass {ℓ} :
    {A : Type ℓ} (m : Result A) (k : A → Step)
    → attempt m k ≡ pass
    → (a : A) × (m ≡ Result.ok a) × (k a ≡ pass)
attempt-eq-pass (Result.ok a) k h = (a, refl, h)
attempt-eq-pass (Result.err e) k h = ground arith

pub fail_if-eq-pass : (b : Bool) (e : VerifyError) → fail_if b e ≡ pass → b ≡ false
fail_if-eq-pass true e h = ground arith
fail_if-eq-pass false e h = refl

-- A sequence of three or seven steps passes only if each does.
pub three-eq-pass : (a b c : Step) → (a ▹ b ▹ c) ≡ pass → (a ≡ pass) × (b ≡ pass) × (c ≡ pass)
three-eq-pass a b c h =
    let (x, r) = (▹-eq-pass a (b ▹ c)).0 h in let (y, z) = (▹-eq-pass b c).0 r in (x, y, z)

pub seven-eq-pass :
    (a b c d e f g : Step)
    → (a ▹ b ▹ c ▹ d ▹ e ▹ f ▹ g) ≡ pass
    → (a ≡ pass) × (b ≡ pass) × (c ≡ pass) × (d ≡ pass) × (e ≡ pass) × (f ≡ pass) × (g ≡ pass)
seven-eq-pass a b c d e f g h =
    let (x, y, r) = three-eq-pass a b (c ▹ d ▹ e ▹ f ▹ g) h in
    let (z, u, s) = three-eq-pass c d (e ▹ f ▹ g) r in
    let (v, w, t) = three-eq-pass e f g s in (x, y, z, u, v, w, t)
