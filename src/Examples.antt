-- ===== src/Examples.antt =====
-- Test data: a concrete platform, small enough to compute with, and its laws.
mod Runs
mod Walks
mod Stores
mod Tools
mod Bindings
mod Keys
mod Lines
use vector_pin.Prelude.{
  ℕ, zero, suc, ◌%◌, ◌≡◌, refl, sym, ap, ◌∙◌, Bool, true, false, ◌&&◌, List, [], ◌∷◌, ◌++◌, Option,
  none, some, arith, length, all, ltb,
}
use vector_pin.Outcome.{Result, ok, err, Exc}
use vector_pin.Text.{Text, Bytes, codes}
use vector_pin.Text.Equality.{text_eq, text_eq_refl}
use vector_pin.Platform.{Platform, PlatformLaws, Dtype, Datetime}

-- An array: its dtype, its shape, and its bytes.
pub record Array : Type 0 where
  pub dtype : Dtype
  pub shape : List ℕ
  pub contents : Bytes

-- The first `n` of the numbers, each as a byte, with zeros behind.
abbrev digest : ℕ → Bytes → Bytes
digest zero b = []
digest (suc n) [] = 0 ∷ digest n []
digest (suc n) (c ∷ b) = c % 256 ∷ digest n b

abbrev pub stamp : Text
stamp = codes "2026-05-06T00:00:00Z"

abbrev first_byte : Bytes → Result ℕ
first_byte [] = err Exc.value_error
first_byte (c ∷ b) = ok c

abbrev pub toy : Platform ℕ ℕ Array
toy = record {
  nfc = λ s. s;
  sha256 = digest 32;
  from_public_bytes = first_byte;
  from_private_bytes = first_byte;
  public_key = λ k. k;
  sign = λ k m. digest 64 (k ∷ m);
  public_bytes = λ k. k ∷ [];
  verifies = λ k s m. text_eq s (digest 64 (k ∷ m));
  dtype = λ a. a.dtype;
  shape = λ a. a.shape;
  astype = λ t a. record a { dtype = t };
  all_finite = λ a. true;
  tobytes = λ a. a.contents;
  loads = λ s. err Exc.value_error;
  fromisoformat = λ s. some (record { instant = length s; is_aware = true });
  strftime_utc = λ t. stamp;
}

length-digest : (n : ℕ) (b : Bytes) → length (digest n b) ≡ n
length-digest zero b = refl
length-digest (suc n) [] = ap suc (length-digest n [])
length-digest (suc n) (c ∷ b) = ap suc (length-digest n b)

bytes-digest : (n : ℕ) (b : Bytes) → all (λ c. ltb c 256) (digest n b) ≡ true
bytes-digest zero b = refl
bytes-digest (suc n) [] = ground (arith, bytes-digest n [])
bytes-digest (suc n) (c ∷ b) = ground (arith, bytes-digest n b)

pub toy_laws : PlatformLaws toy
toy_laws = record {
  nfc_idem = λ s. refl;
  nfc_ascii = λ s h. refl;
  sha256_length = λ b. length-digest 32 b;
  sha256_bytes = λ b. bytes-digest 32 b;
  sign_length = λ k m. length-digest 64 (k ∷ m);
  sign_bytes = λ k m. bytes-digest 64 (k ∷ m);
  sign_verifies = λ k m. text_eq_refl (digest 64 (k ∷ m));
  astype_same = λ a. refl;
  dtype_astype = λ t a. refl;
  shape_astype = λ t a. refl;
  tobytes_injective = λ a b d s c. array_eq a b d s c;
}
  where
    array_eq :
        (a b : Array) → a.dtype ≡ b.dtype → a.shape ≡ b.shape → a.contents ≡ b.contents → a ≡ b
    array_eq a b d s c = λ i. record { dtype = d i; shape = s i; contents = c i }
