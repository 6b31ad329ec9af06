-- ===== src/Hash/Binding.antt =====
-- `hash_vector` and `hash_text`: what equal hashes say of the bytes.
use vector_pin.Prelude.{
  ℕ, ◌/◌, ◌%◌, ◌<◌, ◌≡◌, ◌≢◌, refl, ◌⊎◌, inl, inr, true, [], ◌∷◌, ◌++◌, arith, all, ltb,
}
use vector_pin.Text.{Bytes, Text}
use vector_pin.Text.Equality.{text_dec}
use vector_pin.Json.{hex_digit}
use vector_pin.Platform.{Platform, PlatformLaws}
use vector_pin.Hash.{hex, hash_bytes, hash_prefix}

hex_digit_injective : (m n : ℕ) → m < 16 → n < 16 → hex_digit m ≡ hex_digit n → m ≡ n
unfolding hex_digit
hex_digit_injective m n hm hn h = ground arith

hex_injective :
    (x y : Bytes)
    → all (λ c. ltb c 256) x ≡ true
    → all (λ c. ltb c 256) y ≡ true
    → hex x ≡ hex y
    → x ≡ y
unfolding hex
hex_injective [] [] hx hy h = refl
hex_injective [] (d ∷ y) hx hy h = cc
hex_injective (c ∷ x) [] hx hy h = cc
hex_injective (c ∷ x) (d ∷ y) hx hy h = ground (
  arith,
  hex_digit_injective (c / 16) (d / 16),
  hex_digit_injective (c % 16) (d % 16),
  hex_injective x y,
)

module _ {K S A : Type 0} (p : Platform K S A) where
  -- Two different byte strings with one digest.
  abbrev pub CollisionOf : Bytes → Bytes → Type 0
  CollisionOf x y = (x ≢ y) × (p.sha256 x ≡ p.sha256 y)

  pub sha256-eq_of : (x y : Bytes) → p.sha256 x ≡ p.sha256 y → (x ≡ y) ⊎ CollisionOf x y
  sha256-eq_of x y h = go (text_dec x y)
    where
      go : (x ≡ y) ⊎ (x ≢ y) → (x ≡ y) ⊎ CollisionOf x y
      go (inl e) = inl e
      go (inr ne) = inr (ne, h)

  prefix_cancel : (s t : Text) → hash_prefix ++ s ≡ hash_prefix ++ t → s ≡ t
  prefix_cancel s t h = ground arith

  module _ (laws : PlatformLaws p) where
    pub hash_text_digest :
        (x y : Bytes)
        → hash_prefix ++ hex (p.sha256 x) ≡ hash_prefix ++ hex (p.sha256 y)
        → p.sha256 x ≡ p.sha256 y
    hash_text_digest x y h =
        hex_injective (p.sha256 x) (p.sha256 y) (laws.sha256_bytes x) (laws.sha256_bytes y)
          (prefix_cancel _ _ h)

    pub hash_bytes-eq_of :
        (x y : Bytes) → hash_bytes p x ≡ hash_bytes p y → (x ≡ y) ⊎ CollisionOf x y
    unfolding hash_bytes
    hash_bytes-eq_of x y h = sha256-eq_of x y (hash_text_digest x y h)
