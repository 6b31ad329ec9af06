-- ===== src/Manifest/Merkle/Climb.antt =====
-- The loop over the levels in `merkle_root`: what one root says of two levels of one size.
use vector_pin.Prelude.{
  ℕ, zero, suc, ◌≡◌, refl, sym, ap, ◌∙◌, ◌⊎◌, inl, inr, List, [], ◌∷◌, ◌++◌, Option, length, arith,
  All, map,
}
use mathlib.Core.List.{Memᴰ}
use mathlib.Core.List.Memᴰ
use vector_pin.Text.{Bytes}
use vector_pin.Platform.{Platform, PlatformLaws}
use vector_pin.Hash.Binding.{CollisionOf, sha256-eq_of}
use vector_pin.Manifest.Merkle.{level_up, climb, node}

-- Two pieces of one length in front are told apart.
pub halves_injective : (a c x y : Bytes) → length a ≡ length c → a ++ x ≡ c ++ y → (a ≡ c) × (x ≡ y)
halves_injective [] [] x y n h = (refl, h)
halves_injective [] (d ∷ c) x y n h = absurd (omega arith)
halves_injective (b ∷ a) [] x y n h = absurd (omega arith)
halves_injective (b ∷ a) (d ∷ c) x y n h = ground (arith, halves_injective a c x y (omega arith))

-- The bytes that `node` hashes on one level, and on all levels.
pub node_inputs : List Bytes → List Bytes
node_inputs [] = []
node_inputs (a ∷ []) = (1 ∷ (a ++ a)) ∷ []
node_inputs (a ∷ b ∷ r) = (1 ∷ (a ++ b)) ∷ node_inputs r

module _ {K S A : Type 0} (p : Platform K S A) where
  unfoldable pub climb_inputs : ℕ → List Bytes → List Bytes
  climb_inputs zero l = []
  climb_inputs (suc f) [] = []
  climb_inputs (suc f) (a ∷ []) = []
  climb_inputs (suc f) (a ∷ b ∷ r) =
      node_inputs (a ∷ b ∷ r) ++ climb_inputs f (level_up p (a ∷ b ∷ r))

  -- Two different members of two lists with one digest.
  abbrev pub Collides : List Bytes → List Bytes → Type 0
  Collides xs ys = (x y : Bytes) × Memᴰ x xs × Memᴰ y ys × CollisionOf p x y

  pub Collides-left : (xs ys zs ws : List Bytes) → Collides xs ys → Collides (xs ++ zs) (ys ++ ws)
  Collides-left xs ys zs ws (x, y, a, b, c) =
      (x, y, Memᴰ.append_left zs a, Memᴰ.append_left ws b, c)

  pub Collides-right : (xs ys zs ws : List Bytes) → Collides zs ws → Collides (xs ++ zs) (ys ++ ws)
  Collides-right xs ys zs ws (x, y, a, b, c) =
      (x, y, Memᴰ.append_right xs a, Memᴰ.append_right ys b, c)

  -- Lists with the same digests have a collision or are the same.
  pub digests_injective :
      (l m : List Bytes) → map p.sha256 l ≡ map p.sha256 m → (l ≡ m) ⊎ Collides l m
  digests_injective [] [] h = inl refl
  digests_injective [] (c ∷ m) h = cc
  digests_injective (a ∷ l) [] h = cc
  digests_injective (a ∷ l) (c ∷ m) h =
      go (sha256-eq_of p a c (ground arith)) (digests_injective l m (ground arith))
    where
      go :
          (a ≡ c) ⊎ CollisionOf p a c
          → (l ≡ m) ⊎ Collides l m
          → (a ∷ l ≡ c ∷ m) ⊎ Collides (a ∷ l) (c ∷ m)
      go (inr x) q = inr (a, c, Memᴰ.head refl, Memᴰ.head refl, x)
      go (inl e) (inl f) = inl (λ i. e i ∷ f i)
      go (inl e) (inr (x, y, s, t, c')) = inr (x, y, Memᴰ.tail s, Memᴰ.tail t, c')

  level_up-map : (l : List Bytes) → level_up p l ≡ map p.sha256 (node_inputs l)
  unfolding level_up node node_inputs
  level_up-map [] = refl
  level_up-map (a ∷ []) = refl
  level_up-map (a ∷ b ∷ r) = ap (λ z. p.sha256 (1 ∷ (a ++ b)) ∷ z) (level_up-map r)

  abbrev pub IsDigest : Bytes → Type 0
  IsDigest b = (z : Bytes) × (b ≡ p.sha256 z)

  pub map-IsDigest : (l : List Bytes) → All IsDigest (map p.sha256 l)
  map-IsDigest [] = tt
  map-IsDigest (x ∷ l) = ((x, refl), map-IsDigest l)

  level_up-IsDigest : (l : List Bytes) → All IsDigest (level_up p l)
  unfolding level_up node
  level_up-IsDigest [] = tt
  level_up-IsDigest (a ∷ []) = ((_, refl), tt)
  level_up-IsDigest (a ∷ b ∷ r) = ((_, refl), level_up-IsDigest r)

  pub climb-IsDigest :
      (f : ℕ) (l : List Bytes) (h : Bytes)
      → All IsDigest l
      → climb p f l ≡ Option.some h
      → IsDigest h
  unfolding climb
  climb-IsDigest zero l h d e = cc
  climb-IsDigest (suc f) [] h d e = cc
  climb-IsDigest (suc f) (a ∷ []) h ((z, q), d) e = (z, ground (arith, q))
  climb-IsDigest (suc f) (a ∷ b ∷ r) h d e =
      climb-IsDigest f (level_up p (a ∷ b ∷ r)) h (level_up-IsDigest (a ∷ b ∷ r)) e

  module _ (laws : PlatformLaws p) where
    same_size : (a c : Bytes) → IsDigest a → IsDigest c → length a ≡ length c
    same_size a c (x, e) (y, f) =
        ap length e ∙ laws.sha256_length x ∙ sym (ap length f ∙ laws.sha256_length y)

    node_inputs_injective :
        (l m : List Bytes)
        → All IsDigest l
        → All IsDigest m
        → length l ≡ length m
        → node_inputs l ≡ node_inputs m
        → l ≡ m
    unfolding node_inputs
    node_inputs_injective [] [] hl hm n h = refl
    node_inputs_injective [] (c ∷ m) hl hm n h = absurd (omega arith)
    node_inputs_injective (a ∷ l) [] hl hm n h = absurd (omega arith)
    node_inputs_injective (a ∷ []) (c ∷ []) hl hm n h =
        let (e, _) = halves_injective a c a c (same_size a c hl.0 hm.0) (ground arith) in
        ap (λ z. z ∷ []) e
    node_inputs_injective (a ∷ []) (c ∷ d ∷ m) hl hm n h = absurd (omega arith)
    node_inputs_injective (a ∷ b ∷ l) (c ∷ []) hl hm n h = absurd (omega arith)
    node_inputs_injective (a ∷ b ∷ l) (c ∷ d ∷ m) hl hm n h =
        let (e, f) = halves_injective a c b d (same_size a c hl.0 hm.0) (ground arith) in
        let rest = node_inputs_injective l m hl.1.1 hm.1.1 (omega arith) (ground arith) in
        λ i. e i ∷ f i ∷ rest i

    length-level_up_eq :
        (l m : List Bytes) → length l ≡ length m → length (level_up p l) ≡ length (level_up p m)
    unfolding level_up
    length-level_up_eq [] [] n = refl
    length-level_up_eq [] (c ∷ m) n = absurd (omega arith)
    length-level_up_eq (a ∷ l) [] n = absurd (omega arith)
    length-level_up_eq (a ∷ []) (c ∷ []) n = refl
    length-level_up_eq (a ∷ []) (c ∷ d ∷ m) n = absurd (omega arith)
    length-level_up_eq (a ∷ b ∷ l) (c ∷ []) n = absurd (omega arith)
    length-level_up_eq (a ∷ b ∷ l) (c ∷ d ∷ m) n =
        omega (arith, length-level_up_eq l m (omega arith))

    pub climb_injective :
        (f g : ℕ) (l m : List Bytes) (h : Bytes)
        → All IsDigest l
        → All IsDigest m
        → length l ≡ length m
        → climb p f l ≡ Option.some h
        → climb p g m ≡ Option.some h
        → (l ≡ m) ⊎ Collides (climb_inputs f l) (climb_inputs g m)
    unfolding climb climb_inputs
    climb_injective zero g l m h hl hm n q r = cc
    climb_injective (suc f) zero l m h hl hm n q r = cc
    climb_injective (suc f) (suc g) [] m h hl hm n q r = cc
    climb_injective (suc f) (suc g) (a ∷ l) [] h hl hm n q r = absurd (omega arith)
    climb_injective (suc f) (suc g) (a ∷ []) (c ∷ []) h hl hm n q r = inl (ground arith)
    climb_injective (suc f) (suc g) (a ∷ []) (c ∷ d ∷ m) h hl hm n q r = absurd (omega arith)
    climb_injective (suc f) (suc g) (a ∷ b ∷ l) (c ∷ []) h hl hm n q r = absurd (omega arith)
    climb_injective (suc f) (suc g) (a ∷ b ∷ l) (c ∷ d ∷ m) h hl hm n q r = go (
        climb_injective f g (level_up p (a ∷ b ∷ l)) (level_up p (c ∷ d ∷ m)) h
          (level_up-IsDigest (a ∷ b ∷ l)) (level_up-IsDigest (c ∷ d ∷ m))
          (length-level_up_eq (a ∷ b ∷ l) (c ∷ d ∷ m) n) q r)
      where
        here : List Bytes
        here = node_inputs (a ∷ b ∷ l)

        there : List Bytes
        there = node_inputs (c ∷ d ∷ m)

        above : List Bytes
        above = climb_inputs f (level_up p (a ∷ b ∷ l))

        beyond : List Bytes
        beyond = climb_inputs g (level_up p (c ∷ d ∷ m))

        same :
            (here ≡ there) ⊎ Collides here there
            → (a ∷ b ∷ l ≡ c ∷ d ∷ m) ⊎ Collides (here ++ above) (there ++ beyond)
        same (inl e) = inl (node_inputs_injective (a ∷ b ∷ l) (c ∷ d ∷ m) hl hm n e)
        same (inr x) = inr (Collides-left here there above beyond x)

        go :
            (level_up p (a ∷ b ∷ l) ≡ level_up p (c ∷ d ∷ m)) ⊎ Collides above beyond
            → (a ∷ b ∷ l ≡ c ∷ d ∷ m) ⊎ Collides (here ++ above) (there ++ beyond)
        go (inl e) = same (
            digests_injective here there
              (sym (level_up-map (a ∷ b ∷ l)) ∙ e ∙ level_up-map (c ∷ d ∷ m)))
        go (inr x) = inr (Collides-right here there above beyond x)
