-- ===== src/Manifest/Merkle/Binding.antt =====
-- `merkle_root` of src/vectorpin/manifest.py: what one root says of two walks of one length.
use vector_pin.Prelude.{
  ◌≡◌, refl, sym, ap, ◌∙◌, subst, ◌⊎◌, inl, inr, List, [], ◌∷◌, ◌++◌, Option, length, arith, All,
  map,
}
use vector_pin.Outcome.{ok, Exc, >>=-eq-ok, ok-injective, raise_if}
use vector_pin.Text.{Text, Bytes}
use vector_pin.Text.Sort.Keeps.{All-sort_by, length-sort_by}
use vector_pin.Text.Sort.{sort_by, has_twins}
use vector_pin.Platform.{Platform, PlatformLaws}
use vector_pin.Hash.{hash_prefix, hex}
use vector_pin.Hash.Binding.{hash_text_digest}
use vector_pin.Manifest.Merkle.{
  Entry, record_id, merkle_root, root_of_sorted, root_text, leaves, climb,
}
use vector_pin.Manifest.Merkle.Climb.{
  climb_inputs, Collides, Collides-left, Collides-right, digests_injective, IsDigest, map-IsDigest,
  climb-IsDigest, climb_injective,
}
use vector_pin.Manifest.Merkle.Leaves.{
  PlainHash, leaf_inputs, tree_inputs, leaves-eq-ok, length-leaf_inputs, leaf_inputs_injective,
}

module _ {K S A : Type 0} (p : Platform K S A) where
  -- Two different byte strings with one digest, among those that the two trees hash.
  abbrev pub TreesCollide : List Entry → List Entry → Type 0
  TreesCollide es fs =
      (bs : List Bytes) × (cs : List Bytes) × (leaf_inputs p es ≡ ok bs)
      × (leaf_inputs p fs ≡ ok cs)
      × Collides p (tree_inputs p bs) (tree_inputs p cs)

  module _ (laws : PlatformLaws p) where
    root_text-eq-ok :
        (o : Option Bytes) (t : Text)
        → root_text p o ≡ ok t
        → (h : Bytes) × (o ≡ Option.some h) × (hash_prefix ++ hex h ≡ t)
    root_text-eq-ok Option.none t h = cc
    root_text-eq-ok (Option.some b) t h = (b, refl, ok-injective h)

    -- One root text of two digests.
    same_digest :
        (a b : Bytes) (t : Text)
        → IsDigest p a
        → IsDigest p b
        → hash_prefix ++ hex a ≡ t
        → hash_prefix ++ hex b ≡ t
        → a ≡ b
    same_digest a b t (x, e) (y, f) q r =
        e
        ∙ hash_text_digest p laws x y
            (ap (λ z. hash_prefix ++ hex z) (sym e) ∙ q ∙ sym r ∙ ap (λ z. hash_prefix ++ hex z) f)
        ∙ sym f

    -- Two trees of one size with one root have the same leaves, or a collision.
    trees_bind :
        (bs cs : List Bytes) (t : Text)
        → length bs ≡ length cs
        → root_text p (climb p (length (map p.sha256 bs)) (map p.sha256 bs)) ≡ ok t
        → root_text p (climb p (length (map p.sha256 cs)) (map p.sha256 cs)) ≡ ok t
        → (bs ≡ cs) ⊎ Collides p (tree_inputs p bs) (tree_inputs p cs)
    trees_bind bs cs t n h k =
        let (a, q, q') = root_text-eq-ok _ t h in
        let (b, r, r') = root_text-eq-ok _ t k in
        let da = climb-IsDigest p _ (map p.sha256 bs) a (map-IsDigest p bs) q in
        let db = climb-IsDigest p _ (map p.sha256 cs) b (map-IsDigest p cs) r in
        let same = same_digest a b t da db q' r' in
        leaves_of (
          climb_injective p laws _ _ (map p.sha256 bs) (map p.sha256 cs) a (map-IsDigest p bs)
            (map-IsDigest p cs) (length-digests bs ∙ n ∙ sym (length-digests cs)) q
            (r ∙ ap Option.some (sym same)))
      where
        length-digests : (l : List Bytes) → length (map p.sha256 l) ≡ length l
        length-digests [] = refl
        length-digests (x ∷ l) = omega (arith, length-digests l)

        leaf_level :
            (bs ≡ cs) ⊎ Collides p bs cs
            → (bs ≡ cs) ⊎ Collides p (tree_inputs p bs) (tree_inputs p cs)
        leaf_level (inl e) = inl e
        leaf_level (inr x) = inr (Collides-left p bs cs _ _ x)

        leaves_of :
            (map p.sha256 bs ≡ map p.sha256 cs)
              ⊎ Collides p
                  (climb_inputs p (length (map p.sha256 bs)) (map p.sha256 bs))
                  (climb_inputs p (length (map p.sha256 cs)) (map p.sha256 cs))
            → (bs ≡ cs) ⊎ Collides p (tree_inputs p bs) (tree_inputs p cs)
        leaves_of (inl e) = leaf_level (digests_injective p bs cs e)
        leaves_of (inr x) = inr (Collides-right p bs cs _ _ x)

    sorted_bind :
        (es fs : List Entry) (t : Text)
        → length es ≡ length fs
        → All PlainHash es
        → All PlainHash fs
        → root_of_sorted p es ≡ ok t
        → root_of_sorted p fs ≡ ok t
        → (es ≡ fs) ⊎ TreesCollide es fs
    sorted_bind [] [] t m a c h k = inl refl
    sorted_bind [] (f ∷ fs) t m a c h k = absurd (omega (arith, m))
    sorted_bind (e ∷ es) [] t m a c h k = absurd (omega (arith, m))
    sorted_bind (e ∷ es) (f ∷ fs) t m a c h k =
        let (l, q, h) =
          >>=-eq-ok (leaves p (e ∷ es)) (λ level. root_text p (climb p (length level) level)) h in
        let (l', q', k) =
          >>=-eq-ok (leaves p (f ∷ fs)) (λ level. root_text p (climb p (length level) level)) k in
        let (bs, r, u) = leaves-eq-ok p (e ∷ es) l q in
        let (cs, r', u') = leaves-eq-ok p (f ∷ fs) l' q' in
        entries_of bs cs r r' (
          trees_bind bs cs t
            (length-leaf_inputs p (e ∷ es) bs r ∙ m ∙ sym (length-leaf_inputs p (f ∷ fs) cs r'))
            (subst (λ z. root_text p (climb p (length z) z) ≡ ok t) (sym u) h)
            (subst (λ z. root_text p (climb p (length z) z) ≡ ok t) (sym u') k))
      where
        entries_of :
            (bs cs : List Bytes)
            → leaf_inputs p (e ∷ es) ≡ ok bs
            → leaf_inputs p (f ∷ fs) ≡ ok cs
            → (bs ≡ cs) ⊎ Collides p (tree_inputs p bs) (tree_inputs p cs)
            → (e ∷ es ≡ f ∷ fs) ⊎ TreesCollide (e ∷ es) (f ∷ fs)
        entries_of bs cs r r' (inl s) =
            inl (leaf_inputs_injective p (e ∷ es) (f ∷ fs) bs a c r (r' ∙ ap ok (sym s)))
        entries_of bs cs r r' (inr x) = inr (bs, cs, r, r', x)

    -- Two walks of the same length with the same root, whose hash texts have no NUL byte, have the same entries in the order of their ids; or two different byte strings among
    -- those that the two trees hash have one SHA-256 digest.
    pub merkle_root_binds :
        (xs ys : List Entry) (t : Text)
        → length xs ≡ length ys
        → All PlainHash xs
        → All PlainHash ys
        → merkle_root p xs ≡ ok t
        → merkle_root p ys ≡ ok t
        → (sort_by record_id xs ≡ sort_by record_id ys)
          ⊎ TreesCollide (sort_by record_id xs) (sort_by record_id ys)
    unfolding merkle_root
    merkle_root_binds xs ys t m a c h k =
        let (_, _, h) =
          >>=-eq-ok (raise_if (has_twins record_id (sort_by record_id xs)) Exc.value_error)
            (λ _. root_of_sorted p (sort_by record_id xs)) h in
        let (_, _, k) =
          >>=-eq-ok (raise_if (has_twins record_id (sort_by record_id ys)) Exc.value_error)
            (λ _. root_of_sorted p (sort_by record_id ys)) k in
        sorted_bind (sort_by record_id xs) (sort_by record_id ys) t
          (length-sort_by record_id xs ∙ m ∙ sym (length-sort_by record_id ys))
          (All-sort_by record_id PlainHash xs a) (All-sort_by record_id PlainHash ys c) h k
