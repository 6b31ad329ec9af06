-- ===== src/Manifest/Merkle/Leaves.antt =====
-- The leaves of `merkle_root` of src/vectorpin/manifest.py: sorting them, and what their bytes tell.
use vector_pin.Prelude.{
  ◌≡◌, ◌≢◌, subst, refl, sym, ap, ap₂, ◌∙◌, List, [], ◌∷◌, ◌++◌, length, arith, All, map,
}
use vector_pin.Outcome.{Result, ok, ◌>>=◌, >>=-eq-ok, ok-injective}
use vector_pin.Text.{Bytes, encode_utf8, encode_pass}
use vector_pin.Text.Utf8.{encode_utf8-eq-ok, encode_pass_injective}
use vector_pin.Platform.{Platform}
use vector_pin.Manifest.Merkle.{Entry, leaves, leaf, leaf_bytes}
use vector_pin.Manifest.Merkle.Climb.{climb_inputs}

abbrev NoNul : Bytes → Type 0
NoNul b = All (λ c. c ≢ 0) b

-- The hash text of an entry has no NUL byte, as the empty text and `sha256:` with hex digits.
abbrev pub PlainHash : Entry → Type 0
PlainHash e = NoNul (encode_pass e.1)

has_nul : (b v : Bytes) → ¬ NoNul (b ++ 0 ∷ v)
has_nul [] v (h, _) = h refl
has_nul (x ∷ b) v (_, h) = has_nul b v h

-- The last NUL byte splits a byte string.
split_injective :
    (a b u v : Bytes) → NoNul u → NoNul v → a ++ 0 ∷ u ≡ b ++ 0 ∷ v → (a ≡ b) × (u ≡ v)
split_injective [] [] u v m m' h = (refl, ground (arith, h))
split_injective [] (y ∷ b) u v m m' h =
    let e : u ≡ b ++ 0 ∷ v = ground (arith, h) in absurd (has_nul b v (subst NoNul e m))
split_injective (x ∷ a) [] u v m m' h =
    let e : v ≡ a ++ 0 ∷ u = ground (arith, h) in absurd (has_nul a u (subst NoNul e m'))
split_injective (x ∷ a) (y ∷ b) u v m m' h =
    let head : x ≡ y = ground (arith, h) in
    let tail : a ++ 0 ∷ u ≡ b ++ 0 ∷ v = ground (arith, h) in
    let (e, q) = split_injective a b u v m m' tail in ((λ i. head i ∷ e i), q)

module _ {K S A : Type 0} (p : Platform K S A) where
  -- The bytes that the leaves of some entries hash.
  pub leaf_inputs : List Entry → Result (List Bytes)
  leaf_inputs [] = ok []
  leaf_inputs (e ∷ es) = leaf_bytes p e >>= λ b. leaf_inputs es >>= λ bs. ok (b ∷ bs)

  -- All the bytes that the tree over some leaves hashes.
  abbrev pub tree_inputs : List Bytes → List Bytes
  tree_inputs bs = bs ++ climb_inputs p (length (map p.sha256 bs)) (map p.sha256 bs)

  pub leaves-eq-ok :
      (es : List Entry) (level : List Bytes)
      → leaves p es ≡ ok level
      → (bs : List Bytes) × (leaf_inputs es ≡ ok bs) × (map p.sha256 bs ≡ level)
  unfolding leaves leaf leaf_inputs
  leaves-eq-ok [] level h = ([], refl, ok-injective h)
  leaves-eq-ok (e ∷ es) level h =
      let (d, q, h) = >>=-eq-ok (leaf p e) _ h in
      let (b, q', r) = >>=-eq-ok (leaf_bytes p e) (λ b. ok (p.sha256 b)) q in
      let (ds, s, h) = >>=-eq-ok (leaves p es) _ h in
      let (bs, t, u) = leaves-eq-ok es ds s in
      (b ∷ bs, rw (q', t), (λ i. ok-injective r i ∷ u i) ∙ ok-injective h)

  pub length-leaf_inputs :
      (es : List Entry) (bs : List Bytes) → leaf_inputs es ≡ ok bs → length bs ≡ length es
  unfolding leaf_inputs
  length-leaf_inputs [] bs h = ap length (sym (ok-injective h))
  length-leaf_inputs (e ∷ es) bs h =
      let (b, q, h) = >>=-eq-ok (leaf_bytes p e) _ h in
      let (rest, r, h) = >>=-eq-ok (leaf_inputs es) _ h in
      let n = length-leaf_inputs es rest r in ap length (sym (ok-injective h)) ∙ omega (arith, n)

  leaf_bytes-eq-ok :
      (e : Entry) (b : Bytes)
      → leaf_bytes p e ≡ ok b
      → 0 ∷ (encode_pass e.0 ++ 0 ∷ encode_pass e.1) ≡ b
  unfolding leaf_bytes
  leaf_bytes-eq-ok (rid, vh) b h =
      let (i, q, h) = >>=-eq-ok (encode_utf8 rid) _ h in
      let (v, r, h) = >>=-eq-ok (encode_utf8 vh) _ h in
      ap₂ (λ x y. 0 ∷ (x ++ 0 ∷ y)) (encode_utf8-eq-ok rid i q).1 (encode_utf8-eq-ok vh v r).1
      ∙ ok-injective h

  -- A leaf tells its entry, the hash text having no NUL byte.
  leaf_bytes_injective :
      (e f : Entry) (b : Bytes)
      → PlainHash e
      → PlainHash f
      → leaf_bytes p e ≡ ok b
      → leaf_bytes p f ≡ ok b
      → e ≡ f
  leaf_bytes_injective (rid, vh) (rid', vh') b m m' h h' =
      let whole = leaf_bytes-eq-ok (rid, vh) b h ∙ sym (leaf_bytes-eq-ok (rid', vh') b h') in
      let bodies : encode_pass rid ++ 0 ∷ encode_pass vh ≡ encode_pass rid' ++ 0 ∷ encode_pass vh' =
        ground (arith, whole) in
      let (a, c) =
        split_injective (encode_pass rid) (encode_pass rid') (encode_pass vh) (encode_pass vh') m m'
          bodies in
      λ i. (encode_pass_injective rid rid' a i, encode_pass_injective vh vh' c i)

  pub leaf_inputs_injective :
      (es fs : List Entry) (bs : List Bytes)
      → All PlainHash es
      → All PlainHash fs
      → leaf_inputs es ≡ ok bs
      → leaf_inputs fs ≡ ok bs
      → es ≡ fs
  unfolding leaf_inputs
  leaf_inputs_injective [] [] bs a c h k = refl
  leaf_inputs_injective [] (f ∷ fs) bs a c h k =
      absurd (omega (arith, length-leaf_inputs [] bs h, length-leaf_inputs (f ∷ fs) bs k))
  leaf_inputs_injective (e ∷ es) [] bs a c h k =
      absurd (omega (arith, length-leaf_inputs (e ∷ es) bs h, length-leaf_inputs [] bs k))
  leaf_inputs_injective (e ∷ es) (f ∷ fs) bs a c h k =
      let (b, q, h) = >>=-eq-ok (leaf_bytes p e) _ h in
      let (r, s, h) = >>=-eq-ok (leaf_inputs es) _ h in
      let (b', q', k) = >>=-eq-ok (leaf_bytes p f) _ k in
      let (r', s', k) = >>=-eq-ok (leaf_inputs fs) _ k in
      let both : b ∷ r ≡ b' ∷ r' = ok-injective (h ∙ sym k) in
      let first : b' ≡ b = ground (arith, both) in
      let rest : r' ≡ r = ground (arith, both) in
      let x = leaf_bytes_injective e f b a.0 c.0 q (q' ∙ ap ok first) in
      let y = leaf_inputs_injective es fs r a.1 c.1 s (s' ∙ ap ok rest) in λ i. x i ∷ y i
