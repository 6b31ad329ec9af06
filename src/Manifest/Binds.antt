-- ===== src/Manifest/Binds.antt =====
-- `verify_manifest` of src/vectorpin/manifest.py: what an accepted manifest says of the store.
use vector_pin.Prelude.{
  ℕ, pos, eqb_ℤ, ◌≡◌, ◌⊎◌, ap, inl, inr, Bool, true, false, List, ◌++◌, Option, none, some, length,
  All, arith, Bool-cases, if◌then◌else◌,
}
use vector_pin.Outcome.{Result, ok, err, ◌>>=◌}
use vector_pin.Text.{Text, Bytes}
use vector_pin.Text.Equality.{text_eq, text_eq_iff}
use vector_pin.Text.Sort.{sort_by}
use vector_pin.Platform.{Platform, PlatformLaws}
use vector_pin.Attestation.{manifest_domain_tag}
use vector_pin.Verifier.{Verifier, public_key_for}
use vector_pin.Manifest.{
  CollectionManifest, ManifestError, ManifestResult, accept, refuse, never_raise, differs,
  compare_store, canonical_payload, verify_manifest_with, verify_manifest,
}
use vector_pin.Manifest.Merkle.{Entry, record_id, merkle_root}
use vector_pin.Manifest.Merkle.Leaves.{PlainHash}
use vector_pin.Manifest.Merkle.Binding.{TreesCollide, merkle_root_binds}

module _ {K S A : Type 0} (p : Platform K S A) where
  abbrev Accepted : Result ManifestResult → Type 0
  Accepted r = (never_raise r).is_ok ≡ true

  -- The count and the root of the walk are the manifest's.
  abbrev Describes : CollectionManifest → List Entry → Type 0
  Describes m entries =
      (eqb_ℤ (pos (length entries)) m.count ≡ true) × (merkle_root p entries ≡ ok m.merkle_root)

  root_of_Accepted :
      (m : CollectionManifest) (r : Result Text)
      → Accepted (
          r >>= λ observed.
          ok
            (if text_eq observed m.merkle_root then accept else refuse ManifestError.root_mismatch))
      → r ≡ ok m.merkle_root
  root_of_Accepted m (err e) h = cc
  root_of_Accepted m (ok t) h = go (Bool-cases (text_eq t m.merkle_root))
    where
      go :
          (text_eq t m.merkle_root ≡ true) ⊎ (text_eq t m.merkle_root ≡ false)
          → ok t ≡ ok m.merkle_root
      go (inl e) = ap ok ((text_eq_iff t m.merkle_root).0 e)
      go (inr e) = absurd (never (rw e at h))
        where
          never : false ≡ true → ⊥
          never q = cc

  Describes-of_compare :
      (m : CollectionManifest) (entries : List Entry) (expected : Option Text)
      → Accepted (compare_store p m entries expected)
      → Describes m entries
  unfolding compare_store
  Describes-of_compare m entries expected h =
      go (Bool-cases (differs p expected m.collection_id))
        (Bool-cases (eqb_ℤ (pos (length entries)) m.count))
    where
      never : false ≡ true → Describes m entries
      never q = cc

      go :
          (differs p expected m.collection_id ≡ true) ⊎ (differs p expected m.collection_id ≡ false)
          → (eqb_ℤ (pos (length entries)) m.count ≡ true)
            ⊎ (eqb_ℤ (pos (length entries)) m.count ≡ false)
          → Describes m entries
      go (inl e) _ = never (rw e at h)
      go (inr e) (inr f) = never (rw (e, f) at h)
      go (inr e) (inl f) = (f, root_of_Accepted m (merkle_root p entries) (rw (e, f) at h))

  Describes-of_key :
      (key : K) (m : CollectionManifest) (entries : List Entry) (expected : Option Text)
      → Accepted (verify_manifest_with p key m entries expected)
      → Describes m entries
  unfolding verify_manifest_with
  Describes-of_key key m entries expected h = go (canonical_payload m) h
    where
      checked :
          (b : Bool)
          → Accepted (
              if b
              then compare_store p m entries expected
              else ok (refuse ManifestError.signature_invalid))
          → Describes m entries
      checked true h = Describes-of_compare m entries expected h
      checked false h = cc

      go :
          (r : Result Bytes)
          → Accepted (
              r >>= λ payload.
              if p.verifies key m.sig (manifest_domain_tag ++ payload)
              then compare_store p m entries expected
              else ok (refuse ManifestError.signature_invalid))
          → Describes m entries
      go (err e) h = cc
      go (ok payload) h = checked (p.verifies key m.sig (manifest_domain_tag ++ payload)) h

  pub Describes-of_verify :
      (m : CollectionManifest) (vf : Verifier K) (entries : List Entry) (expected : Option Text)
      → (verify_manifest p m vf entries expected).is_ok ≡ true
      → Describes m entries
  unfolding verify_manifest
  Describes-of_verify m vf entries expected h = go (public_key_for p vf m.kid) h
    where
      go :
          (o : Option K)
          → (let r : ManifestResult = elim o [
            | none ↦ refuse ManifestError.unknown_key
            | some key ↦ never_raise (verify_manifest_with p key m entries expected)
          ] in
              r.is_ok ≡ true)
          → Describes m entries
      go none h = cc
      go (some key) h = Describes-of_key key m entries expected h

  same_count :
      (k l : ℕ) (m : CollectionManifest)
      → eqb_ℤ (pos k) m.count ≡ true
      → eqb_ℤ (pos l) m.count ≡ true
      → k ≡ l
  same_count k l m h g = ground arith

  -- If one manifest is accepted for two walks, by any two verifiers, and no hash text of either
  -- walk has a NUL byte (the hash text of an unpinned record, which is empty, has none), then the
  -- walks have the same entries in the order of their ids; or two different byte strings among
  -- those that the two Merkle trees hash have one SHA-256 digest.
  pub verify_manifest_binds :
      (laws : PlatformLaws p) (m : CollectionManifest) (vf vg : Verifier K) (xs ys : List Entry)
      (e f : Option Text)
      → All PlainHash xs
      → All PlainHash ys
      → (verify_manifest p m vf xs e).is_ok ≡ true
      → (verify_manifest p m vg ys f).is_ok ≡ true
      → (sort_by record_id xs ≡ sort_by record_id ys)
        ⊎ TreesCollide p (sort_by record_id xs) (sort_by record_id ys)
  verify_manifest_binds laws m vf vg xs ys e f a b h k =
      let (count, root) = Describes-of_verify m vf xs e h in
      let (count', root') = Describes-of_verify m vg ys f k in
      merkle_root_binds p laws xs ys m.merkle_root
        (same_count (length xs) (length ys) m count count') a b root root'
