-- ===== src/Manifest/Verifies.antt =====
-- `build_manifest` and `verify_manifest` of src/vectorpin/manifest.py, one after the other.
use vector_pin.Prelude.{
  ℕ, suc, pos, eqb_ℤ, ◌≡◌, refl, sym, ap, ◌∙◌, subst, true, List, [], ◌++◌, some, length, arith,
}
use native.Mathlib.Nat.{ℕ_set}
use mathlib.Core.Logic.{∥∥₁_elim}
use mathlib.Core.List.{Perm, Permᴰ}
use vector_pin.Outcome.{ok, >>=-eq-ok, ok-injective}
use vector_pin.Text.{Text, Bytes}
use vector_pin.Text.Equality.{text_eq_refl}
use vector_pin.Json.{str}
use vector_pin.Platform.{Platform, PlatformLaws, Datetime}
use vector_pin.Attestation.{manifest_domain_tag}
use vector_pin.Signer.{Signer, sign_with_domain}
use vector_pin.Signer.Domain.{sign_with_domain-eq-ok}
use vector_pin.Verifier.{Verifier, public_key_for}
use vector_pin.Manifest.{
  CollectionManifest, accept, build_manifest, verify_manifest, verify_manifest_with, compare_store,
  canonical_payload, validate_id, validate_ts, max_collection_id_bytes, manifest_version,
}
use vector_pin.Manifest.Merkle.{Entry, merkle_root}
use vector_pin.Manifest.Merkle.Order.{merkle_root_perm}

length_of_perm {ℓ} : {A : Type ℓ} {xs ys : List A} → Permᴰ xs ys → length xs ≡ length ys
length_of_perm Permᴰ.nil = refl
length_of_perm (Permᴰ.cons e d) = ap suc (length_of_perm d)
length_of_perm (Permᴰ.swap e f) = refl
length_of_perm (Permᴰ.trans d e) = length_of_perm d ∙ length_of_perm e

length_perm {ℓ} : {A : Type ℓ} {xs ys : List A} → Perm xs ys → length xs ≡ length ys
length_perm {xs} {ys} q = ∥∥₁_elim q (ℕ_set (length xs) (length ys)) (λ d. length_of_perm d)

module _ {K S A : Type 0} (p : Platform K S A) (laws : PlatformLaws p) where
  -- What a built manifest is.
  record Built (signer : Signer S) (entries : List Entry) (m : CollectionManifest) : Type 0 where
    pub root : merkle_root p entries ≡ ok m.merkle_root
    pub count : m.count ≡ pos (length entries)
    pub kid : m.kid ≡ signer.key_id
    pub payload : Bytes
    pub is_payload : canonical_payload m ≡ ok payload
    pub sig : m.sig ≡ p.sign signer.private_key (manifest_domain_tag ++ payload)

  -- The signature is no part of what is signed.
  payload_unsigned :
      (m : CollectionManifest) (sig : Bytes)
      → canonical_payload (record m { sig = sig }) ≡ canonical_payload m
  unfolding canonical_payload
  payload_unsigned m sig = refl

  build_manifest-Built :
      (signer : Signer S) (cid : Text) (entries : List Entry) (t : Datetime)
      (m : CollectionManifest)
      → build_manifest p signer cid entries t ≡ ok m
      → Built signer entries m
  unfolding build_manifest
  build_manifest-Built signer cid entries t m h =
      let (root, e1, h) = >>=-eq-ok (merkle_root p entries) _ h in
      let (c, e2, h) = >>=-eq-ok (validate_id p max_collection_id_bytes (str cid)) _ h in
      let (ts, e3, h) = >>=-eq-ok (validate_ts (str (p.strftime_utc t))) _ h in
      let unsigned : CollectionManifest = record {
        collection_id = c;
        count = pos (length entries);
        merkle_root = root;
        ts = ts;
        kid = signer.key_id;
        sig = [];
        v = manifest_version;
      } in
      let (payload, e4, h) = >>=-eq-ok (canonical_payload unsigned) _ h in
      let (sig, e5, h) = >>=-eq-ok (sign_with_domain p signer manifest_domain_tag payload) _ h in
      subst (λ q. Built signer entries q) (ok-injective h)
        (record {
          root = e1;
          count = refl;
          kid = refl;
          payload = payload;
          is_payload = payload_unsigned unsigned sig ∙ e4;
          sig = sign_with_domain-eq-ok p signer manifest_domain_tag payload sig e5;
        })

  -- A manifest that `build_manifest` returns is accepted for the same records, walked in any
  -- order, and for its own collection id, by every verifier that knows the signer's public key
  -- under the signer's key id.
  pub build_verifies :
      (signer : Signer S) (cid : Text) (xs ys : List Entry) (t : Datetime) (m : CollectionManifest)
      (vf : Verifier K)
      → build_manifest p signer cid xs t ≡ ok m
      → Perm xs ys
      → public_key_for p vf signer.key_id ≡ some (p.public_key signer.private_key)
      → verify_manifest p m vf ys (some m.collection_id) ≡ accept
  unfolding verify_manifest
  build_verifies signer cid xs ys t m vf h q known =
      let b = build_manifest-Built signer cid xs t m h in
      let root = sym (merkle_root_perm p xs ys q) ∙ b.root in
      let counted : eqb_ℤ (pos (length ys)) m.count ≡ true =
        ap (eqb_ℤ (pos (length ys))) (b.count ∙ ap pos (length_perm q)) ∙ eqb_refl (length ys) in
      let found = ap (public_key_for p vf) b.kid ∙ known in
      let signed =
        ap (λ z. p.verifies (p.public_key signer.private_key) z (manifest_domain_tag ++ b.payload))
          b.sig
        ∙ laws.sign_verifies signer.private_key (manifest_domain_tag ++ b.payload) in
      rw (
        verify_manifest,
        found,
        verify_manifest_with,
        b.is_payload,
        signed,
        compare_store,
        text_eq_refl m.collection_id,
        counted,
        root,
        text_eq_refl m.merkle_root,
      )
    where
      eqb_refl : (n : ℕ) → eqb_ℤ (pos n) (pos n) ≡ true
      eqb_refl n = ground arith
