-- ===== src/Signer/Keys/Loaded.antt =====
-- The signers that key material gives: `Signer.from_pem`, and the raw bytes of a key.
use vector_pin.Prelude.{
  ◌≡◌, ◌⊎◌, inl, inr, refl, sym, ap, ◌∙◌, Bool, true, false, not, ◌&&◌, Option, none, some,
  is_empty, arith,
}
use vector_pin.Outcome.{ok, err, Exc, raise_if, >>=-eq-ok, raise_if-eq-ok, ok-injective}
use vector_pin.Text.{Text, Bytes}
use vector_pin.Platform.{Platform}
use vector_pin.Attestation.Checks.{check_string_safe}
use vector_pin.Signer.{Signer, new_signer, normalize_str}
use vector_pin.Signer.Keys.{LoadedKey, ed25519, other_kind, KeyFormats, is_none, from_pem}

module _ {K S A : Type 0} (p : Platform K S A) where
  -- A signer that is made: its key is the one given, and its key id the normalized one.
  pub new_signer-eq-ok :
      (key : S) (key_id : Text) (signer : Signer S)
      → new_signer p key key_id ≡ ok signer
      → (is_empty key_id ≡ false)
        × (signer ≡ record { private_key = key; key_id = p.nfc key_id })
        × (check_string_safe (p.nfc key_id) ≡ ok tt)
  unfolding new_signer normalize_str
  new_signer-eq-ok key key_id signer h =
      let (_, e, h) = >>=-eq-ok (raise_if (is_empty key_id) Exc.value_error) _ h in
      let (n, f, h) = >>=-eq-ok (normalize_str p key_id) _ h in
      let (_, safe, g) = >>=-eq-ok (check_string_safe (p.nfc key_id)) _ f in
      let same : p.nfc key_id ≡ n = ok-injective g in
      (
        raise_if-eq-ok _ Exc.value_error e,
        sym (ok-injective h) ∙ ap (λ t. record { private_key = key; key_id = t }) (sym same),
        safe,
      )

  module _ (formats : KeyFormats S) where
    loaded-eq-ok :
        (key : LoadedKey S) (key_id : Text) (signer : Signer S)
        → elim key [ ed25519 k ↦ new_signer p k key_id | other_kind ↦ err Exc.type_error ]
          ≡ ok signer
        → (k : S) × (key ≡ ed25519 k) × (new_signer p k key_id ≡ ok signer)
    loaded-eq-ok (ed25519 k) key_id signer h = (k, refl, h)
    loaded-eq-ok other_kind key_id signer h = cc

    consent :
        (is_encrypted : Bytes → Bool)
        → ((pem password : Bytes) (key : LoadedKey S)
            → formats.load_pem_private_key pem (some password) ≡ ok key
            → is_encrypted pem ≡ true)
        → (pem : Bytes) (password : Option Bytes) (allow : Bool) (key : LoadedKey S)
        → (is_none password && not allow) ≡ false
        → formats.load_pem_private_key pem password ≡ ok key
        → (is_encrypted pem ≡ true) ⊎ (allow ≡ true)
    consent is_encrypted law pem (some pw) allow key g h = inl (law pem pw key h)
    consent is_encrypted law pem none true key g h = inr refl
    consent is_encrypted law pem none false key g h = absurd (ground arith)

    -- When `Signer.from_pem` returns, where the library loads with a password only what is
    -- encrypted: the file is encrypted, or unencrypted ones were allowed; it holds an Ed25519 key,
    -- which is the signer's; and the key id is not empty, and the signer's is its normal form,
    -- which has no control, bidirectional or surrogate character.
    pub from_pem-guards :
        (is_encrypted : Bytes → Bool)
        → ((pem password : Bytes) (key : LoadedKey S)
            → formats.load_pem_private_key pem (some password) ≡ ok key
            → is_encrypted pem ≡ true)
        → (pem : Bytes) (key_id : Text) (password : Option Bytes) (allow : Bool)
        → (signer : Signer S) → from_pem p formats pem key_id password allow ≡ ok signer
        → ((is_encrypted pem ≡ true) ⊎ (allow ≡ true))
          × (formats.load_pem_private_key pem password ≡ ok (ed25519 signer.private_key))
          × (is_empty key_id ≡ false)
          × (signer.key_id ≡ p.nfc key_id)
          × (check_string_safe signer.key_id ≡ ok tt)
    unfolding from_pem
    from_pem-guards is_encrypted law pem key_id password allow signer h =
        let (_, g, h) = >>=-eq-ok (raise_if (is_none password && not allow) Exc.value_error) _ h in
        let (key, e, h) = >>=-eq-ok (formats.load_pem_private_key pem password) _ h in
        let (k, is_k, h) = loaded-eq-ok key key_id signer h in
        let (full, made, safe) = new_signer-eq-ok k key_id signer h in
        (
          consent is_encrypted law pem password allow key (raise_if-eq-ok _ Exc.value_error g) e,
          e ∙ ap ok is_k ∙ ap (λ s. ok (ed25519 s.private_key)) (sym made),
          full,
          ap (λ s. s.key_id) made,
          ap (λ s. check_string_safe s.key_id) made ∙ safe,
        )
