-- ===== src/Signer/Keys.antt =====
-- src/vectorpin/signer.py: `Signer.generate`, `Signer.from_pem` and the raw halves of the key.
pub mod Loaded
use vector_pin.Prelude.{Bool, true, false, not, ◌&&◌, Option, none, some}
use vector_pin.Outcome.{Result, ok, err, Exc, ◌>>=◌, ◌>>◌, raise_if}
use vector_pin.Text.{Text, Bytes}
use vector_pin.Platform.{Platform}
use vector_pin.Signer.{Signer, new_signer}

-- A private key of a PEM file: an Ed25519 key, or one of another kind.
pub data LoadedKey (S : Type 0) : Type 0 where
  ed25519 : S → LoadedKey S
  other_kind : LoadedKey S

-- Further functions of the `cryptography` package: `key.private_bytes(Raw, Raw, NoEncryption())`
-- and `load_pem_private_key(pem, password)`.
pub record KeyFormats (S : Type 0) : Type 0 where
  pub private_bytes : S → Bytes
  pub load_pem_private_key : Bytes → Option Bytes → Result (LoadedKey S)

-- `value is None`
abbrev pub is_none : {A : Type 0} → Option A → Bool
is_none none = true
is_none (some a) = false

module _ {K S A : Type 0} (p : Platform K S A) where
  -- `Signer.generate`, with the key that `Ed25519PrivateKey.generate()` returns
  unfoldable pub generate : S → Text → Result (Signer S)
  unfolding new_signer
  generate fresh key_id = new_signer p fresh key_id

  -- `public_key_bytes`
  unfoldable pub public_key_bytes : Signer S → Bytes
  public_key_bytes signer = p.public_bytes (p.public_key signer.private_key)

  module _ (formats : KeyFormats S) where
    -- `private_key_bytes`
    unfoldable pub private_key_bytes : Signer S → Bytes
    private_key_bytes signer = formats.private_bytes signer.private_key

    -- `Signer.from_pem`
    unfoldable pub from_pem : Bytes → Text → Option Bytes → Bool → Result (Signer S)
    unfolding new_signer
    from_pem pem key_id password allow_unencrypted = do
      raise_if (is_none password && not allow_unencrypted) Exc.value_error
      key ← formats.load_pem_private_key pem password
      elim key [ ed25519 k ↦ new_signer p k key_id | other_kind ↦ err Exc.type_error ]
