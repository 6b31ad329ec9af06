-- ===== src/Cli/Keys/Usable.antt =====
-- A key pair that `_cmd_keygen` of src/vectorpin/cli.py wrote, read back by the commands that sign
-- and verify.
use vector_pin.Prelude.{◌≡◌, ◌≢◌, refl, ap, ◌∙◌, Bool, true, false, [], ◌∷◌, none, some}
use vector_pin.Outcome.{ok}
use vector_pin.Text.{Text, Bytes}
use vector_pin.Text.Equality.{text_eq_refl}
use vector_pin.Dict.{lookup, put}
use vector_pin.Hash.{little_float}
use vector_pin.Platform.{Platform, PlatformLaws}
use vector_pin.Attestation.{Pin, protocol_version}
use vector_pin.Attestation.Parse.{elem_ℤ}
use vector_pin.Verifier.{
  Verifier, ndarray, new_verifier, coerce_all, coerce_entry, key_entry, verify, accepted,
}
use vector_pin.Signer.{Signer, PinRequest, pin, signer_from_private_bytes}
use vector_pin.Signer.Verifies.{ground_truth, width_of, pin_verifies}
use vector_pin.Signer.Keys.{KeyFormats}
use vector_pin.Signer.Keys.Loaded.{new_signer-eq-ok}
use vector_pin.Cli.{
  File, Disk, Inputs, owner_only, read_private_key, read_bytes, one_key_verifier, cmd_keygen,
}
use vector_pin.Cli.Keys.{priv_path, pub_path, pub_file, cmd_keygen_keeps, keygen-eq-ok}

read_private-own :
    (quiet : Bool) (path : Text) (contents : Bytes) (disk : Disk)
    → lookup path disk ≡ some (record { contents = contents; mode = owner_only })
    → read_private_key quiet path disk ≡ ok (contents, false)
unfolding read_private_key
read_private-own quiet path contents disk h = rw (h, read_private_key) refl

read_bytes-there :
    (path : Text) (file : File) (disk : Disk)
    → lookup path disk ≡ some file
    → read_bytes path disk ≡ ok file.contents
unfolding read_bytes
read_bytes-there path file disk h = rw (h, read_bytes) refl

module _ {K S A : Type 0} (p : Platform K S A) (laws : PlatformLaws p) (formats : KeyFormats S)
    (join : Text → Text → Text) (fresh : S) (out key_id : Text) where
  -- The signer and the verifier of the new key.
  abbrev pub own_signer : Signer S
  own_signer = record { private_key = fresh; key_id = key_id }

  abbrev pub own_verifier : Verifier K
  own_verifier = record {
    keys =
        (key_id, record { public_key = p.public_key fresh; valid_from = none; valid_until = none })
        ∷ [];
    accept_v1_legacy = false;
    accepted_versions = protocol_version ∷ [];
  }

  signer_again :
      (disk : Disk) (after : Disk)
      → ((k : S) → p.from_private_bytes (formats.private_bytes k) ≡ ok k)
      → p.nfc key_id ≡ key_id
      → cmd_keygen p formats join fresh out key_id disk ≡ ok after
      → signer_from_private_bytes p (formats.private_bytes fresh) key_id ≡ ok own_signer
  unfolding signer_from_private_bytes
  signer_again disk after law normal h =
      let ((signer, made), _, _) = keygen-eq-ok p formats join fresh out key_id disk after h in
      rw (law fresh) (
        made
        ∙ ap ok (
            (new_signer-eq-ok p fresh key_id signer made).1
            ∙ ap (λ t. record { private_key = fresh; key_id = t }) normal))

  verifier_again :
      (i : Inputs A) (path : Text)
      → p.from_public_bytes (p.public_bytes (p.public_key fresh)) ≡ ok (p.public_key fresh)
      → lookup path i.disk ≡ some (pub_file p formats fresh)
      → one_key_verifier p i path key_id ≡ ok own_verifier
  unfolding one_key_verifier new_verifier coerce_all coerce_entry key_entry put
  verifier_again i path law there =
      rw (read_bytes-there path (pub_file p formats fresh) i.disk there, law) refl

  -- After a `keygen` with distinct key paths and a key id in normal form, and where the library
  -- loads the raw bytes of a key as that key: the private key file is read without a warning and
  -- gives the signer of the new key, the public key file gives its verifier, and every pin that
  -- this signer makes of an array verifies, under this verifier, against its source, the cast
  -- array and its model.
  pub keygen_pin_verifies :
      (disk : Disk) (i : Inputs A) (r : PinRequest A) (vector : A) (q : Pin)
      → ((k : S) → p.from_private_bytes (formats.private_bytes k) ≡ ok k)
      → ((k : K) → p.from_public_bytes (p.public_bytes k) ≡ ok k)
      → p.nfc key_id ≡ key_id
      → pub_path join out key_id ≢ priv_path join out key_id
      → cmd_keygen p formats join fresh out key_id disk ≡ ok i.disk
      → r.vector ≡ ndarray vector
      → pin p own_signer r ≡ ok q
      → (read_private_key i.quiet (priv_path join out key_id) i.disk
          ≡ ok (formats.private_bytes fresh, false))
        × (signer_from_private_bytes p (formats.private_bytes fresh) key_id ≡ ok own_signer)
        × (one_key_verifier p i (pub_path join out key_id) key_id ≡ ok own_verifier)
        × ((verify p own_verifier q (
              ground_truth r.source
                (p.astype (little_float (width_of q.header.vec_dtype)) vector)
                q.header.model)).is_ok
            ≡ true)
  unfolding accepted elem_ℤ lookup
  keygen_pin_verifies disk i r vector q private_law public_law normal paths h is_array pinned =
      let (_, at_priv, at_pub, _) =
        cmd_keygen_keeps p formats join fresh out key_id disk i.disk paths h in
      (
        read_private-own i.quiet (priv_path join out key_id) (formats.private_bytes fresh) i.disk
            at_priv,
        signer_again disk i.disk private_law normal h,
        verifier_again i (pub_path join out key_id) (public_law (p.public_key fresh)) at_pub,
        pin_verifies p laws own_signer r vector q own_verifier is_array pinned refl found,
      )
    where
      found :
          lookup key_id own_verifier.keys
          ≡ some (record { public_key = p.public_key fresh; valid_from = none; valid_until = none })
      found = rw (lookup, text_eq_refl key_id) refl
