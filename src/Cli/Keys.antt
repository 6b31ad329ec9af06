-- ===== src/Cli/Keys.antt =====
-- `_cmd_keygen` of src/vectorpin/cli.py: what it does to the files that are there, and what the
-- key files are good for.
pub mod Usable
use vector_pin.Prelude.{
  ◌≡◌, ◌≢◌, ◌⊎◌, refl, sym, ap, ◌∙◌, inl, inr, Bool, true, false, if◌then◌else◌, ◌++◌, some,
  Bool-cases,
}
use vector_pin.Outcome.{ok, err, Exc, >>=-eq-ok, ok-injective}
use vector_pin.Text.{Text, Bytes, codes}
use vector_pin.Dict.{lookup, has_key, put, lookup-put_same, lookup-put_other}
use vector_pin.Text.Equality.{text_dec}
use vector_pin.Platform.{Platform}
use vector_pin.Signer.{Signer, new_signer}
use vector_pin.Signer.Keys.{KeyFormats, generate, private_key_bytes, public_key_bytes}
use vector_pin.Signer.Keys.Loaded.{new_signer-eq-ok}
use vector_pin.Cli.{File, Disk, owner_only, world_readable, write_private_key, cmd_keygen}

-- The paths of the two key files.
module _ (join : Text → Text → Text) (out key_id : Text) where
  abbrev pub priv_path : Text
  priv_path = join out (key_id ++ codes ".priv")

  abbrev pub pub_path : Text
  pub_path = join out (key_id ++ codes ".pub")

-- The two files of a key.
module _ {K S A : Type 0} (p : Platform K S A) (formats : KeyFormats S) (key : S) where
  abbrev pub priv_file : File
  priv_file = record { contents = formats.private_bytes key; mode = owner_only }

  abbrev pub pub_file : File
  pub_file = record { contents = p.public_bytes (p.public_key key); mode = world_readable }

module _ {K S A : Type 0} (p : Platform K S A) (formats : KeyFormats S) (join : Text → Text → Text)
    (fresh : S) (out key_id : Text) (disk : Disk) where
  abbrev private_at : Text
  private_at = priv_path join out key_id

  abbrev public_at : Text
  public_at = pub_path join out key_id

  abbrev new_priv : File
  new_priv = priv_file p formats fresh

  abbrev new_pub : File
  new_pub = pub_file p formats fresh

  write_private_key-eq-ok :
      (path : Text) (contents : Bytes) (d : Disk)
      → write_private_key path contents disk ≡ ok d
      → (has_key path disk ≡ false)
        × (put path (record { contents = contents; mode = owner_only }) disk ≡ d)
  unfolding write_private_key
  write_private_key-eq-ok path contents d h = by_key (has_key path disk) _ h
    where
      by_key :
          (there : Bool) (written : Disk)
          → (if there then err Exc.other else ok written) ≡ ok d
          → (there ≡ false) × (written ≡ d)
      by_key true written q = cc
      by_key false written q = (refl, ok-injective q)

  -- `keygen` has made a signer, found the private path free, and written the two files.
  keygen-eq-ok :
      (after : Disk)
      → cmd_keygen p formats join fresh out key_id disk ≡ ok after
      → ((signer : Signer S) × (new_signer p fresh key_id ≡ ok signer))
        × (has_key private_at disk ≡ false)
        × (put public_at new_pub (put private_at new_priv disk) ≡ after)
  unfolding cmd_keygen generate private_key_bytes public_key_bytes
  keygen-eq-ok after h =
      let (signer, made, h) = >>=-eq-ok (new_signer p fresh key_id) _ h in
      let (d, wrote, h) =
        >>=-eq-ok (write_private_key private_at (formats.private_bytes signer.private_key) disk) _
          h in
      let (free, put_it) =
        write_private_key-eq-ok private_at (formats.private_bytes signer.private_key) d wrote in
      let same : signer.private_key ≡ fresh =
        ap (λ s. s.private_key) (new_signer-eq-ok p fresh key_id signer made).1 in
      (
        (signer, made),
        free,
        sym (ap (λ k. files k) same)
            ∙ ap (put public_at (pub_of signer.private_key)) put_it
            ∙ ok-injective h,
      )
    where
      priv_of : S → File
      priv_of k = record { contents = formats.private_bytes k; mode = owner_only }

      pub_of : S → File
      pub_of k = record { contents = p.public_bytes (p.public_key k); mode = world_readable }

      files : S → Disk
      files k = put public_at (pub_of k) (put private_at (priv_of k) disk)

  -- When `keygen` succeeds, and the two key files have different paths: no file was at the private
  -- key's path before; the private key is there now, readable by its owner only, and the public
  -- key at its path; and the file at every other path is what it was.
  pub cmd_keygen_keeps :
      (after : Disk)
      → public_at ≢ private_at
      → cmd_keygen p formats join fresh out key_id disk ≡ ok after
      → (has_key private_at disk ≡ false)
        × (lookup private_at after ≡ some new_priv)
        × (lookup public_at after ≡ some new_pub)
        × ((path : Text)
            → (path ≡ private_at) ⊎ ((path ≡ public_at) ⊎ (lookup path after ≡ lookup path disk)))
  cmd_keygen_keeps after paths_differ h =
      let (_, free, e) = keygen-eq-ok after h in
      (
        free,
        ap (lookup private_at) (sym e)
            ∙ lookup-put_other public_at private_at new_pub (put private_at new_priv disk)
                paths_differ
            ∙ lookup-put_same private_at new_priv disk,
        ap (lookup public_at) (sym e)
            ∙ lookup-put_same public_at new_pub (put private_at new_priv disk),
        λ path. elim (text_dec path private_at) [
          | inl a ↦ inl a
          | inr a ↦ inr (elim (text_dec path public_at) [
            | inl b ↦ inl b
            | inr b ↦ inr (
                ap (lookup path) (sym e)
                ∙ lookup-put_other public_at path new_pub (put private_at new_priv disk)
                    (λ z. b (sym z))
                ∙ lookup-put_other private_at path new_priv disk (λ z. a (sym z)))
          ])
        ],
      )
