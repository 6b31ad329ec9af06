-- ===== src/Hash/Files.antt =====
-- `hash_files` of src/vectorpin/hash.py.
pub mod Streaming
use vector_pin.Prelude.{
  ℕ, zero, suc, ◌^◌, ◌≡◌, List, [], ◌∷◌, ◌++◌, Option, none, some, length, take, drop,
}
use vector_pin.Outcome.{Result, ok, err, Exc, ◌>>=◌}
use vector_pin.Text.{Text, Bytes}
use vector_pin.Text.Sort.{sort_by}
use vector_pin.Platform.{Platform}
use vector_pin.Hash.{hex, hash_prefix}

-- The object `hashlib.sha256()` and its methods.
pub record Hasher (H : Type 0) : Type 0 where
  pub start : H
  pub update : H → Bytes → H
  pub digest : H → Bytes

unfoldable pub concat : List Bytes → Bytes
concat [] = []
concat (x ∷ xs) = x ++ concat xs

-- A path, with its last component.
pub record FilePath : Type 0 where
  pub path : Text
  pub name : Text

-- `1 << 20`
abbrev pub chunk_size : ℕ
chunk_size = 2 ^ 20

-- `iter(lambda: f.read(size), b"")`, on fuel
unfoldable pub chunks : ℕ → ℕ → Bytes → List Bytes
chunks size zero left = []
chunks size (suc fuel) [] = []
chunks size (suc fuel) (b ∷ left) = take size (b ∷ left) ∷ chunks size fuel (drop size (b ∷ left))

module _ {H : Type 0} (hashlib : Hasher H) where
  unfoldable pub update_all : H → List Bytes → H
  update_all h [] = h
  update_all h (c ∷ cs) = update_all (hashlib.update h c) cs

  -- Updating with the parts of a text and hashing the whole give one digest.
  pub record HasherLaws {K S A : Type 0} (p : Platform K S A) : Type 0 where
    pub digest_parts :
        (cs : List Bytes) → hashlib.digest (update_all hashlib.start cs) ≡ p.sha256 (concat cs)

  -- The loop over the files. A file has fewer chunks than bytes, and one round finds its end.
  unfoldable pub update_files : ℕ → (Text → Result Bytes) → H → List FilePath → Result H
  unfolding update_all chunks
  update_files size read h [] = ok h
  update_files size read h (f ∷ fs) = read f.path >>= λ contents.
      update_files size read (update_all h (chunks size (suc (length contents)) contents)) fs

  unfoldable pub hash_files : (Text → Result Bytes) → List FilePath → Result Text
  unfolding update_files sort_by hex
  hash_files read paths = do
    h ← update_files chunk_size read hashlib.start (sort_by (λ f. f.name) paths)
    ok (hash_prefix ++ hex (hashlib.digest h))
