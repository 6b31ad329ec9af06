-- ===== src/Hash/Files/Streaming.antt =====
-- `hash_files` of src/vectorpin/hash.py, and the hash of the files' contents put together.
use vector_pin.Prelude.{
  ℕ, zero, suc, ◌<◌, ◌≤◌, ◌≡◌, refl, sym, ap, ◌∙◌, List, [], ◌∷◌, ◌++◌, append_assoc, append-nil,
  length, take, drop, take-append-drop, arith,
}
use vector_pin.Outcome.{Result, ok, err, ◌>>=◌}
use vector_pin.Text.{Text, Bytes}
use vector_pin.Text.Sort.{sort_by}
use vector_pin.Platform.{Platform}
use vector_pin.Hash.{hex, hash_prefix, hash_bytes}
use vector_pin.Hash.Files.{
  Hasher, HasherLaws, FilePath, concat, chunk_size, chunks, update_all, update_files, hash_files,
}

-- The contents of some files, one after the other.
pub read_all : (Text → Result Bytes) → List FilePath → Result (List Bytes)
read_all read [] = ok []
read_all read (f ∷ fs) =
    read f.path >>= λ contents. read_all read fs >>= λ rest. ok (contents ∷ rest)

length-drop : (k : ℕ) (l : Bytes) → length (drop k l) ≤ length l
length-drop zero l = omega arith
length-drop (suc k) [] = omega arith
length-drop (suc k) (x ∷ l) = omega (arith, length-drop k l)

length-drop_chunk :
    (size : ℕ) (b : ℕ) (left : Bytes) → 0 < size → length (drop size (b ∷ left)) ≤ length left
length-drop_chunk zero b left h = absurd (omega arith)
length-drop_chunk (suc k) b left h = length-drop k left

concat-chunks :
    (size fuel : ℕ) (left : Bytes)
    → 0 < size
    → length left < fuel
    → concat (chunks size fuel left) ≡ left
unfolding chunks concat
concat-chunks size zero left pos h = absurd (omega arith)
concat-chunks size (suc fuel) [] pos h = refl
concat-chunks size (suc fuel) (b ∷ left) pos h =
    ap (λ r. take size (b ∷ left) ++ r)
      (concat-chunks size fuel (drop size (b ∷ left)) pos
        (omega (arith, length-drop_chunk size b left pos)))
    ∙ take-append-drop size (b ∷ left)

concat-append : (xs ys : List Bytes) → concat (xs ++ ys) ≡ concat xs ++ concat ys
unfolding concat
concat-append [] ys = refl
concat-append (x ∷ xs) ys =
    ap (λ r. x ++ r) (concat-append xs ys) ∙ sym (append_assoc x (concat xs) (concat ys))

module _ {H K S A : Type 0} (hashlib : Hasher H) (p : Platform K S A)
    (laws : HasherLaws hashlib p) where
  update_all-append :
      (h : H) (xs ys : List Bytes)
      → update_all hashlib h (xs ++ ys) ≡ update_all hashlib (update_all hashlib h xs) ys
  unfolding update_all
  update_all-append h [] ys = refl
  update_all-append h (x ∷ xs) ys = update_all-append (hashlib.update h x) xs ys

  -- The digest of a state, as a hash text.
  text_of : Result H → Result Text
  text_of r = r >>= λ h. ok (hash_prefix ++ hex (hashlib.digest h))

  -- The hash of what was read before and what is read now.
  text_behind : List Bytes → Result (List Bytes) → Result Text
  text_behind done r = r >>= λ bs. ok (hash_bytes p (concat done ++ concat bs))

  files_digest :
      (size : ℕ) (read : Text → Result Bytes) (done : List Bytes) (fs : List FilePath)
      → 0 < size
      → text_of (update_files hashlib size read (update_all hashlib hashlib.start done) fs)
        ≡ text_behind done (read_all read fs)
  unfolding update_files read_all text_of text_behind concat hash_bytes
  files_digest size read done [] pos =
      ap (λ d. ok (hash_prefix ++ hex d))
        (laws.digest_parts done ∙ ap p.sha256 (sym (append-nil (concat done))))
  files_digest size read done (f ∷ fs) pos =
      go (read f.path) (λ done'. files_digest size read done' fs pos)
    where
      go :
          (r : Result Bytes)
          → ((done' : List Bytes)
              → text_of (update_files hashlib size read (update_all hashlib hashlib.start done') fs)
                ≡ text_behind done' (read_all read fs))
          → text_of (
              r >>= λ c.
              update_files hashlib size read
                (update_all hashlib
                  (update_all hashlib hashlib.start done)
                  (chunks size (suc (length c)) c))
                fs)
            ≡ text_behind done (r >>= λ c. read_all read fs >>= λ rest. ok (c ∷ rest))
      go (err x) ih = refl
      go (ok c) ih =
          ap (λ h. text_of (update_files hashlib size read h fs))
            (sym (update_all-append hashlib.start done (chunks size (suc (length c)) c)))
          ∙ ih (done ++ chunks size (suc (length c)) c)
          ∙ regroup (read_all read fs)
        where
          regroup :
              (r : Result (List Bytes))
              → text_behind (done ++ chunks size (suc (length c)) c) r
                ≡ text_behind done (r >>= λ rest. ok (c ∷ rest))
          regroup (err x) = refl
          regroup (ok bs) =
              ap (λ z. ok (hash_bytes p z))
                (ap (λ z. z ++ concat bs)
                    (concat-append done (chunks size (suc (length c)) c)
                      ∙ ap (λ z. concat done ++ z)
                          (concat-chunks size (suc (length c)) c pos (omega arith)))
                  ∙ append_assoc (concat done) c (concat bs))

  -- `hash_files` returns the hash of the contents of all files, put together in the order of their
  -- names, or the first exception that reading them raises: reading in chunks changes nothing.
  pub hash_files-concat :
      (read : Text → Result Bytes) (paths : List FilePath)
      → hash_files hashlib read paths ≡ (
          read_all read (sort_by (λ f. f.name) paths) >>= λ contents.
          ok (hash_bytes p (concat contents)))
  unfolding hash_files concat text_of text_behind
  hash_files-concat read paths =
      files_digest chunk_size read [] (sort_by (λ f. f.name) paths) (omega arith)
