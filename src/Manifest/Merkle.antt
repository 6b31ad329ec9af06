-- ===== src/Manifest/Merkle.antt =====
-- `_leaf` and `merkle_root`.
pub mod Order
pub mod Total
pub mod Climb
pub mod Leaves
pub mod Binding
use vector_pin.Prelude.{
  ℕ, zero, suc, Bool, true, false, List, [], ◌∷◌, ◌++◌, Option, if◌then◌else◌, length,
}
use vector_pin.Outcome.{Result, ok, err, Exc, ◌>>=◌, ◌>>◌, raise_if}
use vector_pin.Text.{Text, Bytes, encode_utf8}
use vector_pin.Text.Sort.{sort_by, has_twins}
use vector_pin.Platform.{Platform}
use vector_pin.Hash.{hash_prefix, hex, hash_bytes}

-- `(record_id, vec_hash)`
abbrev pub Entry : Type 0
Entry = Text × Text

abbrev pub record_id : Entry → Text
record_id e = e.0

module _ {K S A : Type 0} (p : Platform K S A) where
  -- The bytes that a leaf hashes.
  unfoldable pub leaf_bytes : Entry → Result Bytes
  leaf_bytes (rid, vh) = do
    id_bytes ← encode_utf8 rid
    hash_text ← encode_utf8 vh
    ok (0 ∷ (id_bytes ++ 0 ∷ hash_text))

  -- `_leaf`
  unfoldable pub leaf : Entry → Result Bytes
  unfolding leaf_bytes
  leaf e = do bytes ← leaf_bytes e; ok (p.sha256 bytes)

  unfoldable pub leaves : List Entry → Result (List Bytes)
  unfolding leaf
  leaves [] = ok []
  leaves (e ∷ es) = leaf e >>= λ h. leaves es >>= λ hs. ok (h ∷ hs)

  unfoldable pub node : Bytes → Bytes → Bytes
  node a b = p.sha256 (1 ∷ (a ++ b))

  -- One level up: neighbours are hashed together, an odd last one with itself.
  unfoldable pub level_up : List Bytes → List Bytes
  unfolding node
  level_up [] = []
  level_up (a ∷ []) = node a a ∷ []
  level_up (a ∷ b ∷ r) = node a b ∷ level_up r

  -- `while len(level) > 1`, on fuel; `level[0]` at the end
  unfoldable pub climb : ℕ → List Bytes → Option Bytes
  unfolding level_up
  climb zero level = Option.none
  climb (suc f) [] = Option.none
  climb (suc f) (a ∷ []) = Option.some a
  climb (suc f) (a ∷ b ∷ r) = climb f (level_up (a ∷ b ∷ r))

  abbrev pub root_text : Option Bytes → Result Text
  root_text Option.none = err Exc.other
  root_text (Option.some h) = ok (hash_prefix ++ hex h)

  abbrev pub root_of_sorted : List Entry → Result Text
  root_of_sorted [] = ok (hash_bytes p [])
  root_of_sorted (e ∷ es) = leaves (e ∷ es) >>= λ level. root_text (climb (length level) level)

  -- `merkle_root`
  unfoldable pub merkle_root : List Entry → Result Text
  unfolding leaves climb has_twins sort_by hash_bytes
  merkle_root entries =
      let items = sort_by record_id entries in
      raise_if (has_twins record_id items) Exc.value_error >> root_of_sorted items
