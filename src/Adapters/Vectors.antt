-- ===== src/Adapters/Vectors.antt =====
-- `vector_from_store` of src/vectorpin/adapters/base.py.
pub mod Exact
use vector_pin.Prelude.{
  ℕ, ◌≡◌, Bool, true, false, not, ◌&&◌, Option, none, some, ltb, ◌==◌, if◌then◌else◌,
}
use vector_pin.Outcome.{Result, ok, err, Exc, ◌>>=◌, ◌>>◌, raise_if}
use vector_pin.Platform.{Platform, Dtype}
use vector_pin.Hash.{float_kind, is_1d}

-- What a client delivers for a vector: an array, or a sequence of numbers.
pub data Delivered (V A : Type 0) : Type 0 where
  array : A → Delivered V A
  sequence : V → Delivered V A

-- The functions of NumPy that build and compare arrays.
pub record Arrays (V A : Type 0) : Type 0 where
  -- np.asarray(values), and with dtype=np.float64
  pub from_values : V → Result A
  pub from_values_f64 : V → Result A
  -- a.astype(t)
  pub convert : Dtype → A → Result A
  -- np.array_equal(a, b)
  pub array_equal : A → A → Bool

pub record ArraysLaws {K S V A : Type 0} (p : Platform K S A) (n : Arrays V A) : Type 0 where
  -- a conversion has the dtype that it is asked for
  pub dtype_convert : (t : Dtype) (a b : A) → n.convert t a ≡ ok b → p.dtype b ≡ t

abbrev pub bool_eq : Bool → Bool → Bool
bool_eq true b = b
bool_eq false b = not b

abbrev pub dtype_eq : Dtype → Dtype → Bool
dtype_eq s t = s.kind == t.kind && s.itemsize == t.itemsize && bool_eq s.is_little t.is_little

module _ {K S V A : Type 0} (p : Platform K S A) (n : Arrays V A) where
  -- `np.asarray(values)`
  unfoldable pub as_array : Delivered V A → Result A
  as_array (array a) = ok a
  as_array (sequence v) = n.from_values v

  -- The case of no native dtype
  unfoldable pub as_delivered : Delivered V A → Result A
  as_delivered (array a) = ok a
  as_delivered (sequence v) = n.from_values_f64 v

  -- A wider array is narrowed only if that is exact.
  unfoldable pub narrow : Dtype → A → Result A
  narrow target arr = do
    narrowed ← n.convert target arr
    widened ← n.convert (p.dtype arr) narrowed
    raise_if (not (n.array_equal widened arr)) Exc.value_error
    ok narrowed

  unfoldable pub to_native : Dtype → A → Result A
  unfolding narrow
  to_native target arr =
      if dtype_eq (p.dtype arr) target
      then ok arr
      else if not ((p.dtype arr).kind == float_kind)
      then n.convert target arr
      else if ltb target.itemsize (p.dtype arr).itemsize
      then narrow target arr
      else n.convert target arr

  unfoldable pub with_native : Option Dtype → Delivered V A → Result A
  unfolding as_array as_delivered to_native
  with_native none values = as_delivered values
  with_native (some target) values = do arr ← as_array values; to_native target arr

  -- `vector_from_store`
  unfoldable pub vector_from_store : Option Dtype → Delivered V A → Result A
  unfolding with_native
  vector_from_store native values = do
    arr ← with_native native values
    raise_if (not (is_1d (p.shape arr))) Exc.value_error
    ok arr
