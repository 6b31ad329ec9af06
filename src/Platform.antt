-- ===== src/Platform.antt =====
-- What the code calls and does not implement: Unicode normalization, SHA-256, Ed25519 (the
-- `cryptography` package), NumPy, `json.loads` and `datetime`. Their functions are the fields of
-- one record, an argument of every definition that reaches them; what the theorems rely on are
-- the fields of `PlatformLaws`.
use vector_pin.Prelude.{ℕ, ◌≡◌, Bool, true, List, Option, length, ltb, all}
use vector_pin.Outcome.{Result}
use vector_pin.Text.{Text, Bytes}
use vector_pin.Json.{Json}

-- `np.dtype`: its `kind` letter, its `itemsize`, and whether it is little-endian.
pub record Dtype : Type 0 where
  pub kind : ℕ
  pub itemsize : ℕ
  pub is_little : Bool

-- A `datetime`: its instant, and whether it carries a time zone. An instant counts microseconds
-- from an origin before every date that `datetime` can hold.
pub record Datetime : Type 0 where
  pub instant : ℕ
  pub is_aware : Bool

pub record Platform (PublicKey PrivateKey Array : Type 0) : Type 0 where
  -- unicodedata.normalize("NFC", s)
  pub nfc : Text → Text
  -- hashlib.sha256(b).digest()
  pub sha256 : Bytes → Bytes
  -- Ed25519PublicKey.from_public_bytes, Ed25519PrivateKey.from_private_bytes
  pub from_public_bytes : Bytes → Result PublicKey
  pub from_private_bytes : Bytes → Result PrivateKey
  -- key.public_key(), key.sign(m), key.public_bytes(Raw, Raw)
  pub public_key : PrivateKey → PublicKey
  pub sign : PrivateKey → Bytes → Bytes
  pub public_bytes : PublicKey → Bytes
  -- key.verify(sig, m) returns; `false` is `InvalidSignature`
  pub verifies : PublicKey → Bytes → Bytes → Bool
  -- np.dtype(a.dtype), a.shape, a.astype(t, copy=False), np.isfinite(a).all()
  pub dtype : Array → Dtype
  pub shape : Array → List ℕ
  pub astype : Dtype → Array → Array
  pub all_finite : Array → Bool
  -- np.ascontiguousarray(a).tobytes()
  pub tobytes : Array → Bytes
  -- json.loads(s)
  pub loads : Text → Result Json
  -- datetime.fromisoformat(s); `none` is a `ValueError`
  pub fromisoformat : Text → Option Datetime
  -- t.astimezone(UTC).strftime("%Y-%m-%dT%H:%M:%SZ")
  pub strftime_utc : Datetime → Text

-- Documented behaviour of these functions.
pub record PlatformLaws {K S A : Type 0} (p : Platform K S A) : Type 0 where
  -- normalization is idempotent, and does nothing to ASCII
  pub nfc_idem : (s : Text) → p.nfc (p.nfc s) ≡ p.nfc s
  pub nfc_ascii : (s : Text) → all (λ c. ltb c 128) s ≡ true → p.nfc s ≡ s
  -- a digest is 32 bytes
  pub sha256_length : (b : Bytes) → length (p.sha256 b) ≡ 32
  pub sha256_bytes : (b : Bytes) → all (λ c. ltb c 256) (p.sha256 b) ≡ true
  -- a signature is 64 bytes, and verifies under the public half of the key that made it
  pub sign_length : (k : S) (m : Bytes) → length (p.sign k m) ≡ 64
  pub sign_bytes : (k : S) (m : Bytes) → all (λ c. ltb c 256) (p.sign k m) ≡ true
  pub sign_verifies : (k : S) (m : Bytes) → p.verifies (p.public_key k) (p.sign k m) m ≡ true
  -- a cast to the array's own dtype changes nothing, and none changes the shape
  pub astype_same : (a : A) → p.astype (p.dtype a) a ≡ a
  pub dtype_astype : (t : Dtype) (a : A) → p.dtype (p.astype t a) ≡ t
  pub shape_astype : (t : Dtype) (a : A) → p.shape (p.astype t a) ≡ p.shape a
  -- the bytes of an array determine it, its dtype and shape being given
  pub tobytes_injective :
      (a b : A) → p.dtype a ≡ p.dtype b → p.shape a ≡ p.shape b → p.tobytes a ≡ p.tobytes b → a ≡ b
