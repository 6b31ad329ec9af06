-- ===== src/Signer/Returns.antt =====
-- `Signer.pin` of src/vectorpin/signer.py: when it returns.
use vector_pin.Prelude.{◌≡◌, true, false, all, ltb, All, is_empty}
use vector_pin.Outcome.{ok}
use vector_pin.Text.{Text}
use vector_pin.Platform.{Platform, PlatformLaws}
use vector_pin.Hash.{is_1d, little_float}
use vector_pin.Signer.{Signer, PinRequest, choose_dtype, is_empty_shape}
use vector_pin.Signer.Verifies.{width_of}
use vector_pin.Signer.Clean.{NoSurrogate, Normal, Accepted, AcceptedEntry, HashNoSurrogate}

-- A request that `pin` can sign, of an array and under a dtype.
pub record Signable {K S A : Type 0} (p : Platform K S A) (signer : Signer S) (r : PinRequest A)
    (vector : A) (dtype : Text) : Type 0 where
  pub one_dim : is_1d (p.shape vector) ≡ true
  pub nonempty : is_empty_shape (p.shape vector) ≡ false
  pub chosen : choose_dtype p r.vec_dtype vector ≡ ok dtype
  pub finite : p.all_finite vector ≡ true
  pub finite_cast : p.all_finite (p.astype (little_float (width_of dtype)) vector) ≡ true
  pub key_id : Normal p signer.key_id
  pub model : Accepted p r.model
  pub model_nonempty : is_empty (p.nfc r.model) ≡ false
  pub source : NoSurrogate (p.nfc r.source)
  pub extra : All (AcceptedEntry p) r.extra
  pub model_hash : HashNoSurrogate r.model_hash
  pub ts : all (λ c. ltb c 128) (p.strftime_utc r.timestamp) ≡ true

module _ {K S A : Type 0} (p : Platform K S A) (laws : PlatformLaws p) where
  module _ (signer : Signer S) (r : PinRequest A) (vector : A) (dtype : Text)
      (s : Signable p signer r vector dtype) where
    cast : A
    cast = p.astype (little_float (width_of dtype)) vector
