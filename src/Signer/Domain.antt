-- ===== src/Signer/Domain.antt =====
-- `Signer._sign_with_domain` of src/vectorpin/signer.py.
use vector_pin.Prelude.{◌≡◌, sym, ◌++◌, ◌||◌, is_empty}
use vector_pin.Outcome.{ok, Exc, raise_if, >>=-eq-ok, ok-injective}
use vector_pin.Text.{Bytes}
use vector_pin.Text.Equality.{text_eq}
use vector_pin.Platform.{Platform}
use vector_pin.Attestation.{domain_tag}
use vector_pin.Signer.{Signer, sign_with_domain}

-- A signature that is returned is one over the tag and the payload.
pub sign_with_domain-eq-ok :
    {K S A : Type 0} (p : Platform K S A) (signer : Signer S) (tag payload sig : Bytes)
    → sign_with_domain p signer tag payload ≡ ok sig
    → sig ≡ p.sign signer.private_key (tag ++ payload)
unfolding sign_with_domain
sign_with_domain-eq-ok p signer tag payload sig h =
    let (_, _, h) =
      >>=-eq-ok (raise_if (is_empty tag || text_eq tag domain_tag) Exc.value_error) _ h in
    sym (ok-injective h)
