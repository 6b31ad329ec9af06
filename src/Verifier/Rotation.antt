-- ===== src/Verifier/Rotation.antt =====
-- `Verifier.add_key` of src/vectorpin/verifier.py: what a new key changes.
use vector_pin.Prelude.{◌⊎◌, inl, inr, ◌≡◌, sym, ap, ◌∙◌, ◌||◌, Option, none, some, if◌then◌else◌}
use vector_pin.Outcome.{ok, >>=-eq-ok, ok-injective}
use vector_pin.Text.{Text}
use vector_pin.Text.Equality.{text_dec}
use vector_pin.Dict.{lookup, put, lookup-put_same, lookup-put_other}
use vector_pin.Platform.{Platform, Datetime}
use vector_pin.Attestation.{Pin}
use vector_pin.Verifier.{
  Verifier, KeyEntry, KeyArg, Expected, is_some, or_else, require_aware, key_entry, coerce_entry,
  add_key, verify, verify_inner, accepted,
}

-- The entry that `add_key` makes: a bound that is given replaces the one of the key.
abbrev pub merged : {K : Type 0} → KeyEntry K → Option Datetime → Option Datetime → KeyEntry K
merged e from until = record {
  public_key = e.public_key;
  valid_from = or_else from e.valid_from;
  valid_until = or_else until e.valid_until;
}

key_entry-eq-ok :
    {K : Type 0} (k : K) (from until : Option Datetime) (e : KeyEntry K)
    → key_entry k from until ≡ ok e
    → record { public_key = k; valid_from = from; valid_until = until } ≡ e
unfolding key_entry
key_entry-eq-ok k from until e h =
    let (_, _, h) = >>=-eq-ok (require_aware from) _ h in
    let (_, _, h) = >>=-eq-ok (require_aware until) _ h in ok-injective h

bounded-eq-ok :
    {K : Type 0} (e e' : KeyEntry K) (from until : Option Datetime)
    → (if is_some from || is_some until
        then key_entry e.public_key (or_else from e.valid_from) (or_else until e.valid_until)
        else ok e)
      ≡ ok e'
    → merged e from until ≡ e'
bounded-eq-ok e e' none none h = ok-injective h
bounded-eq-ok e e' none (some u) h = key_entry-eq-ok _ _ _ e' h
bounded-eq-ok e e' (some f) until h = key_entry-eq-ok _ _ _ e' h

module _ {K S A : Type 0} (p : Platform K S A) where
  -- What `verify` reads of the registry.
  verify_keys :
      (vf vf' : Verifier K) (pin : Pin) (x : Expected A)
      → vf'.accept_v1_legacy ≡ vf.accept_v1_legacy
      → vf'.accepted_versions ≡ vf.accepted_versions
      → lookup pin.header.kid vf'.keys ≡ lookup pin.header.kid vf.keys
      → verify p vf' pin x ≡ verify p vf pin x
  unfolding verify verify_inner accepted
  verify_keys vf vf' pin x a b c = rw (a, b, c)

  -- After a successful `add_key`, the verdict on every pin of another key id is what it was, and
  -- the key id has the entry of the key that was given, in which each bound that was given
  -- replaces the key's own.
  pub add_key_rotates :
      (vf vf' : Verifier K) (kid : Text) (key : KeyArg K) (from until : Option Datetime) (pin : Pin)
      (x : Expected A)
      → add_key p vf kid key from until ≡ ok vf'
      → ((pin.header.kid ≡ kid) ⊎ (verify p vf' pin x ≡ verify p vf pin x))
        × ((e : KeyEntry K) × (coerce_entry p key ≡ ok e)
            × (lookup kid vf'.keys ≡ some (merged e from until)))
  unfolding add_key
  add_key_rotates vf vf' kid key from until pin x h =
      let (e, is_e, h) = >>=-eq-ok (coerce_entry p key) _ h in
      let (e', is_e', h) =
        >>=-eq-ok
          (if is_some from || is_some until
            then key_entry e.public_key (or_else from e.valid_from) (or_else until e.valid_until)
            else ok e)
          _ h in
      let made : record vf { keys = put kid e' vf.keys } ≡ vf' = ok-injective h in
      (
        elim (text_dec pin.header.kid kid) [
          | inl q ↦ inl q
          | inr other ↦ inr (
              verify_keys vf vf' pin x (ap (λ v. v.accept_v1_legacy) (sym made))
                (ap (λ v. v.accepted_versions) (sym made))
                (ap (λ v. lookup pin.header.kid v.keys) (sym made)
                  ∙ lookup-put_other kid pin.header.kid e' vf.keys (λ q. other (sym q))))
        ],
        (
          e,
          is_e,
          ap (λ v. lookup kid v.keys) (sym made)
              ∙ lookup-put_same kid e' vf.keys
              ∙ ap some (sym (bounded-eq-ok e e' from until is_e')),
        ),
      )
