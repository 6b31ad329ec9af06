-- ===== src/Manifest/Summary/Verifies.antt =====
-- `sign_audit_summary` and `verify_audit_summary` of src/vectorpin/manifest.py, one after the other.
use vector_pin.Prelude.{
  ◌≡◌, refl, sym, ap, ◌∙◌, subst, ◌⊎◌, inl, inr, Bool, true, false, not, ◌&&◌, List, [], ◌∷◌, ◌++◌,
  some, arith, Bool-cases, length, all, ltb,
}
use vector_pin.Outcome.{ok, >>=-eq-ok, ok-injective}
use vector_pin.Text.{Text, Bytes, codes}
use vector_pin.Text.Equality.{text_eq, text_eq_iff, text_eq_refl}
use vector_pin.Dict.{contains}
use vector_pin.Json.{Json, Fields, end, field, str, obj}
use vector_pin.Platform.{Platform, PlatformLaws, Datetime}
use vector_pin.Attestation.{audit_summary_domain_tag}
use vector_pin.Attestation.Base64.{b64}
use vector_pin.Attestation.Base64.RoundTrip.{b64dec_iff}
use vector_pin.Attestation.Parse.{get}
use vector_pin.Verifier.{Verifier, public_key_for}
use vector_pin.Signer.{Signer, sign_with_domain}
use vector_pin.Signer.Domain.{sign_with_domain-eq-ok}
use vector_pin.Manifest.{accept, canonical_json, validate_ts}
use vector_pin.Manifest.Summary.{
  summary_sig_fields, without, add_field, summary_body, sign_audit_summary, verify_summary_with,
  verify_summary_strings, verify_summary_fields, verify_audit_summary,
}

text_eq_comm : (s t : Text) → text_eq s t ≡ text_eq t s
text_eq_comm [] [] = refl
text_eq_comm [] (d ∷ t) = refl
text_eq_comm (c ∷ s) [] = refl
text_eq_comm (c ∷ s) (d ∷ t) = ground (arith, text_eq_comm s t)

-- No field has the name.
lacks : Text → Fields → Bool
lacks k end = true
lacks k (field j v fs) = not (text_eq j k) && lacks k fs

lacks-without :
    (k : Text) (keys : List Text) (fs : Fields)
    → contains k keys ≡ true
    → lacks k (without keys fs) ≡ true
unfolding lacks without
lacks-without k keys end h = refl
lacks-without k keys (field j v fs) h =
    go (Bool-cases (contains j keys)) (Bool-cases (text_eq j k)) (lacks-without k keys fs h)
  where
    go :
        (contains j keys ≡ true) ⊎ (contains j keys ≡ false)
        → (text_eq j k ≡ true) ⊎ (text_eq j k ≡ false)
        → lacks k (without keys fs) ≡ true
        → lacks k (without keys (field j v fs)) ≡ true
    go (inl e) q ih = rw e ih
    go (inr e) (inr q) ih = rw (e, q) ih
    go (inr e) (inl q) ih =
        let same : contains j keys ≡ contains k keys =
          ap (λ z. contains z keys) ((text_eq_iff j k).0 q) in
        absurd (differ (sym e ∙ same ∙ h))
      where
        differ : false ≡ true → ⊥
        differ z = cc

lacks-add_field :
    (k j : Text) (v : Json) (fs : Fields)
    → text_eq j k ≡ false
    → lacks k fs ≡ true
    → lacks k (add_field j v fs) ≡ true
unfolding lacks add_field
lacks-add_field k j v end h e = rw h
lacks-add_field k j v (field i w fs) h e = ground (arith, lacks-add_field k j v fs h)

get-add_field :
    (k : Text) (v : Json) (fs : Fields) → lacks k fs ≡ true → get k (add_field k v fs) ≡ v
unfolding lacks add_field get
get-add_field k v end h = rw (text_eq_refl k)
get-add_field k v (field i w fs) h = ground (arith, get-add_field k v fs)

get-add_field_other :
    (k j : Text) (v : Json) (fs : Fields)
    → text_eq j k ≡ false
    → get k (add_field j v fs) ≡ get k fs
unfolding add_field get
get-add_field_other k j v end h = rw h
get-add_field_other k j v (field i w fs) h = ground (arith, get-add_field_other k j v fs h)

without-add_field :
    (k : Text) (v : Json) (fs : Fields)
    → lacks k fs ≡ true
    → without (k ∷ []) (add_field k v fs) ≡ fs
unfolding lacks add_field without contains
without-add_field k v end h = rw (text_eq_refl k)
without-add_field k v (field i w fs) h = ground (arith, without-add_field k v fs, text_eq_comm i k)

module _ {K S A : Type 0} (p : Platform K S A) (laws : PlatformLaws p) where
  abbrev kid_key : Text
  kid_key = codes "summary_kid"

  abbrev ts_key : Text
  ts_key = codes "summary_ts"

  abbrev sig_key : Text
  sig_key = codes "summary_sig"

  module _ (signer : Signer S) (summary : Fields) (now : Datetime) where
    abbrev body : Fields
    body = summary_body p signer summary now

    abbrev bare : Fields
    bare = without summary_sig_fields summary

    lacks_sig-body : lacks sig_key body ≡ true
    unfolding summary_body
    lacks_sig-body = lacks-add_field sig_key ts_key _ _ refl (
        lacks-add_field sig_key kid_key _ bare refl
          (lacks-without sig_key summary_sig_fields summary (unfold contains in refl)))

    kid-body : get kid_key body ≡ str signer.key_id
    unfolding summary_body
    kid-body =
        get-add_field_other kid_key ts_key _ _ refl
        ∙ get-add_field kid_key (str signer.key_id) bare
            (lacks-without kid_key summary_sig_fields summary (unfold contains in refl))

    ts-body : get ts_key body ≡ str (p.strftime_utc now)
    unfolding summary_body
    ts-body = get-add_field ts_key (str (p.strftime_utc now)) _ (
        lacks-add_field ts_key kid_key _ bare refl
          (lacks-without ts_key summary_sig_fields summary (unfold contains in refl)))

    abbrev with_sig : Bytes → Fields
    with_sig sig = add_field sig_key (str (b64 sig)) body

    fields_accepted :
        (payload sig : Bytes) (ts : Text) (vf : Verifier K)
        → canonical_json body ≡ ok payload
        → sig ≡ p.sign signer.private_key (audit_summary_domain_tag ++ payload)
        → validate_ts (str (p.strftime_utc now)) ≡ ok ts
        → public_key_for p vf signer.key_id ≡ some (p.public_key signer.private_key)
        → verify_audit_summary p (obj (with_sig sig)) vf ≡ accept
    unfolding verify_audit_summary
    fields_accepted payload sig ts vf e made valid known =
        let kid_field = get-add_field_other kid_key sig_key (str (b64 sig)) body refl ∙ kid-body in
        let sig_field = get-add_field sig_key (str (b64 sig)) body lacks_sig-body in
        let ts_field = get-add_field_other ts_key sig_key (str (b64 sig)) body refl ∙ ts-body in
        let rest = without-add_field sig_key (str (b64 sig)) body lacks_sig-body in
        let decoded =
          (b64dec_iff (b64 sig) sig
              (ap (all (λ c. ltb c 256)) made ∙ laws.sign_bytes signer.private_key _)).1
            refl in
        let size : length sig ≡ 64 = ap length made ∙ laws.sign_length signer.private_key _ in
        let verified =
          ap
            (λ z.
              p.verifies (p.public_key signer.private_key) z (audit_summary_domain_tag ++ payload))
            made
          ∙ laws.sign_verifies signer.private_key (audit_summary_domain_tag ++ payload) in
        rw (
          kid_field, sig_field, verify_summary_fields, verify_summary_strings, ts_field, valid,
          decoded, size, known, verify_summary_with, rest, e, verified,
        )

  -- A summary that `sign_audit_summary` returns is accepted by every verifier that knows the
  -- signer's public key under the signer's key id, provided that the timestamp of the signing is
  -- one that `_validate_ts` accepts.
  pub sign_audit_summary_verifies :
      (signer : Signer S) (summary signed : Fields) (now : Datetime) (ts : Text) (vf : Verifier K)
      → sign_audit_summary p signer summary now ≡ ok signed
      → validate_ts (str (p.strftime_utc now)) ≡ ok ts
      → public_key_for p vf signer.key_id ≡ some (p.public_key signer.private_key)
      → verify_audit_summary p (obj signed) vf ≡ accept
  unfolding sign_audit_summary
  sign_audit_summary_verifies signer summary signed now ts vf h valid known =
      let (payload, e, h) = >>=-eq-ok (canonical_json (summary_body p signer summary now)) _ h in
      let (sig, e', h) =
        >>=-eq-ok (sign_with_domain p signer audit_summary_domain_tag payload) _ h in
      subst (λ d. verify_audit_summary p (obj d) vf ≡ accept) (ok-injective h)
        (fields_accepted signer summary now payload sig ts vf e
          (sign_with_domain-eq-ok p signer audit_summary_domain_tag payload sig e') valid known)
