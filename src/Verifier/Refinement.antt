-- ===== src/Verifier/Refinement.antt =====
-- `Verifier.verify` against the description in Verifier/Accepts.antt.
use vector_pin.Prelude.{
  ◌≡◌, subst, ==_iff, ◌↔◌, true, not, ◌==◌, Option, none, some, arith, length, Option-cases, inl,
  inr, not-false,
}
use vector_pin.Text.{Text}
use vector_pin.Dict.{lookup}
use vector_pin.Platform.{Platform}
use vector_pin.Attestation.{Pin}
use vector_pin.Attestation.Parse.{elem_ℤ}
use vector_pin.Verifier.{
  Verifier, KeyEntry, Expected, accepted, check_window, check_signature, check_source, check_vector,
  check_expected, check_model, check_replay, require_aware, verify_with, verify_inner, outcome,
  verify, record_id_key, collection_id_key, tenant_id_key,
}
use vector_pin.Verifier.Steps.{
  VerifyError, Step, pass, fail, raised, fail_if, attempt, ▹-eq-pass, fail_if-eq-pass,
  three-eq-pass, seven-eq-pass,
}
use vector_pin.Verifier.Accepts.{Accepts}
use vector_pin.Verifier.Checks.{
  check_expected_iff, require_aware_iff, check_window_iff, check_signature_iff, check_source_iff,
}
use vector_pin.Verifier.Vectors.{check_vector_iff}

module _ {K S A : Type 0} (p : Platform K S A) (vf : Verifier K) (pin : Pin) (x : Expected A) where
  abbrev key_step : Option (KeyEntry K) → Step
  key_step o = elim o [ none ↦ fail VerifyError.unknown_key | some e ↦ verify_with p e pin x ]

  abbrev model_step : Expected A → Step
  model_step x = check_expected x.model (some pin.header.model) VerifyError.model_mismatch

  abbrev model_hash_step : Expected A → Step
  model_hash_step x = check_expected x.model_hash pin.header.model_hash VerifyError.model_mismatch

  abbrev expect : Option Text → Text → VerifyError → Step
  expect o key e = check_expected o (lookup key pin.header.extra) e

  Accepts-of_pass : verify_inner p vf pin x ≡ pass → Accepts p vf pin x
  unfolding verify_inner verify_with check_model check_replay
  Accepts-of_pass h =
      let (version, sig, rest) =
        three-eq-pass
          (fail_if (not (elem_ℤ pin.header.v (accepted vf))) VerifyError.unsupported_version)
          (fail_if (not (length pin.sig == 64)) VerifyError.signature_invalid)
          (key_step (lookup pin.header.kid vf.keys)) h in
      elim (Option-cases (lookup pin.header.kid vf.keys)) [
        | inl missing ↦ absurd (never (subst (λ o. key_step o ≡ pass) missing rest))
        | inr (e, found) ↦
            let (aware, window, signature, source, vector, models, replay) =
              seven-eq-pass (attempt (require_aware x.trusted_time) (λ _. pass))
                (check_window p e pin.header.ts x.trusted_time) (check_signature p e pin)
                (check_source p pin.header x.source) (check_vector p pin.header x.vector)
                (check_model pin.header x) (check_replay pin.header.extra x)
                (subst (λ o. key_step o ≡ pass) found rest) in
            let (model, model_hash) = (▹-eq-pass (model_step x) (model_hash_step x)).0 models in
            let (rid, cid, tid) =
              three-eq-pass (expect x.record_id record_id_key VerifyError.record_mismatch)
                (expect x.collection_id collection_id_key VerifyError.collection_mismatch)
                (expect x.tenant_id tenant_id_key VerifyError.tenant_mismatch) replay in
            record {
              version = not-false _ (fail_if-eq-pass _ _ version);
              sig_length = (==_iff (length pin.sig) 64).0 (not-false _ (fail_if-eq-pass _ _ sig));
              registered = e;
              found = found;
              in_window = (check_window_iff p e pin.header.ts x.trusted_time).0 window;
              trusted_aware = (require_aware_iff x.trusted_time).0 aware;
              signed = (check_signature_iff p e pin).0 signature;
              source = (check_source_iff p pin.header x.source).0 source;
              vector = (check_vector_iff p pin.header x.vector).0 vector;
              model = (check_expected_iff x.model (some pin.header.model) _).0 model;
              model_hash = (check_expected_iff x.model_hash pin.header.model_hash _).0 model_hash;
              record_id =
                  (check_expected_iff x.record_id (lookup record_id_key pin.header.extra) _).0 rid;
              collection_id =
                  (check_expected_iff x.collection_id (lookup collection_id_key pin.header.extra)
                      _).0
                    cid;
              tenant_id =
                  (check_expected_iff x.tenant_id (lookup tenant_id_key pin.header.extra) _).0 tid;
            }
      ]
    where
      never : fail VerifyError.unknown_key ≡ pass → ⊥
      never q = ground arith

  pass_of_Accepts : Accepts p vf pin x → verify_inner p vf pin x ≡ pass
  unfolding verify_inner verify_with check_model check_replay
  pass_of_Accepts a = rw (
    a.version,
    a.sig_length,
    a.found,
    (require_aware_iff x.trusted_time).1 a.trusted_aware,
    (check_window_iff p a.registered pin.header.ts x.trusted_time).1 a.in_window,
    (check_signature_iff p a.registered pin).1 a.signed,
    (check_source_iff p pin.header x.source).1 a.source,
    (check_vector_iff p pin.header x.vector).1 a.vector,
    (check_expected_iff x.model (some pin.header.model) _).1 a.model,
    (check_expected_iff x.model_hash pin.header.model_hash VerifyError.model_mismatch).1
        a.model_hash,
    (check_expected_iff x.record_id (lookup record_id_key pin.header.extra) _).1 a.record_id,
    (check_expected_iff x.collection_id (lookup collection_id_key pin.header.extra) _).1
        a.collection_id,
    (check_expected_iff x.tenant_id (lookup tenant_id_key pin.header.extra) _).1 a.tenant_id,
  )

  ok_of_pass : (s : Step) → ((outcome p s).is_ok ≡ true) ↔ (s ≡ pass)
  unfolding outcome
  ok_of_pass pass = ground arith
  ok_of_pass (fail e) = ground arith
  ok_of_pass (raised e) = ground arith

  -- `verify` reports success exactly when the pin is accepted: its version is one that the
  -- verifier accepts, its signature has 64 bytes, its key is registered, its time lies in the
  -- key's window, a trusted time that is given is aware, the signature verifies over the canonical
  -- bytes, and the source, vector, model, model hash and replay identifiers that are given agree
  -- with the pin.
  pub verify_refines :
      ((verify p vf pin x).is_ok ≡ true → Accepts p vf pin x)
      × (Accepts p vf pin x → (verify p vf pin x).is_ok ≡ true)
  unfolding verify
  verify_refines = (
    λ h. Accepts-of_pass ((ok_of_pass (verify_inner p vf pin x)).0 h),
    λ a. (ok_of_pass (verify_inner p vf pin x)).1 (pass_of_Accepts a),
  )
