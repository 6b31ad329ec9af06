-- ===== src/Audit/Counters.antt =====
-- `_audit_loop` of src/vectorpin/cli.py: its counters and its exit code.
use vector_pin.Prelude.{
  ℕ, ◌+◌, ◌≡◌, ◌↔◌, refl, ◌∙◌, sym, Bool, true, List, [], ◌∷◌, ◌++◌, Option, none, some, arith, All,
  length, subst, if◌then◌else◌, map, append_assoc, append-nil, ◌==◌, ap,
}
use vector_pin.Outcome.{ok, >>=-eq-ok, ok-injective}
use vector_pin.Text.{Text}
use vector_pin.Platform.{Platform}
use vector_pin.Verifier.{Verifier}
use vector_pin.Manifest.{ManifestResult, CollectionManifest, verify_manifest}
use vector_pin.Manifest.Merkle.{Entry}
use vector_pin.Adapters.{PinnedRecord, Policy, verify_record}
use vector_pin.Audit.{
  Walk, Counts, no_counts, Options, Report, audit_record, audit_records, audit_walk, audit_loop,
  audit_manifest, audit_written, audit_signed, audit_summary, bad_after, entry_hash, is_unpinned,
}

module _ {K S A : Type 0} (p : Platform K S A) (vf : Verifier K) (policy : Policy) where
  -- The verdict on one record, stated without the counters: `verify_record` decides.
  abbrev pub Passes : PinnedRecord A → Type 0
  Passes r = (verify_record p r vf policy).is_ok ≡ true

  passes : PinnedRecord A → Bool
  passes r = (verify_record p r vf policy).is_ok

  -- An unpinned record is judged by the loop as `verify_record` would judge it.
  unpinned_verdict : (r : PinnedRecord A) → is_unpinned r ≡ true → passes r ≡ policy.allow_unpinned
  unfolding is_unpinned verify_record passes
  unpinned_verdict r h = ground arith

  failures : List (PinnedRecord A) → ℕ
  failures [] = 0
  failures (r ∷ rs) = (if passes r then 0 else 1) + failures rs

  bad-audit_record :
      (c : Counts) (r : PinnedRecord A)
      → (audit_record p vf policy c r).bad ≡ c.bad + (if passes r then 0 else 1)
  unfolding audit_record
  bad-audit_record c r = ground (arith, unpinned_verdict r, passes_lem r)
    where
      passes_lem : (r : PinnedRecord A) → passes r ≡ (verify_record p r vf policy).is_ok
      passes_lem r = unfold passes in refl

  bad-audit_records :
      (c : Counts) (rs : List (PinnedRecord A))
      → (audit_records p vf policy c rs).bad ≡ c.bad + failures rs
  unfolding audit_records failures
  bad-audit_records c [] = omega arith
  bad-audit_records c (r ∷ rs) =
      omega (arith, bad-audit_records (audit_record p vf policy c r) rs, bad-audit_record c r)

  no_failures : (rs : List (PinnedRecord A)) → (failures rs ≡ 0) ↔ All Passes rs
  unfolding failures passes
  no_failures [] = (λ _. tt, λ _. omega arith)
  no_failures (r ∷ rs) = ground (arith, no_failures rs)

  abbrev pub tolerated : Counts → ℕ
  tolerated c = if policy.allow_unpinned then c.unpinned else 0

  -- What one round, and so the loop, adds up to.
  balance-audit_record :
      (c : Counts) (r : PinnedRecord A)
      → c.verified + c.bad + tolerated c ≡ c.total
      → let d = audit_record p vf policy c r in d.verified + d.bad + tolerated d ≡ d.total
  unfolding audit_record
  balance-audit_record c r h = ground arith

  balance-audit_records :
      (c : Counts) (rs : List (PinnedRecord A))
      → c.verified + c.bad + tolerated c ≡ c.total
      → let d = audit_records p vf policy c rs in d.verified + d.bad + tolerated d ≡ d.total
  unfolding audit_records
  balance-audit_records c [] h = h
  balance-audit_records c (r ∷ rs) h =
      balance-audit_records (audit_record p vf policy c r) rs (balance-audit_record c r h)

  abbrev pub entry_of : PinnedRecord A → Entry
  entry_of r = (r.id, entry_hash r.pin)

  entries-audit_record :
      (c : Counts) (r : PinnedRecord A)
      → let d = audit_record p vf policy c r in
        (d.entries ≡ c.entries ++ entry_of r ∷ []) × (d.total ≡ c.total + 1)
  unfolding audit_record
  entries-audit_record c r = ground arith

  entries-audit_records :
      (c : Counts) (rs : List (PinnedRecord A))
      → let d = audit_records p vf policy c rs in
        (d.entries ≡ c.entries ++ map entry_of rs) × (d.total ≡ c.total + length rs)
  unfolding audit_records
  entries-audit_records c [] = (sym (append-nil c.entries), omega arith)
  entries-audit_records c (r ∷ rs) =
      let (e, t) = entries-audit_record c r in
      let (e', t') = entries-audit_records (audit_record p vf policy c r) rs in
      (
        e' ∙ ap (λ l. l ++ map entry_of rs) e ∙ append_assoc c.entries (entry_of r ∷ []) _,
        omega (arith, t, t'),
      )

  abbrev pub aborts : Option Text → ℕ
  aborts none = 0
  aborts (some e) = 1

  bad-audit_walk :
      (w : Walk A) → (audit_walk p vf policy w).bad ≡ failures w.records + aborts w.aborted
  unfolding audit_walk
  bad-audit_walk w = ground (arith, bad-audit_records no_counts w.records)

  -- After a walk the verified records, the failures and the tolerated unpinned records add up to
  -- the number of records, plus one failure if the walk was aborted; `total` is the number of
  -- records, and the entries are those of the records, in the order of the walk.
  pub audit_walk_counts :
      (w : Walk A)
      → let c = audit_walk p vf policy w in
        (c.verified + c.bad + tolerated c ≡ length w.records + aborts w.aborted)
        × (c.total ≡ length w.records)
        × (c.entries ≡ map entry_of w.records)
  unfolding audit_walk
  audit_walk_counts w =
      let (e, t) = entries-audit_records no_counts w.records in
      let b = balance-audit_records no_counts w.records (ground arith) in
      (ground (arith, t, b), ground (arith, t), ground (arith, e))

module _ {K S A : Type 0} (p : Platform K S A) (vf : Verifier K) where
  -- The verifier of the manifest: the one given for it, or that of the pins.
  abbrev pub manifest_key_ring : Option (Verifier K) → Verifier K
  manifest_key_ring none = vf
  manifest_key_ring (some v) = v

  -- The manifest, if one is given, is verified against these entries.
  abbrev pub Agrees : Options K S → List Entry → Option CollectionManifest → Type 0
  Agrees o entries none = Unit
  Agrees o entries (some m) =
      (verify_manifest p m (manifest_key_ring o.manifest_verifier) entries
        o.policy.expected_collection_id).is_ok
      ≡ true

  -- The manifest, if one is given, agrees with the records of the walk.
  abbrev pub ManifestPasses : Options K S → Walk A → Type 0
  ManifestPasses o w = Agrees o (map (entry_of p vf o.policy) w.records) o.manifest

  AllOk : Option ManifestResult → Type 0
  AllOk m = (r : ManifestResult) → m ≡ some r → r.is_ok ≡ true

  audit_manifest-Agrees :
      (o : Options K S) (c : Counts)
      → AllOk (audit_manifest p vf o c) ↔ Agrees o c.entries o.manifest
  unfolding audit_manifest AllOk
  audit_manifest-Agrees o c = given o.manifest o.manifest_verifier
    where
      given :
          (m : Option CollectionManifest) (v : Option (Verifier K))
          → AllOk (elim m [
            | none ↦ none
            | some m ↦ some (
                verify_manifest p m
                  (elim v [ none ↦ vf | some v ↦ v ])
                  c.entries
                  o.policy.expected_collection_id)
          ])
            ↔ Agrees (record o { manifest_verifier = v }) c.entries m
      given none v = (λ h. tt, λ h r e. cc)
      given (some m) none = (λ h. h _ refl, λ h r e. ground arith)
      given (some m) (some v) = (λ h. h _ refl, λ h r e. ground arith)

  exit_code-audit_loop :
      (o : Options K S) (w : Walk A) (r : Report)
      → audit_loop p vf o w ≡ ok r
      → let c = audit_walk p vf o.policy w in
        r.exit_code ≡ (if bad_after p (audit_manifest p vf o c) c.bad == 0 then 0 else 1)
  unfolding audit_loop
  exit_code-audit_loop o w r h =
      let c = audit_walk p vf o.policy w in
      let (_, _, h) = >>=-eq-ok (audit_written p o c) _ h in
      let (_, _, h) =
        >>=-eq-ok (audit_signed p o (audit_summary p o w.aborted c (audit_manifest p vf o c))) _
          h in
      sym (ap (λ (q : Report). q.exit_code) (ok-injective h))

  bad_after_zero :
      (m : Option ManifestResult) (bad : ℕ) → (bad_after p m bad ≡ 0) ↔ ((bad ≡ 0) × AllOk m)
  unfolding bad_after AllOk
  bad_after_zero none bad = (λ h. (h, λ r e. cc), λ h. h.0)
  bad_after_zero (some m) bad =
      (λ h. (ground arith, λ r e. ground arith), λ h. ground (arith, h.1 m refl))

  -- A run that returns exits with 0 exactly when the walk was not aborted, `verify_record` accepts
  -- every record under the run's policy, and the manifest, if one is given, is verified against the
  -- ids and vector hashes of the records, under the manifest's own verifier where there is one.
  pub audit_loop_fails_closed :
      (o : Options K S) (w : Walk A) (r : Report)
      → audit_loop p vf o w ≡ ok r
      → (r.exit_code ≡ 0)
        ↔ ((w.aborted ≡ none) × All (Passes p vf o.policy) w.records × ManifestPasses o w)
  audit_loop_fails_closed o w r h =
      let c = audit_walk p vf o.policy w in
      let code = exit_code-audit_loop o w r h in
      let (bad, good) = bad_after_zero (audit_manifest p vf o c) c.bad in
      let count = bad-audit_walk p vf o.policy w in
      let (pass, fail) = no_failures p vf o.policy w.records in
      let (_, _, entries) = audit_walk_counts p vf o.policy w in
      let (agree, all_ok) = audit_manifest-Agrees o c in
      (
        λ z.
            let (zero_bad, manifest) = bad (ground arith) in
            (
              not_aborted w.aborted (omega (arith, count, zero_bad)),
              pass (omega (arith, count, zero_bad)),
              subst (λ es. Agrees o es o.manifest) entries (agree manifest),
            ),
        λ (e, ps, m).
            let none_bad : c.bad ≡ 0 = ground (arith, count, fail ps, e) in
            let z =
              good (none_bad, all_ok (subst (λ es. Agrees o es o.manifest) (sym entries) m)) in
            ground (arith, code, z),
      )
    where
      not_aborted : (a : Option Text) → aborts p vf o.policy a ≡ 0 → a ≡ none
      not_aborted none z = refl
      not_aborted (some e) z = ground arith
