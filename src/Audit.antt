-- ===== src/Audit.antt =====
-- `_audit_loop` of src/vectorpin/cli.py: the walk over a collection, its counters, and the exit
-- code.
pub mod Counters
use vector_pin.Prelude.{
  ℕ, ◌+◌, pos, Bool, true, false, not, ◌&&◌, ◌||◌, List, [], ◌∷◌, ◌++◌, Option, none, some, ◌==◌,
  if◌then◌else◌, is_empty,
}
use vector_pin.Outcome.{Result, ok, err, ◌>>=◌}
use vector_pin.Text.{Text, codes}
use vector_pin.Json
use vector_pin.Json.{Fields, end, field, int, str}
use vector_pin.Platform.{Platform, Datetime}
use vector_pin.Attestation.{Pin, PinHeader}
use vector_pin.Verifier.{Verifier, VerificationResult}
use vector_pin.Signer.{Signer}
use vector_pin.Manifest.{
  CollectionManifest, ManifestError, ManifestResult, build_manifest, verify_manifest,
}
use vector_pin.Manifest.Merkle.{Entry}
use vector_pin.Manifest.Summary.{sign_audit_summary}
use vector_pin.Adapters.{PinnedRecord, Policy, verify_record}

-- What the iterator yields: records, and at the end the message of the exception that stopped it,
-- if one did.
pub record Walk (A : Type 0) : Type 0 where
  pub records : List (PinnedRecord A)
  pub aborted : Option Text

-- The local variables of the loop.
pub record Counts : Type 0 where
  pub total : ℕ
  pub pinned : ℕ
  pub verified : ℕ
  pub bad : ℕ
  pub unpinned : ℕ
  pub entries : List Entry

abbrev pub no_counts : Counts
no_counts = record { total = 0; pinned = 0; verified = 0; bad = 0; unpinned = 0; entries = [] }

-- The options of a run besides the verification policy.
pub record Options (K S : Type 0) : Type 0 where
  pub label_field : Text
  pub label_value : Text
  pub policy : Policy
  pub manifest : Option CollectionManifest
  pub manifest_verifier : Option (Verifier K)
  pub write_manifest : Option (Text × Signer S)
  pub summary_signer : Option (Signer S)
  pub now : Datetime

-- What a run leaves: the printed summary, the manifest that it wrote, and the exit code.
pub record Report : Type 0 where
  pub summary : Fields
  pub written : Option CollectionManifest
  pub exit_code : ℕ

-- `vec_hash = rec.pin.header.vec_hash if rec.pin is not None else ""`
unfoldable pub entry_hash : Option Pin → Text
entry_hash none = []
entry_hash (some pin) = pin.header.vec_hash

-- `rec.pin is None and rec.parse_error is None`
unfoldable pub is_unpinned : {A : Type 0} → PinnedRecord A → Bool
is_unpinned r = elim r.pin [
  | some pin ↦ false
  | none ↦ elim r.parse_error [ none ↦ true | some e ↦ false ]
]

abbrev pub has_pin : {A : Type 0} → PinnedRecord A → Bool
has_pin r = elim r.pin [ none ↦ false | some pin ↦ true ]

abbrev pub one_if : Bool → ℕ
one_if true = 1
one_if false = 0

-- The collection that a manifest is written for: `collection_id or label_value`
abbrev pub or_label : Option Text → Text → Text
or_label none label = label
or_label (some []) label = label
or_label (some (c ∷ s)) label = c ∷ s

abbrev pub add_if_some : Option Text → Text → Fields → Fields
add_if_some none key rest = rest
add_if_some (some t) key rest = field key (str t) rest

-- `ManifestError.value`
unfoldable pub manifest_error_text : ManifestError → Text
manifest_error_text ManifestError.no_error = codes "ok"
manifest_error_text ManifestError.parse_error = codes "parse_error"
manifest_error_text ManifestError.unknown_key = codes "unknown_key"
manifest_error_text ManifestError.signature_invalid = codes "signature_invalid"
manifest_error_text ManifestError.collection_mismatch = codes "collection_mismatch"
manifest_error_text ManifestError.count_mismatch = codes "count_mismatch"
manifest_error_text ManifestError.root_mismatch = codes "root_mismatch"

module _ {K S A : Type 0} (p : Platform K S A) where
  -- One round of the loop
  unfoldable pub audit_record : Verifier K → Policy → Counts → PinnedRecord A → Counts
  unfolding entry_hash is_unpinned
  audit_record verifier policy c r =
      let seen = record c {
        total = c.total + 1;
        entries = c.entries ++ (r.id, entry_hash r.pin) ∷ [];
      } in
      if is_unpinned r
      then record seen {
        unpinned = c.unpinned + 1;
        bad = if policy.allow_unpinned then c.bad else c.bad + 1;
      }
      else if (verify_record p r verifier policy).is_ok
      then record seen { pinned = c.pinned + one_if (has_pin r); verified = c.verified + 1 }
      else record seen { pinned = c.pinned + one_if (has_pin r); bad = c.bad + 1 }

  unfoldable pub audit_records : Verifier K → Policy → Counts → List (PinnedRecord A) → Counts
  audit_records verifier policy c [] = c
  audit_records verifier policy c (r ∷ rs) =
      audit_records verifier policy (audit_record verifier policy c r) rs

  -- The loop to its end: an exception of the iterator counts as one failure.
  unfoldable pub audit_walk : Verifier K → Policy → Walk A → Counts
  unfolding audit_records
  audit_walk verifier policy w =
      let c = audit_records verifier policy no_counts w.records in
      elim w.aborted [ none ↦ c | some e ↦ record c { bad = c.bad + 1 } ]

  -- The comparison with a manifest, if one is given
  unfoldable pub audit_manifest : Verifier K → Options K S → Counts → Option ManifestResult
  audit_manifest verifier o c = elim o.manifest [
    | none ↦ none
    | some m ↦ some (
        verify_manifest p m (elim o.manifest_verifier [ none ↦ verifier | some v ↦ v ]) c.entries
          o.policy.expected_collection_id)
  ]

  -- `bad` after the comparison
  unfoldable pub bad_after : Option ManifestResult → ℕ → ℕ
  bad_after none bad = bad
  bad_after (some r) bad = if r.is_ok then bad else bad + 1

  unfoldable pub audit_written : Options K S → Counts → Result (Option CollectionManifest)
  audit_written o c = elim o.write_manifest [
    | none ↦ ok none
    | some (path, signer) ↦
        (build_manifest p signer (or_label o.policy.expected_collection_id o.label_value) c.entries
            o.now
          >>= λ built. ok (some built))
  ]

  -- The summary dict, before it is signed
  unfoldable pub audit_summary : Options K S → Option Text → Counts → Option ManifestResult → Fields
  unfolding bad_after manifest_error_text
  audit_summary o aborted c m = field o.label_field (str o.label_value) (
      field (codes "total") (int (pos c.total)) (
        field (codes "pinned") (int (pos c.pinned)) (
          field (codes "verified_ok") (int (pos c.verified)) (
            field (codes "verification_failed") (int (pos (bad_after m c.bad))) (
              field (codes "unpinned") (int (pos c.unpinned)) (
                add_if_some aborted (codes "aborted") (
                  add_if_some (elim m [ none ↦ none | some r ↦ some (manifest_error_text r.error) ])
                    (codes "manifest")
                    (add_if_some
                      (elim o.write_manifest [ none ↦ none | some (path, s) ↦ some path ])
                      (codes "manifest_written") end))))))))

  unfoldable pub audit_signed : Options K S → Fields → Result Fields
  audit_signed o summary = elim o.summary_signer [
    | none ↦ ok summary
    | some signer ↦ sign_audit_summary p signer summary o.now
  ]

  -- `_audit_loop`
  unfoldable pub audit_loop : Verifier K → Options K S → Walk A → Result Report
  audit_loop verifier o w = do
    let c = audit_walk verifier o.policy w
    let m = audit_manifest verifier o c
    written ← audit_written o c
    summary ← audit_signed o (audit_summary o w.aborted c m)
    ok (record {
      summary = summary;
      written = written;
      exit_code = if bad_after m c.bad == 0 then 0 else 1;
    })
