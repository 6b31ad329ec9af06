-- ===== src/Examples/Walks.antt =====
-- The theorems on manifests, records and audits at concrete inputs.
use vector_pin.Signer.{sign_with_domain}
use vector_pin.Adapters.{PinnedRecord, Policy, verify_record}
use vector_pin.Adapters.Accepts.{PinnedPasses, UnpinnedPasses, verify_record_refines}
use vector_pin.Manifest.{
  canonical_payload, validate_ts, validate_id, CollectionManifest, build_manifest, verify_manifest,
  accept,
}
use vector_pin.Manifest.Verifies.{build_verifies}
use vector_pin.Verifier.{public_key_for}
use vector_pin.Audit.{
  audit_signed, audit_written, audit_manifest, Walk, Options, Report, audit_loop, audit_walk,
}
use vector_pin.Dict.{lookup}
use vector_pin.Prelude.{
  ℕ, pos, ◌≡◌, refl, ◌↔◌, ◌⊎◌, true, false, List, [], ◌∷◌, none, some, All, map, ◌+◌, arith,
}
use vector_pin.Outcome.{ok, err}
use vector_pin.Text.{Bytes, codes, encode_utf8}
use vector_pin.Hash.{hex}
use vector_pin.Manifest.Merkle.{Entry, merkle_root, climb}
use vector_pin.Manifest.Merkle.Order.{merkle_root_perm}
use vector_pin.Manifest.Merkle.Total.{climb_total}
use vector_pin.Audit.Counters.{
  Passes, ManifestPasses, audit_loop_fails_closed, audit_walk_counts, tolerated, entry_of,
}
use vector_pin.Json.{dumps, escape_char, end}
use mathlib.Core.List.Perm
use vector_pin.Examples.{Array, toy, toy_laws}
use vector_pin.Examples.Runs.{signer, array, now, pinned, verifier}

abbrev pub two_entries : List Entry
two_entries = (codes "r1", codes "h1") ∷ (codes "r2", []) ∷ []

abbrev pub swapped : List Entry
swapped = (codes "r2", []) ∷ (codes "r1", codes "h1") ∷ []

merkle_root_perm_example : merkle_root toy two_entries ≡ merkle_root toy swapped
merkle_root_perm_example =
    merkle_root_perm toy two_entries swapped
      (Perm.swap (codes "r2", []) (codes "r1", codes "h1") [])

climb_total_example : (h : Bytes) × (climb toy 3 ((1 ∷ []) ∷ (2 ∷ []) ∷ (3 ∷ []) ∷ []) ≡ some h)
climb_total_example =
    climb_total toy 3 ((1 ∷ []) ∷ (2 ∷ []) ∷ (3 ∷ []) ∷ []) (omega arith) (λ e. cc)

abbrev strict : Policy
strict = record {
  source_key = none;
  allow_unpinned = false;
  enforce_record_id = true;
  expected_model = some (codes "m");
  expected_model_hash = none;
  expected_collection_id = none;
  expected_tenant_id = none;
}

-- A pinned record and an unpinned one, after which the iterator raises.
abbrev pub walk : Walk Array
walk = record {
  records =
      record {
        id = codes "r1";
        vector = array;
        pin = some pinned;
        metadata = [];
        parse_error = none;
      }
      ∷ record { id = codes "r2"; vector = array; pin = none; metadata = []; parse_error = none }
      ∷ [];
  aborted = some (codes "lost");
}

abbrev options : Options ℕ ℕ
options = record {
  label_field = codes "collection";
  label_value = codes "c";
  policy = strict;
  manifest = none;
  manifest_verifier = none;
  write_manifest = none;
  summary_signer = none;
  now = now;
}

audit_walk_counts_example :
    let c = audit_walk toy verifier strict walk in
    (c.verified + c.bad + tolerated toy verifier strict c ≡ 3)
    × (c.total ≡ 2)
    × (c.entries ≡ map (entry_of toy verifier strict) walk.records)
audit_walk_counts_example = audit_walk_counts toy verifier strict walk

abbrev pub manifest : CollectionManifest
manifest = elim (build_manifest toy signer (codes "c") two_entries now) [
  | ok m ↦ m
  | err e ↦ record {
    collection_id = [];
    count = pos 9;
    merkle_root = [];
    ts = [];
    kid = [];
    sig = [];
    v = pos 0;
  }
]

pub manifest_built : build_manifest toy signer (codes "c") two_entries now ≡ ok manifest
unfolding build_manifest merkle_root encode_utf8 validate_id validate_ts canonical_payload dumps
    escape_char hex sign_with_domain
manifest_built = refl

pub signer_known : public_key_for toy verifier (codes "k1") ≡ some 7
unfolding public_key_for lookup
signer_known = refl

-- The manifest of other entries, checked with the pins' own verifier.
abbrev checked : Options ℕ ℕ
checked = record options { manifest = some manifest }

abbrev report : Report
report = elim (audit_loop toy verifier checked walk) [
  | ok r ↦ r
  | err e ↦ record { summary = end; written = none; exit_code = 9 }
]

reported : audit_loop toy verifier checked walk ≡ ok report
unfolding audit_loop audit_written audit_signed audit_manifest audit_walk verify_manifest
reported = refl

audit_loop_fails_closed_example : (report.exit_code ≡ 0) ↔ (
    (walk.aborted ≡ none)
    × All (Passes toy verifier strict) walk.records
    × ManifestPasses toy verifier checked walk)
audit_loop_fails_closed_example = audit_loop_fails_closed toy verifier checked walk report reported

build_verifies_example :
    verify_manifest toy manifest verifier swapped (some manifest.collection_id) ≡ accept
build_verifies_example =
    build_verifies toy toy_laws signer (codes "c") two_entries swapped now manifest verifier
      manifest_built (Perm.swap (codes "r2", []) (codes "r1", codes "h1") []) signer_known

abbrev with_source : Policy
with_source = record strict { source_key = some (codes "text") }

abbrev stored_record : PinnedRecord Array
stored_record = record {
  id = codes "r1";
  vector = array;
  pin = some pinned;
  metadata = (codes "text", some (codes "hi")) ∷ [];
  parse_error = none;
}

verify_record_refines_example :
    ((verify_record toy stored_record verifier with_source).is_ok ≡ true
      → (stored_record.parse_error ≡ none)
        × (UnpinnedPasses toy verifier with_source stored_record
            ⊎ PinnedPasses toy verifier with_source stored_record))
    × ((stored_record.parse_error ≡ none)
          × (UnpinnedPasses toy verifier with_source stored_record
              ⊎ PinnedPasses toy verifier with_source stored_record)
        → (verify_record toy stored_record verifier with_source).is_ok ≡ true)
verify_record_refines_example = verify_record_refines toy verifier with_source stored_record
