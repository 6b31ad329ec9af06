-- ===== src/Cli/Main/Audited.antt =====
-- `main` of src/vectorpin/cli.py, when it runs an audit: the policy, the key and the manifest of the
-- loop are those of the command line.
use vector_pin.Prelude.{◌≡◌, not, List, Option, none, some}
use vector_pin.Outcome.{Result, ok, Exc}
use vector_pin.Text.{Text, codes}
use vector_pin.Platform.{Platform, Datetime}
use vector_pin.Verifier.{Verifier}
use vector_pin.Adapters.{PinnedRecord, Policy}
use vector_pin.Adapters.Stream.{Stream}
use vector_pin.Audit.{Walk, Options, Report, audit_loop}
use vector_pin.Cli.{Inputs, one_key_verifier}
use vector_pin.Cli
use vector_pin.Cli.Audit.{AuditArgs, read_manifest, cmd_audit}
use vector_pin.Cli.Options.{Given}
use vector_pin.Cli.Arguments.{QdrantArgs, LancedbArgs, ChromaArgs, PgvectorArgs}
use vector_pin.Cli.Main.{Argparse, Commands}
use vector_pin.Cli.Main.Policy.{is_given, last_given}

-- What the adapters deliver for the arguments of a command: an error on connecting, or the stream
-- of records (none where the fuel did not suffice). `audit-chroma` may name no collection.
pub record Stores (A : Type 0) : Type 0 where
  pub qdrant : QdrantArgs → Result (Option (Stream (PinnedRecord A)))
  pub lancedb : LancedbArgs → Result (Option (Stream (PinnedRecord A)))
  pub chroma : ChromaArgs → Option (Result (Option (Stream (PinnedRecord A))))
  pub pgvector : PgvectorArgs → Result (Option (Stream (PinnedRecord A)))

-- The policy that a command line asks for.
pub record PolicyAsGiven (given : List Given) (policy : Policy) : Type 0 where
  pub allow_unpinned : policy.allow_unpinned ≡ is_given (codes "--allow-unpinned") given
  pub enforce_record_id :
      policy.enforce_record_id ≡ not (is_given (codes "--no-record-id-check") given)
  pub model : policy.expected_model ≡ last_given (codes "--expected-model") given
  pub model_hash : policy.expected_model_hash ≡ last_given (codes "--expected-model-hash") given
  pub collection_id : policy.expected_collection_id ≡ last_given (codes "--collection-id") given
  pub tenant_id : policy.expected_tenant_id ≡ last_given (codes "--tenant-id") given

module _ {K S A : Type 0} (p : Platform K S A) (i : Inputs A) (describe : Exc → Text)
    (now : Datetime) where
  -- One audit command over what its adapter delivers.
  abbrev pub audited :
      AuditArgs
      → Option Text
      → Text
      → Text
      → Result (Option (Stream (PinnedRecord A)))
      → Option (Result Report)
  audited a source_key label value store =
      cmd_audit p i describe a source_key label value now store (λ s. s)

  abbrev chroma_audited :
      ChromaArgs → Option (Result (Option (Stream (PinnedRecord A)))) → Option (Result Report)
  chroma_audited x none = none
  chroma_audited x (some store) =
      audited x.audit x.source_metadata_key (codes "collection") x.collection store

  -- The commands of the parser, where the four audits are the audits over the stores.
  abbrev pub audit_commands :
      Commands (Option (Result Report)) → Stores A → Commands (Option (Result Report))
  audit_commands base stores = record base {
    audit_qdrant = λ x.
        audited x.audit x.source_payload_key (codes "collection") x.collection (stores.qdrant x);
    audit_lancedb = λ x. audited x.audit x.source_column (codes "table") x.table (stores.lancedb x);
    audit_chroma = λ x. chroma_audited x (stores.chroma x);
    audit_pgvector = λ x. audited x.audit none (codes "table") x.table (stores.pgvector x);
  }

  -- A report is that of the loop, under a policy, a key and a manifest.
  abbrev Looped : AuditArgs → Report → Type 0
  Looped a rep =
      (vf : Verifier K) × (o : Options K S) × (w : Walk A) × (one_key_verifier p i a.public_key
          a.key_id
        ≡ ok vf)
      × (read_manifest p i (Cli.given a.manifest) ≡ ok o.manifest)
      × ((source_key : Option Text) × (o.policy ≡ record {
        source_key = source_key;
        allow_unpinned = a.allow_unpinned;
        enforce_record_id = not a.no_record_id_check;
        expected_model = a.expected_model;
        expected_model_hash = a.expected_model_hash;
        expected_collection_id = a.collection_id;
        expected_tenant_id = a.tenant_id;
      }))
      × (audit_loop p vf o w ≡ ok rep)

  module _ (lib : Argparse) (base : Commands (Option (Result Report))) (stores : Stores A)
      (argv : List Text) (given : List Given) where
    -- A report is that of the loop, with what a command line asks for.
    abbrev pub AuditedAsGiven : Report → Type 0
    AuditedAsGiven rep =
        (vf : Verifier K) × (o : Options K S) × (w : Walk A) × ((path : Text) × (kid : Text)
          × (last_given (codes "--public-key") given ≡ some path)
          × (last_given (codes "--key-id") given ≡ some kid)
          × (one_key_verifier p i path kid ≡ ok vf))
        × (read_manifest p i (Cli.given (last_given (codes "--manifest") given)) ≡ ok o.manifest)
        × PolicyAsGiven given o.policy
        × (audit_loop p vf o w ≡ ok rep)
