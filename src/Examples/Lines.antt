-- ===== src/Examples/Lines.antt =====
-- The theorems on command lines at concrete inputs.
use vector_pin.Prelude.{Bool, false, List, [], ◌∷◌, Option, none, some, ◌==◌, if◌then◌else◌}
use vector_pin.Text.{Text, codes}
use vector_pin.Dict.{Dict}
use vector_pin.Cli.Options.{Declared, Given}
use vector_pin.Outcome.{Result, ok}
use vector_pin.Adapters.{PinnedRecord}
use vector_pin.Adapters.Stream.{Stream}
use vector_pin.Audit.{Report}
use vector_pin.Cli.Main.{
  Scan, exits_at_once, sub_command, Argparse, Commands, Main, runs, exits, main,
}
use vector_pin.Cli.Main.Audited.{Stores, audit_commands}
use vector_pin.Examples.{Array, toy}
use vector_pin.Examples.Runs.{now}
use vector_pin.Examples.Walks.{walk}
use vector_pin.Examples.Stores.{inputs, describe, report_of}

abbrev is_option : Text → Bool
is_option [] = false
is_option (c ∷ s) = c == b'-'

-- Options with one argument each, and switches where another option follows.
abbrev cut : List Text → List Given
cut [] = []
cut (flag ∷ []) = (flag, none) ∷ []
cut (flag ∷ value ∷ rest) =
    if is_option value then (flag, none) ∷ cut (value ∷ rest) else (flag, some value) ∷ cut rest

abbrev scan : Dict (List Declared) → List Text → Scan
scan parser [] = exits_at_once 2
scan parser (name ∷ rest) = sub_command name (cut rest) none

abbrev lib : Argparse
lib = record { scan = scan; to_int = λ s. none }

-- No command but the audits has a report.
abbrev others : Commands (Option (Result Report))
others = record {
  keygen = λ a. none;
  pin = λ a. none;
  verify_pin = λ a. none;
  verify_summary = λ a. none;
  audit_qdrant = λ a. none;
  audit_lancedb = λ a. none;
  audit_chroma = λ a. none;
  audit_pgvector = λ a. none;
}

-- A store of a pinned record and an unpinned one.
abbrev stream : Option (Stream (PinnedRecord Array))
stream = some (record { yielded = walk.records; raised = none })

abbrev stores : Stores Array
stores = record {
  qdrant = λ a. ok stream;
  lancedb = λ a. ok stream;
  chroma = λ a. some (ok stream);
  pgvector = λ a. ok stream;
}

-- The collection id is given twice.
abbrev options : List Text
options =
    codes "--allow-unpinned"
    ∷ codes "--dsn"
    ∷ codes "d"
    ∷ codes "--table"
    ∷ codes "t"
    ∷ codes "--public-key"
    ∷ codes "k.pub"
    ∷ codes "--key-id"
    ∷ codes "k1"
    ∷ codes "--collection-id"
    ∷ codes "a"
    ∷ codes "--collection-id"
    ∷ codes "b"
    ∷ []

abbrev line : List Text
line = codes "audit-pgvector" ∷ options

abbrev answer : Main (Option (Result Report))
answer = main lib (audit_commands toy inputs describe now others stores) line

abbrev report_in : Main (Option (Result Report)) → Option (Result Report)
report_in (exits n) = none
report_in (runs r) = r

abbrev report : Report
report = report_of (report_in answer)
