-- ===== src/Cli/Options.antt =====
-- src/vectorpin/cli.py: `build_parser` and `_add_audit_common_args`, as tables of declared options,
-- and what argparse makes of the options that a command line gives.
pub mod Meaning
pub mod Common
pub mod Required
use vector_pin.Prelude.{
  ℤ, pos, Bool, true, false, not, ◌||◌, List, [], ◌∷◌, ◌++◌, Option, none, some, all, if◌then◌else◌,
}
use vector_pin.Text.{Text, codes}
use vector_pin.Text.Equality.{text_eq}
use vector_pin.Dict.{Dict, lookup, has_key, put, contains}

-- What `add_argument` declares of an option's value: a text with its default, one of some choices,
-- an integer, a switch (`store_true`), or a text that may be given again and again (`append`).
pub data Kind : Type 0 where
  text : Option Text → Kind
  choice : List Text → Text → Kind
  number : ℤ → Kind
  switch : Kind
  repeated : Kind

pub record Declared : Type 0 where
  pub flag : Text
  pub required : Bool
  pub kind : Kind

-- The value of an attribute of the namespace.
pub data Value : Type 0 where
  absent : Value
  text_value : Text → Value
  number_value : ℤ → Value
  switch_value : Bool → Value
  list_value : List Text → Value

-- An option string that a command line gives, and its argument.
abbrev pub Given : Type 0
Given = Text × Option Text

abbrev needed : Text → Declared
needed flag = record { flag = flag; required = true; kind = text none }

abbrev optional : Text → Declared
optional flag = record { flag = flag; required = false; kind = text none }

abbrev with_default : Text → Text → Declared
with_default flag value = record { flag = flag; required = false; kind = text (some value) }

abbrev with_kind : Text → Kind → Declared
with_kind flag kind = record { flag = flag; required = false; kind = kind }

abbrev dtype_choice : Declared
dtype_choice =
    with_kind (codes "--vector-dtype") (choice (codes "f32" ∷ codes "f64" ∷ []) (codes "f32"))

-- `_add_audit_common_args`
abbrev pub audit_common_args : List Declared
audit_common_args =
    needed (codes "--public-key")
    ∷ needed (codes "--key-id")
    ∷ with_kind (codes "--batch-size") (number (pos 256))
    ∷ with_kind (codes "--allow-unpinned") switch
    ∷ with_kind (codes "--no-record-id-check") switch
    ∷ optional (codes "--collection-id")
    ∷ optional (codes "--tenant-id")
    ∷ optional (codes "--expected-model")
    ∷ optional (codes "--expected-model-hash")
    ∷ optional (codes "--manifest")
    ∷ optional (codes "--manifest-public-key")
    ∷ optional (codes "--manifest-key-id")
    ∷ optional (codes "--write-manifest")
    ∷ optional (codes "--manifest-key")
    ∷ optional (codes "--sign-summary-key")
    ∷ optional (codes "--sign-summary-key-id")
    ∷ []

abbrev pub keygen_options : List Declared
keygen_options = needed (codes "--key-id") ∷ with_default (codes "--output") (codes "keys") ∷ []

abbrev pub pin_options : List Declared
pin_options =
    needed (codes "--private-key")
    ∷ needed (codes "--key-id")
    ∷ needed (codes "--model")
    ∷ optional (codes "--model-hash")
    ∷ needed (codes "--source")
    ∷ needed (codes "--vector")
    ∷ dtype_choice
    ∷ optional (codes "--record-id")
    ∷ optional (codes "--collection-id")
    ∷ optional (codes "--tenant-id")
    ∷ []

abbrev pub verify_pin_options : List Declared
verify_pin_options =
    needed (codes "--public-key")
    ∷ needed (codes "--key-id")
    ∷ needed (codes "--pin")
    ∷ optional (codes "--source")
    ∷ optional (codes "--vector")
    ∷ dtype_choice
    ∷ optional (codes "--expected-model")
    ∷ optional (codes "--expected-model-hash")
    ∷ optional (codes "--record-id")
    ∷ optional (codes "--collection-id")
    ∷ optional (codes "--tenant-id")
    ∷ []

abbrev pub verify_summary_options : List Declared
verify_summary_options =
    needed (codes "--public-key") ∷ needed (codes "--key-id") ∷ needed (codes "--summary") ∷ []

abbrev pub audit_qdrant_options : List Declared
audit_qdrant_options =
    needed (codes "--url")
    ∷ needed (codes "--collection")
    ∷ optional (codes "--api-key")
    ∷ dtype_choice
    ∷ optional (codes "--source-payload-key")
    ∷ audit_common_args

abbrev pub audit_lancedb_options : List Declared
audit_lancedb_options =
    needed (codes "--uri")
    ∷ needed (codes "--table")
    ∷ with_default (codes "--id-column") (codes "id")
    ∷ with_default (codes "--vector-column") (codes "vector")
    ∷ optional (codes "--source-column")
    ∷ audit_common_args

abbrev pub audit_chroma_options : List Declared
audit_chroma_options =
    needed (codes "--collection")
    ∷ optional (codes "--path")
    ∷ optional (codes "--host")
    ∷ with_kind (codes "--port") (number (pos 8000))
    ∷ with_kind (codes "--ssl") switch
    ∷ with_kind (codes "--header") repeated
    ∷ optional (codes "--source-metadata-key")
    ∷ audit_common_args

abbrev pub audit_pgvector_options : List Declared
audit_pgvector_options =
    needed (codes "--dsn")
    ∷ needed (codes "--table")
    ∷ with_default (codes "--id-column") (codes "id")
    ∷ with_default (codes "--vector-column") (codes "embedding")
    ∷ with_default (codes "--pin-column") (codes "vectorpin")
    ∷ audit_common_args

-- `build_parser`: the sub-commands
abbrev pub build_parser : Dict (List Declared)
build_parser =
    (codes "keygen", keygen_options)
    ∷ (codes "pin", pin_options)
    ∷ (codes "verify-pin", verify_pin_options)
    ∷ (codes "verify-summary", verify_summary_options)
    ∷ (codes "audit-qdrant", audit_qdrant_options)
    ∷ (codes "audit-lancedb", audit_lancedb_options)
    ∷ (codes "audit-chroma", audit_chroma_options)
    ∷ (codes "audit-pgvector", audit_pgvector_options)
    ∷ []

unfoldable pub declared : Text → List Declared → Option Declared
declared flag [] = none
declared flag (d ∷ ds) = if text_eq d.flag flag then some d else declared flag ds

abbrev pub default_value : Kind → Value
default_value (text none) = absent
default_value (text (some s)) = text_value s
default_value (choice cs s) = text_value s
default_value (number n) = number_value n
default_value switch = switch_value false
default_value repeated = absent

-- An attribute so far, or its default.
unfoldable pub value_in : Declared → Dict Value → Value
unfolding lookup
value_in d ns = elim (lookup d.flag ns) [ none ↦ default_value d.kind | some v ↦ v ]

abbrev pub items_of : Value → List Text
items_of (list_value vs) = vs
items_of _ = []

module _ (to_int : Text → Option ℤ) where
  -- One action on the attribute; `none` is an error, with which argparse exits.
  unfoldable pub act : Kind → Value → Option Text → Option Value
  unfolding contains
  act (text d) old (some s) = some (text_value s)
  act (choice cs d) old (some s) = if contains s cs then some (text_value s) else none
  act (number d) old (some s) = elim (to_int s) [ none ↦ none | some n ↦ some (number_value n) ]
  act switch old none = some (switch_value true)
  act repeated old (some s) = some (list_value (items_of old ++ s ∷ []))
  act _ old _ = none

  -- The actions of a command line, in order.
  unfoldable pub act_all : List Declared → Dict Value → List Given → Option (Dict Value)
  unfolding declared value_in act put
  act_all ds ns [] = some ns
  act_all ds ns ((flag, argument) ∷ rest) = elim (declared flag ds) [
    | none ↦ none
    | some d ↦ elim (act d.kind (value_in d ns) argument) [
      | none ↦ none
      | some v ↦ act_all ds (put d.flag v ns) rest
    ]
  ]

-- `the following arguments are required`
unfoldable pub has_required : List Declared → Dict Value → Bool
has_required ds ns = all (λ d. not d.required || has_key d.flag ns) ds
