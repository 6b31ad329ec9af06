-- ===== src/Cli/Main.antt =====
-- src/vectorpin/cli.py: `main`, from the command line to the command that runs.
pub mod Found
pub mod Policy
pub mod Audited
use vector_pin.Prelude.{
  ℕ, ℤ, pos, Bool, true, false, List, [], ◌∷◌, Option, none, some, if◌then◌else◌,
}
use vector_pin.Text.{Text, codes}
use vector_pin.Text.Equality.{text_eq}
use vector_pin.Dict.{Dict, lookup}
use vector_pin.Cli.{PinArgs, VerifyArgs}
use vector_pin.Cli.Audit.{AuditArgs}
use vector_pin.Cli.Options.{
  Declared, Value, absent, text_value, number_value, switch_value, list_value, Given, declared,
  value_in, act_all, has_required, build_parser,
}
use vector_pin.Cli.Arguments.{
  Namespace, attribute, as_text, as_option, as_number, as_switch, as_list, KeygenArgs, SummaryArgs,
  QdrantArgs, LancedbArgs, ChromaArgs, PgvectorArgs, text_at, audit_args_of, pin_args_of,
  verify_args_of, qdrant_args_of, lancedb_args_of, chroma_args_of, pgvector_args_of,
}

-- How argparse cuts a command line, abbreviations resolved: it exits at once, or it finds a
-- sub-command and the options given to it, up to the end or to an exit: with 0 at `--help`, with 2
-- where an option lacks its argument or something is left over.
pub data Scan : Type 0 where
  exits_at_once : ℕ → Scan
  sub_command : Text → List Given → Option ℕ → Scan

-- Functions of the standard library: the cutting of a command line, and `int(s)`.
pub record Argparse : Type 0 where
  pub scan : Dict (List Declared) → List Text → Scan
  pub to_int : Text → Option ℤ

-- The functions of `set_defaults(func=...)`
pub record Commands (R : Type 0) : Type 0 where
  pub keygen : KeygenArgs → R
  pub pin : PinArgs → R
  pub verify_pin : VerifyArgs → R
  pub verify_summary : SummaryArgs → R
  pub audit_qdrant : QdrantArgs → R
  pub audit_lancedb : LancedbArgs → R
  pub audit_chroma : ChromaArgs → R
  pub audit_pgvector : PgvectorArgs → R

module _ (ns : Namespace) where
  -- `args.func(args)`
  unfoldable pub dispatch : {R : Type 0} → Commands R → Text → Option R
  unfolding attribute pin_args_of verify_args_of qdrant_args_of lancedb_args_of chroma_args_of
      pgvector_args_of lookup
  dispatch c name = lookup name (
      (
        codes "keygen",
        c.keygen (record {
          key_id = text_at ns (codes "--key-id");
          output = text_at ns (codes "--output");
        }),
      )
      ∷ (codes "pin", c.pin (pin_args_of ns))
      ∷ (codes "verify-pin", c.verify_pin (verify_args_of ns))
      ∷ (
        codes "verify-summary",
        c.verify_summary (record {
          public_key = text_at ns (codes "--public-key");
          key_id = text_at ns (codes "--key-id");
          summary = text_at ns (codes "--summary");
        }),
      )
      ∷ (codes "audit-qdrant", c.audit_qdrant (qdrant_args_of ns))
      ∷ (codes "audit-lancedb", c.audit_lancedb (lancedb_args_of ns))
      ∷ (codes "audit-chroma", c.audit_chroma (chroma_args_of ns))
      ∷ (codes "audit-pgvector", c.audit_pgvector (pgvector_args_of ns))
      ∷ [])

-- What `main` does: it exits with a code, or it runs a command.
pub data Main (R : Type 0) : Type 0 where
  exits : ℕ → Main R
  runs : R → Main R

-- `args.func(args)`, where the parser has returned
unfoldable pub run_parsed : {R : Type 0} → Commands R → Main (Text × Namespace) → Main R
unfolding dispatch
run_parsed c (exits n) = exits n
run_parsed c (runs (name, ns)) = elim (dispatch ns c name) [ none ↦ exits 2 | some r ↦ runs r ]

module _ (lib : Argparse) where
  -- The options of one sub-command: errors exit with 2, and `--help` with 0 where it is reached
  -- before an error.
  unfoldable pub parse_options :
      Text → List Declared → List Given → Option ℕ → Main (Text × Namespace)
  unfolding act_all has_required
  parse_options name options given end = elim (act_all lib.to_int options [] given) [
    | none ↦ exits 2
    | some attributes ↦ elim end [
      | some n ↦ exits n
      | none ↦
          if has_required options attributes
          then runs (name, record { options = options; attributes = attributes })
          else exits 2
    ]
  ]

  -- `parser.parse_args(argv)`: the sub-command and its namespace
  unfoldable pub parse_args : List Text → Main (Text × Namespace)
  unfolding parse_options lookup
  parse_args argv = elim (lib.scan build_parser argv) [
    | exits_at_once n ↦ exits n
    | sub_command name given end ↦ elim (lookup name build_parser) [
      | none ↦ exits 2
      | some options ↦ parse_options name options given end
    ]
  ]

  -- `main`
  unfoldable pub main : {R : Type 0} → Commands R → List Text → Main R
  unfolding parse_args run_parsed
  main c argv = run_parsed c (parse_args argv)
