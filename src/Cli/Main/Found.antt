-- ===== src/Cli/Main/Found.antt =====
-- `main` of src/vectorpin/cli.py: what it has found when it runs a command.
use vector_pin.Prelude.{
  ◌≡◌, refl, sym, ap, ◌∙◌, Bool, true, false, List, [], Option, none, some, if◌then◌else◌, arith,
}
use vector_pin.Text.{Text}
use vector_pin.Dict.{Dict, lookup}
use vector_pin.Cli.Options.{Declared, Value, Given, act_all, has_required, build_parser}
use vector_pin.Cli.Main.{
  sub_command, Argparse, Commands, Main, exits, runs, dispatch, parse_options, run_parsed,
  parse_args, main,
}
use vector_pin.Cli.Arguments.{Namespace}

module _ (lib : Argparse) {R : Type 0} (c : Commands R) (argv : List Text) (given : List Given)
    (r : R) where
  -- The options were acted on, the required ones are there, and the command was found.
  abbrev pub Found : Text → List Declared → Dict Value → Type 0
  Found name options attributes =
      (act_all lib.to_int options [] given ≡ some attributes)
      × (has_required options attributes ≡ true)
      × (dispatch (record { options = options; attributes = attributes }) c name ≡ some r)

  dispatched :
      (o : Option R)
      → elim o as (λ _. Main R) [ none ↦ exits 2 | some x ↦ runs x ] ≡ runs r
      → o ≡ some r
  dispatched none h = cc
  dispatched (some x) h = ground arith

  required :
      (name : Text) (ns : Namespace) (b : Bool)
      → run_parsed c (if b then runs (name, ns) else exits 2) ≡ runs r
      → (b ≡ true) × (dispatch ns c name ≡ some r)
  unfolding run_parsed
  required name ns true h = (refl, dispatched (dispatch ns c name) h)
  required name ns false h = cc

  parse_options-Found :
      (name : Text) (options : List Declared)
      → run_parsed c (parse_options lib name options given none) ≡ runs r
      → (attributes : Dict Value) × Found name options attributes
  unfolding parse_options run_parsed
  parse_options-Found name options h = by_attributes (act_all lib.to_int options [] given) refl h
    where
      parsed : Option (Dict Value) → Main (Text × Namespace)
      parsed o = elim o [
        | none ↦ exits 2
        | some attributes ↦
            if has_required options attributes
            then runs (name, record { options = options; attributes = attributes })
            else exits 2
      ]

      by_attributes :
          (o : Option (Dict Value))
          → act_all lib.to_int options [] given ≡ o
          → run_parsed c (parsed o) ≡ runs r
          → (attributes : Dict Value) × Found name options attributes
      by_attributes none e q = cc
      by_attributes (some attributes) e q =
          let (there, run) = required name _ (has_required options attributes) q in
          (attributes, (e, there, run))

  parse_args-options :
      (name : Text) (options : List Declared)
      → lib.scan build_parser argv ≡ sub_command name given none
      → lookup name build_parser ≡ some options
      → parse_args lib argv ≡ parse_options lib name options given none
  unfolding parse_args
  parse_args-options name options scanned found = rw (scanned, parse_args, found) refl

  pub main-Found :
      (name : Text) (options : List Declared)
      → lib.scan build_parser argv ≡ sub_command name given none
      → lookup name build_parser ≡ some options
      → main lib c argv ≡ runs r
      → (attributes : Dict Value) × Found name options attributes
  unfolding main
  main-Found name options scanned found h =
      parse_options-Found name options
        (ap (run_parsed c) (sym (parse_args-options name options scanned found)) ∙ h)
