-- ===== src/Cli/Main/Policy.antt =====
-- `main` of src/vectorpin/cli.py: the flags that an audit command runs with are those of the
-- command line.
use vector_pin.Prelude.{
  ℤ, ◌≡◌, ◌⊎◌, inl, inr, refl, sym, ap, ◌∙◌, subst, Bool, true, false, not, ◌||◌, Bool-cases, List,
  [], ◌∷◌, Option, none, some, if◌then◌else◌, is_empty, arith, All,
}
use vector_pin.Text.{Text, codes}
use vector_pin.Text.Equality.{text_eq, text_eq_iff}
use vector_pin.Dict.{Dict, lookup, contains}
use vector_pin.Cli.Audit.{AuditArgs}
use vector_pin.Cli.Options.{
  Declared, text, switch, Value, absent, text_value, switch_value, Given, declared, act_all,
  build_parser, audit_common_args, audit_qdrant_options, audit_lancedb_options,
  audit_chroma_options, audit_pgvector_options, default_value, has_required,
}
use vector_pin.Cli.Options.Meaning.{arguments, last_text, meaning, value_in-meaning}
use vector_pin.Cli.Main.{sub_command, Argparse, Commands, runs, dispatch, main}
use vector_pin.Cli.Arguments.{
  Namespace, attribute, as_option, as_switch, QdrantArgs, LancedbArgs, ChromaArgs, PgvectorArgs,
  audit_args_of, qdrant_args_of, lancedb_args_of, chroma_args_of, pgvector_args_of, as_text,
}
use vector_pin.Cli.Options.Common.{
  Common, audit_qdrant-Common, audit_lancedb-Common, audit_chroma-Common, audit_pgvector-Common,
}
use vector_pin.Cli.Options.Required.{required-given}
use vector_pin.Cli.Main.Found.{main-Found}

-- A switch is given; the last argument that an option is given.
abbrev pub is_given : Text → List Given → Bool
is_given flag given = not (is_empty (arguments flag given))

abbrev pub last_given : Text → List Given → Option Text
last_given flag given = last_text (arguments flag given)

-- The verification policy of an audit command is the one that the command line asks for.
pub record AsGiven (given : List Given) (a : AuditArgs) : Type 0 where
  pub public_key : last_given (codes "--public-key") given ≡ some a.public_key
  pub key_id : last_given (codes "--key-id") given ≡ some a.key_id
  pub allow_unpinned : a.allow_unpinned ≡ is_given (codes "--allow-unpinned") given
  pub no_record_id_check : a.no_record_id_check ≡ is_given (codes "--no-record-id-check") given
  pub collection_id : a.collection_id ≡ last_given (codes "--collection-id") given
  pub tenant_id : a.tenant_id ≡ last_given (codes "--tenant-id") given
  pub expected_model : a.expected_model ≡ last_given (codes "--expected-model") given
  pub expected_model_hash : a.expected_model_hash ≡ last_given (codes "--expected-model-hash") given
  pub manifest : a.manifest ≡ last_given (codes "--manifest") given
  pub manifest_public_key : a.manifest_public_key ≡ last_given (codes "--manifest-public-key") given
  pub manifest_key_id : a.manifest_key_id ≡ last_given (codes "--manifest-key-id") given

module _ (to_int : Text → Option ℤ) (options : List Declared) (attributes : Dict Value)
    (given : List Given) (acted : act_all to_int options [] given ≡ some attributes) where
  abbrev ns : Namespace
  ns = record { options = options; attributes = attributes }

  attribute-meaning :
      (d : Declared)
      → declared d.flag options ≡ some d
      → attribute ns d.flag ≡ meaning to_int d.kind (default_value d.kind) (arguments d.flag given)
  unfolding attribute
  attribute-meaning d known =
      rw known (value_in-meaning to_int options d given attributes known acted)

  switch_at-given :
      (flag : Text)
      → declared flag options ≡ some (record { flag = flag; required = false; kind = switch })
      → as_switch (attribute ns flag) ≡ is_given flag given
  switch_at-given flag known =
      ap as_switch
        (attribute-meaning (record { flag = flag; required = false; kind = switch }) known)
      ∙ by_empty (is_empty (arguments flag given))
    where
      by_empty :
          (b : Bool) → as_switch (if b then switch_value false else switch_value true) ≡ not b
      by_empty true = refl
      by_empty false = refl

  option_at-given :
      (flag : Text)
      → declared flag options ≡ some (record { flag = flag; required = false; kind = text none })
      → as_option (attribute ns flag) ≡ last_given flag given
  option_at-given flag known =
      ap as_option
        (attribute-meaning (record { flag = flag; required = false; kind = text none }) known)
      ∙ by_last (last_given flag given)
    where
      by_last : (o : Option Text) → as_option (elim o [ none ↦ absent | some s ↦ text_value s ]) ≡ o
      by_last none = refl
      by_last (some s) = refl

  needed_at-given :
      (flag : Text)
      → declared flag options ≡ some (record { flag = flag; required = true; kind = text none })
      → has_required options attributes ≡ true
      → last_given flag given ≡ some (as_text (attribute ns flag))
  needed_at-given flag known there =
      let (s, last) = required-given to_int options flag given attributes known acted there in
      let read : as_text (attribute ns flag) ≡ s =
        ap as_text
          (attribute-meaning (record { flag = flag; required = true; kind = text none }) known)
        ∙ ap (λ o. as_text (elim o as (λ _. Value) [ none ↦ absent | some t ↦ text_value t ]))
            last in
      last ∙ ap some (sym read)

  audit_args_of-AsGiven :
      has_required options attributes ≡ true
      → All (λ d. declared d.flag options ≡ some d) audit_common_args
      → AsGiven given (audit_args_of ns)
  unfolding audit_args_of
  audit_args_of-AsGiven there
        (
          public,
          (named, (_, (pin, (id, (cid, (tid, (model, (hash, (manifest, (key, (kid, _))))))))))),
        ) =
      record {
        public_key = needed_at-given (codes "--public-key") public there;
        key_id = needed_at-given (codes "--key-id") named there;
        allow_unpinned = switch_at-given (codes "--allow-unpinned") pin;
        no_record_id_check = switch_at-given (codes "--no-record-id-check") id;
        collection_id = option_at-given (codes "--collection-id") cid;
        tenant_id = option_at-given (codes "--tenant-id") tid;
        expected_model = option_at-given (codes "--expected-model") model;
        expected_model_hash = option_at-given (codes "--expected-model-hash") hash;
        manifest = option_at-given (codes "--manifest") manifest;
        manifest_public_key = option_at-given (codes "--manifest-public-key") key;
        manifest_key_id = option_at-given (codes "--manifest-key-id") kid;
      }

-- The command that ran, with the flags `a`.
abbrev pub RunsAudit : {R : Type 0} → Commands R → Text → AuditArgs → R → Type 0
RunsAudit c name a r =
    ((name ≡ codes "audit-qdrant") × ((x : QdrantArgs) × (x.audit ≡ a) × (r ≡ c.audit_qdrant x)))
    ⊎ (((name ≡ codes "audit-lancedb")
          × ((x : LancedbArgs) × (x.audit ≡ a) × (r ≡ c.audit_lancedb x)))
        ⊎ (((name ≡ codes "audit-chroma")
              × ((x : ChromaArgs) × (x.audit ≡ a) × (r ≡ c.audit_chroma x)))
            ⊎ ((name ≡ codes "audit-pgvector")
                × ((x : PgvectorArgs) × (x.audit ≡ a) × (r ≡ c.audit_pgvector x)))))

abbrev pub audit_names : List Text
audit_names =
    codes "audit-qdrant"
    ∷ codes "audit-lancedb"
    ∷ codes "audit-chroma"
    ∷ codes "audit-pgvector"
    ∷ []

module _ (lib : Argparse) {R : Type 0} (c : Commands R) (argv : List Text) (given : List Given)
    (r : R) where
  abbrev AuditRun : Text → Type 0
  AuditRun name = (a : AuditArgs) × RunsAudit c name a r × AsGiven given a

  some_injective : {x y : R} → some x ≡ some y → x ≡ y
  some_injective q = ground arith

  run_audit :
      (name : Text) (options : List Declared) (run : Namespace → R)
      → lookup name build_parser ≡ some options
      → Common options
      → ((ns : Namespace) → dispatch ns c name ≡ some (run ns))
      → ((ns : Namespace) → RunsAudit c name (audit_args_of ns) (run ns))
      → lib.scan build_parser argv ≡ sub_command name given none
      → main lib c argv ≡ runs r
      → AuditRun name
  run_audit name options run found common dispatches which scanned h =
      let (attributes, (acted, there, ran)) =
        main-Found lib c argv given r name options scanned found h in
      let ns : Namespace = record { options = options; attributes = attributes } in
      (
        audit_args_of ns,
        subst (RunsAudit c name (audit_args_of ns)) (some_injective (sym (dispatches ns) ∙ ran))
            (which ns),
        audit_args_of-AsGiven lib.to_int options attributes given acted there common,
      )

  run_qdrant :
      lib.scan build_parser argv ≡ sub_command (codes "audit-qdrant") given none
      → main lib c argv ≡ runs r
      → AuditRun (codes "audit-qdrant")
  unfolding lookup dispatch qdrant_args_of
  run_qdrant =
      run_audit (codes "audit-qdrant") audit_qdrant_options
        (λ ns. c.audit_qdrant (qdrant_args_of ns)) refl audit_qdrant-Common (λ ns. refl)
        (λ ns. inl (refl, (qdrant_args_of ns, refl, refl)))

  run_lancedb :
      lib.scan build_parser argv ≡ sub_command (codes "audit-lancedb") given none
      → main lib c argv ≡ runs r
      → AuditRun (codes "audit-lancedb")
  unfolding lookup dispatch lancedb_args_of
  run_lancedb =
      run_audit (codes "audit-lancedb") audit_lancedb_options
        (λ ns. c.audit_lancedb (lancedb_args_of ns)) refl audit_lancedb-Common (λ ns. refl)
        (λ ns. inr (inl (refl, (lancedb_args_of ns, refl, refl))))

  run_chroma :
      lib.scan build_parser argv ≡ sub_command (codes "audit-chroma") given none
      → main lib c argv ≡ runs r
      → AuditRun (codes "audit-chroma")
  unfolding lookup dispatch chroma_args_of
  run_chroma =
      run_audit (codes "audit-chroma") audit_chroma_options
        (λ ns. c.audit_chroma (chroma_args_of ns)) refl audit_chroma-Common (λ ns. refl)
        (λ ns. inr (inr (inl (refl, (chroma_args_of ns, refl, refl)))))

  run_pgvector :
      lib.scan build_parser argv ≡ sub_command (codes "audit-pgvector") given none
      → main lib c argv ≡ runs r
      → AuditRun (codes "audit-pgvector")
  unfolding lookup dispatch pgvector_args_of
  run_pgvector =
      run_audit (codes "audit-pgvector") audit_pgvector_options
        (λ ns. c.audit_pgvector (pgvector_args_of ns)) refl audit_pgvector-Common (λ ns. refl)
        (λ ns. inr (inr (inr (refl, (pgvector_args_of ns, refl, refl)))))

  -- Where `main` runs an audit command, on a command line that argparse cuts into its name and the
  -- options given, it runs the function of that command, with the public key and the key id that
  -- were given last, and a verification policy that is the one asked for: unpinned records are
  -- allowed, and the check of record ids is off, exactly when their switch is given; and the
  -- collection, the tenant, the model, its hash and the manifest with its key are the last argument
  -- that their option was given, if any.
  pub main-RunsAudit :
      (name : Text)
      → contains name audit_names ≡ true
      → lib.scan build_parser argv ≡ sub_command name given none
      → main lib c argv ≡ runs r
      → (a : AuditArgs) × RunsAudit c name a r × AsGiven given a
  unfolding contains
  main-RunsAudit name audit scanned h =
      by_name (codes "audit-qdrant") run_qdrant
        (by_name (codes "audit-lancedb") run_lancedb (
          by_name (codes "audit-chroma") run_chroma
            (by_name (codes "audit-pgvector") run_pgvector (λ q. absurd (ground arith)))))
        audit
    where
      by_name :
          (known : Text) {rest : Bool}
          → (lib.scan build_parser argv ≡ sub_command known given none
              → main lib c argv ≡ runs r
              → AuditRun known)
          → (rest ≡ true → AuditRun name)
          → (text_eq known name || rest) ≡ true
          → AuditRun name
      by_name known run others q = by_test (Bool-cases (text_eq known name))
        where
          by_test : (text_eq known name ≡ true) ⊎ (text_eq known name ≡ false) → AuditRun name
          by_test (inl e) =
              let same : known ≡ name = (text_eq_iff known name).0 e in
              subst AuditRun same (
                run
                  (subst (λ n. lib.scan build_parser argv ≡ sub_command n given none) (sym same)
                    scanned)
                  h)
          by_test (inr e) = others (rw e at q)
