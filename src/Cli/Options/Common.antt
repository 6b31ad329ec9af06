-- ===== src/Cli/Options/Common.antt =====
-- The options that every audit command declares, as `declared` finds them.
use vector_pin.Prelude.{◌≡◌, refl, List, some, All}
use vector_pin.Cli.Options.{
  Declared, declared, audit_common_args, audit_qdrant_options, audit_lancedb_options,
  audit_chroma_options, audit_pgvector_options,
}

-- The options of a command include the common ones.
abbrev pub Common : List Declared → Type 0
Common options = All (λ d. declared d.flag options ≡ some d) audit_common_args

pub audit_qdrant-Common : Common audit_qdrant_options
unfolding declared
audit_qdrant-Common = (
  refl,
  (
    refl,
    (
      refl,
      (
        refl,
        (
          refl,
          (
            refl,
            (refl, (refl, (refl, (refl, (refl, (refl, (refl, (refl, (refl, (refl, tt)))))))))),
          ),
        ),
      ),
    ),
  ),
)

pub audit_lancedb-Common : Common audit_lancedb_options
unfolding declared
audit_lancedb-Common = (
  refl,
  (
    refl,
    (
      refl,
      (
        refl,
        (
          refl,
          (
            refl,
            (refl, (refl, (refl, (refl, (refl, (refl, (refl, (refl, (refl, (refl, tt)))))))))),
          ),
        ),
      ),
    ),
  ),
)

pub audit_chroma-Common : Common audit_chroma_options
unfolding declared
audit_chroma-Common = (
  refl,
  (
    refl,
    (
      refl,
      (
        refl,
        (
          refl,
          (
            refl,
            (refl, (refl, (refl, (refl, (refl, (refl, (refl, (refl, (refl, (refl, tt)))))))))),
          ),
        ),
      ),
    ),
  ),
)

pub audit_pgvector-Common : Common audit_pgvector_options
unfolding declared
audit_pgvector-Common = (
  refl,
  (
    refl,
    (
      refl,
      (
        refl,
        (
          refl,
          (
            refl,
            (refl, (refl, (refl, (refl, (refl, (refl, (refl, (refl, (refl, (refl, tt)))))))))),
          ),
        ),
      ),
    ),
  ),
)
