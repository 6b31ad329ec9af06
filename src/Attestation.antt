-- ===== src/Attestation.antt =====
-- src/vectorpin/attestation.py: the pin and its limits. The children hold the checks, the two
-- canonical encodings and the parser.
pub mod Base64
pub mod Checks
pub mod Pattern
pub mod Encode
pub mod Parse
pub mod Canonical
pub mod Printed
use vector_pin.Prelude.{ℕ, ◌^◌, ℤ, pos, Option, List, [], ◌∷◌, ◌++◌}
use vector_pin.Text.{Text, Bytes, codes}
use vector_pin.Dict.{Dict}

abbrev pub protocol_version : ℤ
protocol_version = pos 2

-- `b"vectorpin/v2\x00"`
abbrev pub domain_tag : Bytes
domain_tag = 118 ∷ 101 ∷ 99 ∷ 116 ∷ 111 ∷ 114 ∷ 112 ∷ 105 ∷ 110 ∷ 47 ∷ 118 ∷ 50 ∷ 0 ∷ []

-- The tags of the other message types, of manifest.py:
-- `b"vectorpin/manifest/v1\x00"`
abbrev pub manifest_domain_tag : Bytes
manifest_domain_tag = codes "vectorpin/manifest/v1" ++ 0 ∷ []

-- `b"vectorpin/audit-summary/v1\x00"`
abbrev pub audit_summary_domain_tag : Bytes
audit_summary_domain_tag = codes "vectorpin/audit-summary/v1" ++ 0 ∷ []

abbrev pub max_pin_json_bytes : ℕ
max_pin_json_bytes = 65536

abbrev pub max_extra_entries : ℕ
max_extra_entries = 32

abbrev pub max_extra_key_bytes : ℕ
max_extra_key_bytes = 128

abbrev pub max_extra_value_bytes : ℕ
max_extra_value_bytes = 1024

abbrev pub max_kid_bytes : ℕ
max_kid_bytes = 256

abbrev pub max_model_bytes : ℕ
max_model_bytes = 1024

abbrev pub max_vec_dim : ℕ
max_vec_dim = 1_048_576

abbrev pub sig_len : ℕ
sig_len = 64

abbrev pub Extra : Type 0
Extra = Dict Text

pub record PinHeader : Type 0 where
  pub v : ℤ
  pub kid : Text
  pub model : Text
  pub source_hash : Text
  pub vec_hash : Text
  pub vec_dtype : Text
  pub vec_dim : ℤ
  pub ts : Text
  pub model_hash : Option Text
  pub extra : Extra

pub record Pin : Type 0 where
  pub header : PinHeader
  pub sig : Bytes
