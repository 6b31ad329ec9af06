-- ===== src/Examples/Runs.antt =====
-- The theorems on pins and their verification at concrete inputs.
use vector_pin.Signer.{Signer, PinRequest, pin}
use vector_pin.Verifier.{Verifier, ndarray, verify, accepted, Expected}
use vector_pin.Dict.{put, lookup}
use vector_pin.Prelude.{ℕ, pos, ◌≡◌, refl, ◌⊎◌, true, false, [], ◌∷◌, ◌++◌, none, some, ◌≢◌, all}
use vector_pin.Outcome.{Result, ok, err}
use vector_pin.Text.{Bytes, codes, encode_utf8}
use vector_pin.Platform.{Datetime}
use vector_pin.Hash.{f32, little_float, np_dtype, hash_text, hash_vector, hex}
use vector_pin.Attestation.{
  PinHeader, Pin, protocol_version, manifest_domain_tag, audit_summary_domain_tag,
}
use vector_pin.Attestation.Encode.{canonicalize, normalized, canonicalize_v1, sorted_items, to_json}
use vector_pin.Attestation.Printed.{to_json-printable}
use vector_pin.Json.Characters.{is_printable}
use vector_pin.Signer.Verifies.{ground_truth, pin_verifies}
use vector_pin.Verifier.Accepts.{Accepts}
use vector_pin.Verifier.Meaning.{Diagnosis}
use vector_pin.Verifier.Refinement.{verify_refines}
use vector_pin.Verifier.Tampering.{verify_one_vector}
use vector_pin.Hash.Binding.{CollisionOf}
use vector_pin.Attestation.Canonical.Rows.{SameHeader}
use vector_pin.Attestation.Canonical.{canonicalize_injective, domains_disjoint}
use vector_pin.Json.{dumps, escape_char}
use vector_pin.Attestation.Parse.{elem_ℤ}
use vector_pin.Examples.{Array, toy, toy_laws}

abbrev pub signer : Signer ℕ
signer = record { private_key = 7; key_id = codes "k1" }

abbrev pub array : Array
array = record {
  dtype = little_float 4;
  shape = 2 ∷ [];
  contents = 1 ∷ 2 ∷ 3 ∷ 4 ∷ 5 ∷ 6 ∷ 7 ∷ 8 ∷ [];
}

abbrev pub now : Datetime
now = record { instant = 5; is_aware = true }

abbrev pub request : PinRequest Array
request = record {
  source = codes "hi";
  model = codes "m";
  vector = ndarray array;
  vec_dtype = none;
  model_hash = none;
  timestamp = now;
  extra = (codes "b", codes "2") ∷ (codes "a", codes "1") ∷ [];
}

abbrev pub pin_of : Result Pin → Pin
pin_of (ok q) = q
pin_of (err e) = record {
  header = record {
    v = pos 0;
    kid = [];
    model = [];
    source_hash = [];
    vec_hash = [];
    vec_dtype = [];
    vec_dim = pos 0;
    ts = [];
    model_hash = none;
    extra = [];
  };
  sig = [];
}

abbrev pub pinned : Pin
pinned = pin_of (pin toy signer request)

pub is_pinned : pin toy signer request ≡ ok pinned
unfolding pin hash_text encode_utf8 hash_vector canonicalize dumps sorted_items escape_char hex
is_pinned = refl

to_json-printable_example :
    (all is_printable (to_json pinned) ≡ true)
    × (encode_utf8 (to_json pinned) ≡ ok (to_json pinned))
to_json-printable_example = to_json-printable pinned

abbrev pub verifier : Verifier ℕ
verifier = record {
  keys =
      (codes "k0", record { public_key = 3; valid_from = some now; valid_until = none })
      ∷ (codes "k1", record { public_key = 7; valid_from = none; valid_until = none })
      ∷ [];
  accept_v1_legacy = false;
  accepted_versions = protocol_version ∷ [];
}

key_found :
    lookup (codes "k1") verifier.keys
    ≡ some (record { public_key = 7; valid_from = none; valid_until = none })
unfolding lookup
key_found = refl

current : elem_ℤ protocol_version (accepted verifier) ≡ true
unfolding elem_ℤ accepted
current = refl

abbrev pub truth : Expected Array
truth = ground_truth (codes "hi") array (codes "m")

pin_verified : (verify toy verifier pinned truth).is_ok ≡ true
unfolding pin verify hash_text encode_utf8 hash_vector canonicalize dumps sorted_items escape_char
    hex
pin_verified =
    pin_verifies toy toy_laws signer request array pinned verifier refl is_pinned current key_found

pin_verifies_example : (verify toy verifier pinned truth).is_ok ≡ true
unfolding pin verify hash_text encode_utf8 hash_vector canonicalize dumps sorted_items escape_char
    hex
pin_verifies_example =
    pin_verifies toy toy_laws signer request array pinned verifier refl is_pinned current key_found

verify_refines_example :
    ((verify toy verifier pinned truth).is_ok ≡ true → Accepts toy verifier pinned truth)
    × (Accepts toy verifier pinned truth → (verify toy verifier pinned truth).is_ok ≡ true)
verify_refines_example = verify_refines toy verifier pinned truth

-- Another source than the one that was pinned.
abbrev other_truth : Expected Array
other_truth = ground_truth (codes "ho") array (codes "m")

is_f32 : np_dtype pinned.header.vec_dtype ≡ ok (little_float 4)
unfolding pin np_dtype hash_text encode_utf8 hash_vector canonicalize dumps sorted_items escape_char
    hex
is_f32 = refl

verify_one_vector_example : (array ≡ array) ⊎ CollisionOf toy array.contents array.contents
verify_one_vector_example =
    verify_one_vector toy toy_laws verifier verifier pinned truth truth (little_float 4) array array
      is_f32 refl refl refl refl pin_verified pin_verified

-- A header whose `extra` has two entries.
abbrev header : PinHeader
header = record {
  v = protocol_version;
  kid = codes "k1";
  model = codes "m";
  source_hash = codes "s";
  vec_hash = codes "h";
  vec_dtype = f32;
  vec_dim = pos 12;
  ts = codes "t";
  model_hash = some (codes "q");
  extra = (codes "b", codes "2") ∷ (codes "a", codes "1") ∷ [];
}

-- The same entries, in the other order.
abbrev reordered : PinHeader
reordered = record header { extra = (codes "a", codes "1") ∷ (codes "b", codes "2") ∷ [] }

abbrev signed_bytes : Bytes
signed_bytes = elim (canonicalize toy header) [ ok b ↦ b | err e ↦ [] ]

header_signed : canonicalize toy header ≡ ok signed_bytes
unfolding canonicalize encode_utf8 dumps sorted_items put escape_char
header_signed = refl

reordered_signed : canonicalize toy reordered ≡ ok signed_bytes
unfolding canonicalize encode_utf8 dumps sorted_items put escape_char
reordered_signed = refl

canonicalize_injective_example : SameHeader (normalized toy header) (normalized toy reordered)
canonicalize_injective_example =
    canonicalize_injective toy header reordered signed_bytes header_signed reordered_signed

domains_disjoint_example :
    ((payload : Bytes) → signed_bytes ≢ manifest_domain_tag ++ payload)
    × ((payload : Bytes) → signed_bytes ≢ audit_summary_domain_tag ++ payload)
    × ((g : PinHeader) (c : Bytes) → canonicalize_v1 g ≡ ok c → signed_bytes ≢ c)
domains_disjoint_example = domains_disjoint toy header signed_bytes header_signed
