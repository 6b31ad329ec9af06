-- ===== src/Examples/Keys.antt =====
-- The theorems on keys and detectors at concrete inputs.
use vector_pin.Prelude.{
  ℕ, pos, negsuc, ◌≡◌, ◌≢◌, ◌⊎◌, ◌+◌, ◌==◌, arith, refl, Bool, true, false, List, [], ◌∷◌, ◌++◌,
  Option, none, some, if◌then◌else◌, ltb, is_empty,
}
use vector_pin.Outcome.{Result, ok, err, Exc}
use vector_pin.Text.{Text, Bytes, codes}
use vector_pin.Dict.{lookup, has_key}
use vector_pin.Hash.{little_float}
use vector_pin.Attestation.Checks.{check_string_safe}
use vector_pin.Verifier.{verify}
use vector_pin.Signer.{Signer, signer_from_private_bytes}
use vector_pin.Signer.Keys.{
  LoadedKey, ed25519, KeyFormats, from_pem, generate, private_key_bytes, public_key_bytes,
}
use vector_pin.Signer.Keys.Loaded.{from_pem-guards}
use vector_pin.Signer.Verifies.{ground_truth, width_of}
use vector_pin.Cli.{
  Disk, Inputs, owner_only, world_readable, read_private_key, one_key_verifier, cmd_keygen,
}
use vector_pin.Cli.Keys.{cmd_keygen_keeps, priv_file, pub_file}
use vector_pin.Cli.Keys.Usable.{own_signer, own_verifier, keygen_pin_verifies}
use vector_pin.Detectors.{
  Forest, Detector, Call, fit_call, score_call, default_settings, new_detector, calls, score,
  decide,
}
use vector_pin.Detectors.History.{calls-history}
use vector_pin.Examples.{Array, toy, toy_laws}
use vector_pin.Examples.Runs.{array, request, pinned, is_pinned}

-- A PEM file that begins with 1 is encrypted, and its key follows.
abbrev load : Bytes → Option Bytes → Result (LoadedKey ℕ)
load (c ∷ k ∷ rest) (some password) = if c == 1 then ok (ed25519 k) else err Exc.type_error
load (c ∷ k ∷ rest) none = if c == 1 then err Exc.type_error else ok (ed25519 k)
load _ _ = err Exc.type_error

abbrev formats : KeyFormats ℕ
formats = record { private_bytes = λ k. k ∷ []; load_pem_private_key = load }

abbrev is_encrypted : Bytes → Bool
is_encrypted [] = false
is_encrypted (c ∷ rest) = c == 1

abbrev loaded : Signer ℕ
loaded = record { private_key = 7; key_id = codes "k1" }

load-encrypted :
    (pem password : Bytes) (key : LoadedKey ℕ)
    → load pem (some password) ≡ ok key
    → is_encrypted pem ≡ true
load-encrypted [] password key h = cc
load-encrypted (c ∷ []) password key h = cc
load-encrypted (c ∷ k ∷ rest) password key h = ground arith

was_loaded :
    from_pem toy formats (1 ∷ 7 ∷ []) (codes "k1") (some (codes "secret")) false ≡ ok loaded
unfolding from_pem
was_loaded = refl

from_pem-guards_example :
    ((is_encrypted (1 ∷ 7 ∷ []) ≡ true) ⊎ (false ≡ true))
    × (load (1 ∷ 7 ∷ []) (some (codes "secret")) ≡ ok (ed25519 7))
    × (is_empty (codes "k1") ≡ false)
    × (codes "k1" ≡ codes "k1")
    × (check_string_safe (codes "k1") ≡ ok tt)
from_pem-guards_example =
    from_pem-guards toy formats is_encrypted load-encrypted (1 ∷ 7 ∷ []) (codes "k1")
      (some (codes "secret")) false loaded was_loaded

abbrev disk : Disk
disk = (codes "out/other.priv", record { contents = 9 ∷ []; mode = owner_only }) ∷ []

abbrev after : Disk
after =
    (codes "out/other.priv", record { contents = 9 ∷ []; mode = owner_only })
    ∷ (codes "out/k1.priv", record { contents = 7 ∷ []; mode = owner_only })
    ∷ (codes "out/k1.pub", record { contents = 7 ∷ []; mode = world_readable })
    ∷ []

abbrev join : Text → Text → Text
join directory name = directory ++ b'/' ∷ name

paths_differ : codes "out/k1.pub" ≢ codes "out/k1.priv"
paths_differ e = cc

was_generated : cmd_keygen toy formats join 7 (codes "out") (codes "k1") disk ≡ ok after
unfolding cmd_keygen generate private_key_bytes public_key_bytes
was_generated = refl

cmd_keygen_keeps_example :
    (has_key (codes "out/k1.priv") disk ≡ false)
    × (lookup (codes "out/k1.priv") after ≡ some (priv_file toy formats 7))
    × (lookup (codes "out/k1.pub") after ≡ some (pub_file toy formats 7))
    × ((path : Text)
        → (path ≡ codes "out/k1.priv")
          ⊎ ((path ≡ codes "out/k1.pub") ⊎ (lookup path after ≡ lookup path disk)))
cmd_keygen_keeps_example =
    cmd_keygen_keeps toy formats join 7 (codes "out") (codes "k1") disk after paths_differ
      was_generated

abbrev inputs : Inputs Array
inputs = record {
  disk = after;
  read_text = λ path. ok [];
  suffix = λ path. [];
  load_npy = λ path. ok none;
  from_json_values = λ t j. err Exc.value_error;
  quiet = false;
}

keygen_pin_verifies_example :
    (read_private_key false (codes "out/k1.priv") after ≡ ok (7 ∷ [], false))
    × (signer_from_private_bytes toy (7 ∷ []) (codes "k1")
        ≡ ok (own_signer toy toy_laws formats join 7 (codes "out") (codes "k1")))
    × (one_key_verifier toy inputs (codes "out/k1.pub") (codes "k1")
        ≡ ok (own_verifier toy toy_laws formats join 7 (codes "out") (codes "k1")))
    × ((verify toy (own_verifier toy toy_laws formats join 7 (codes "out") (codes "k1")) pinned (
          ground_truth
            (codes "hi")
            (toy.astype (little_float (width_of pinned.header.vec_dtype)) array)
            pinned.header.model)).is_ok
        ≡ true)
keygen_pin_verifies_example =
    keygen_pin_verifies toy toy_laws formats join 7 (codes "out") (codes "k1") disk inputs request
      array pinned (λ k. refl) (λ k. refl) refl paths_differ was_generated refl is_pinned

-- A model that remembers its last training batch, and refuses the empty one.
abbrev forest : Forest ℕ ℕ ℕ
forest = record {
  is_installed = true;
  isolation_forest = λ s. 0;
  fit_model = λ m n. if ltb 0 n then (n, ok tt) else (m, err Exc.value_error);
  score_samples = λ m e. ok (m ∷ e ∷ []);
  predict = λ m e. ok (negsuc 0 ∷ pos 1 ∷ []);
  negate = λ f. f + 1;
  greater = λ a b. ltb b a;
  decimal = λ n k. n;
}

abbrev detector : Detector ℕ
detector = record { model = 0; fitted = false }

was_made : new_detector forest (default_settings forest) ≡ ok detector
unfolding new_detector
was_made = refl

-- A call too early, a batch that is refused, and one that is accepted.
abbrev history : List (Call ℕ ℕ)
history = score_call 1 ∷ fit_call 0 ∷ fit_call 5 ∷ []

calls-history_example :
    (score forest (calls forest detector history).0 3 ≡ ok (6 ∷ 4 ∷ []))
    × (decide forest (calls forest detector history).0 3 (some 5) ≡ ok (true ∷ false ∷ []))
unfolding calls
calls-history_example =
    calls-history forest (default_settings forest) detector history 3 (some 5) was_made
