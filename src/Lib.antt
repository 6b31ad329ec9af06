-- ===== src/Lib.antt =====
-- VectorPin signs statements ("pins") that bind an embedding vector to its source text and model,
-- and verifies them later against the vector store. This library models the Python implementation
-- under src/vectorpin and proves what makes it correct.
--
-- The parts and their files:
--   Platform.antt      the functions the code calls and does not implement: Unicode
--                      normalization, SHA-256, Ed25519, NumPy arrays, json.loads and datetime.
--                      They are the fields of one record, an argument of every definition that
--                      reaches them; PlatformLaws names the documented behaviour that the
--                      theorems use.
--   Outcome.antt       exceptions as values, by class; their messages are not modelled.
--   Text.antt          str as code points, bytes as numbers, UTF-8, `==`, `<` and sorted().
--   Dict.antt          dict as an association list in insertion order.
--   Json.antt          json.dumps with compact separators and, where asked, ASCII escapes.
--   Hash.antt          src/vectorpin/hash.py: hash_vector and hash_text; Hash/Files.antt the streaming
--                      hash_files.
--   Attestation.antt   src/vectorpin/attestation.py: PinHeader and Pin with their limits.
--                      Its children: Base64 (_b64, _b64dec), Checks (_check_string_safe and the
--                      other string checks), Pattern (_HASH_RE, _TS_RE, _check_ts_calendar), Encode
--                      (to_dict, canonicalize, _canonicalize_v1), Parse (Pin.from_dict, one
--                      function per field, and Pin.from_json).
--   Verifier.antt      src/vectorpin/verifier.py: KeyEntry, the key registry, Verifier.verify.
--                      Verifier/Steps.antt has the results of a check: it passes, fails with a
--                      VerifyError, or raises. _verify_inner is a chain of such checks, one
--                      function for each numbered step of the source, in its order.
--                      Verifier/Accepts.antt describes acceptance without the order,
--                      Verifier/Meaning.antt what each error code means, with the faults of
--                      Verifier/Codes.antt and Verifier/Faults.antt, and
--                      Verifier/Rotation.antt what add_key changes.
--   Signer.antt        src/vectorpin/signer.py: Signer and Signer.pin. Signer/Keys.antt has generate,
--                      from_pem and the raw bytes of the key,
--                      Signer/Returns.antt the requests that pin can sign; KeyFormats are the functions of
--                      the cryptography package for key files.
--   Detectors.antt     src/vectorpin/detectors: IsolationForestDetector as a state machine over its
--                      method calls; Forest has what it calls of scikit-learn, whose fit may raise
--                      and leave the model changed.
--   Manifest.antt      src/vectorpin/manifest.py: CollectionManifest, build_manifest and
--                      verify_manifest; Manifest/Merkle.antt has merkle_root, whose levels and
--                      leaves Merkle/Climb.antt and Merkle/Leaves.antt treat, and
--                      Manifest/Summary.antt the signed audit summary.
--   Adapters.antt      src/vectorpin/adapters/base.py: PinnedRecord, parse_pin_field and
--                      verify_record; Adapters/Accepts.antt describes what a policy accepts. Its
--                      other children: Vectors (vector_from_store), Transport (the _enforce_tls of
--                      the four modules), Sql (the identifier checks and the SQL texts), Stream
--                      (generators), and Backends with one file for each of
--                      src/vectorpin/adapters/chroma.py, qdrant.py, pgvector.py, pinecone.py and
--                      lancedb.py. The client of a database is a record of functions on a
--                      state of the store, and urlparse an argument.
--   Audit.antt         src/vectorpin/cli.py: _audit_loop with its counters and exit code.
--   Cli.antt           src/vectorpin/cli.py: the key files and the commands keygen, pin, verify-pin
--                      and verify-summary; Cli/Audit.antt has the options and the run of an audit and
--                      Cli/Audit/Commands.antt the four audit commands,
--                      Cli/Options.antt the declared options of build_parser and the actions of
--                      argparse on them, Cli/Arguments.antt the arguments of each command, and
--                      Cli/Main.antt main; Cli/Main/Audited.antt has what an audit reads of the
--                      command line. How argparse cuts a command line into option strings and
--                      arguments is an argument.
--   Examples.antt      a concrete platform with its laws, and the theorems at concrete inputs.
--
-- A pin goes from Signer.pin through its JSON text to Pin.from_dict and Verifier.verify; the
-- adapters call the verifier on every stored record, and the audit loop counts their verdicts and
-- compares the records with a manifest. An audit command connects an adapter, and hands the records
-- that its iter_records yields to the audit loop.
--
-- Loops are structural recursion, but for four on fuel: climb, the levels of the Merkle tree, has
-- the number of leaves, and each level but the last is shorter than the one before; digits_from,
-- the decimal digits of n, has n + 1, and each step divides by ten; chunks, the reads of one file,
-- has one more than the file's bytes, and each read takes at least one; each_page, the pages of an
-- iter_records, takes its fuel from the caller, and more than the rows of the store are enough,
-- since each page but the last holds a row.
--
-- Not modelled: messages and printed lines, the creation of directories,
-- symbolic links, timestamps whose conversion to UTC overflows (strftime_utc is a total function of
-- the platform), the scripts, and the Rust and TypeScript ports. Reading and writing of files is a
-- function or a map from paths to files.
pub mod Prelude
pub mod Outcome
pub mod Text
pub mod Dict
pub mod Json
pub mod Platform
pub mod Hash
pub mod Detectors
pub mod Attestation
pub mod Verifier
pub mod Signer
pub mod Manifest
pub mod Adapters
pub mod Audit
pub mod Cli
mod Examples
