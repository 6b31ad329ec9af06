-- ===== src/Verifier/Diagnosis.antt =====
-- The error codes of `Verifier.verify` in src/vectorpin/verifier.py: what each tells of the pin.
use vector_pin.Text.{Text}
use vector_pin.Platform.{Platform}
use vector_pin.Verifier.{Verifier}
use vector_pin.Verifier.Accepts.{Accepts}
