-- ===== src/Cli/Audit/Tables.antt =====
-- `_cmd_audit_pgvector` of src/vectorpin/cli.py over the rows of a table.
use vector_pin.Text.{Text}
use vector_pin.Platform.{Platform}
use vector_pin.Adapters.Backends.Pgvector
