-- ===== src/Uuid.antt =====
-- internal/uuidutil/parse.go. `parse` is uuid.Parse followed by the canonical text, of
-- github.com/google/uuid, which is not part of the repository.
use agents_orchestrator.Prelude.{String, Option, none, some, if◌then◌else◌, ◌==◌}
use agents_orchestrator.Errors.{Result, ok, err, fault}

unfoldable pub parse_uuid : (String → Option String) → String → Result String
parse_uuid parse value =
    if value == ""
    then err (fault "%s is empty")
    else elim (parse value) [ none ↦ err (fault "parse %s: %w") | some id ↦ ok id ]
