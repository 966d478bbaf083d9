-- ===== src/Model/OperationState.antt =====
-- internal/model/change.go: the states of a logical operation.
use Prim.Native.String.{String}

abbrev pub opened : String
opened = "open"

abbrev pub closed : String
closed = "closed"
