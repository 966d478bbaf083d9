-- ===== src/Examples/Handlers.antt =====
-- The theorem about an offset, at the first page and before it.
use go_prod_change_registry.Prelude.{none, ◌≡◌, arith}
use go_prod_change_registry.Prelude.Int.{negsuc, pos}
use go_prod_change_registry.Handler.Query.{TimeFormats}
use go_prod_change_registry.Handler.Api.{list_events_handler, write_error}
use go_prod_change_registry.Handler.Offset.{offset_query, list_events_handler_offset}
use go_prod_change_registry.Examples.{registry}

-- Formats that read no text.
abbrev no_formats : TimeFormats
no_formats = record {
  parse_rfc3339 = λ s. none;
  parse_duration = λ s. none;
  parse_local = λ s. none;
}

list_events_handler_offset_example :
    ((list_events_handler no_formats (offset_query (pos 0)) registry).0.status ≡ 200)
    × ((list_events_handler no_formats (offset_query (negsuc 0)) registry).0
        ≡ write_error 500 "internal_error" "an internal error occurred")
    × ((list_events_handler no_formats (offset_query (pos 0)) registry).1 ≡ registry)
    × ((list_events_handler no_formats (offset_query (negsuc 0)) registry).1 ≡ registry)
list_events_handler_offset_example = list_events_handler_offset no_formats 0 registry (omega arith)
