-- ===== src/Middleware/Logging.antt =====
-- internal/middleware/logging.go: the writer that remembers the status it sent.
pub mod Laws
use go_prod_change_registry.Prelude.{
  ℕ, String, Bool, true, false, List, [], ◌∷◌, ◌++◌, if◌then◌else◌, leb,
}

-- What reaches the writer beneath.
pub data Sent : Type 0 where
  sent_header : ℕ → Sent
  sent_bytes : String → Sent

pub record StatusWriter : Type 0 where
  pub status : ℕ
  pub written : Bool
  pub forwarded : List Sent

abbrev pub new_writer : StatusWriter
new_writer = record { status = 200; written = false; forwarded = [] }

unfoldable pub write_header : ℕ → StatusWriter → StatusWriter
write_header code w =
    if w.written
    then w
    else record { status = code; written = true; forwarded = w.forwarded ++ sent_header code ∷ [] }

unfoldable pub write : String → StatusWriter → StatusWriter
unfolding write_header
write b w =
    let w' = if w.written then w else write_header 200 w in
    record w' { forwarded = w'.forwarded ++ sent_bytes b ∷ [] }

pub data Level : Type 0 where
  level_error level_warn level_info : Level

unfoldable pub log_level : StatusWriter → Level
log_level w =
    if leb 500 w.status then level_error else if leb 400 w.status then level_warn else level_info

-- The calls that a handler makes on the writer, in order.
pub data Call : Type 0 where
  header_call : ℕ → Call
  write_call : String → Call

unfoldable pub run : List Call → StatusWriter → StatusWriter
unfolding write_header write
run [] w = w
run (header_call code ∷ calls) w = run calls (write_header code w)
run (write_call b ∷ calls) w = run calls (write b w)
