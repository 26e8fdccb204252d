-- ===== src/Imap/Router.antt =====
-- gateway/command_router.py: which commands are forwarded, staged, answered locally or refused.
pub mod Capabilities
use nuvrail.Prelude.{Bool, false, not, ◌&&◌, List, [], ◌∷◌, if◌then◌else◌}
use nuvrail.Prelude.Text.{Text, Unicode, codes, same, one_of, starts_with, upper, split, join}
use nuvrail.Imap.Line.{ParsedCommand}

abbrev pub read_commands : List Text
read_commands =
    codes "SELECT"
    ∷ codes "EXAMINE"
    ∷ codes "FETCH"
    ∷ codes "SEARCH"
    ∷ codes "LIST"
    ∷ codes "LSUB"
    ∷ codes "STATUS"
    ∷ codes "NOOP"
    ∷ codes "CAPABILITY"
    ∷ codes "ID"
    ∷ codes "LOGOUT"
    ∷ codes "CHECK"
    ∷ codes "SUBSCRIBE"
    ∷ codes "UNSUBSCRIBE"
    ∷ codes "NAMESPACE"
    ∷ codes "IDLE"
    ∷ codes "UNSELECT"
    ∷ codes "ENABLE"
    ∷ codes "SORT"
    ∷ codes "THREAD"
    ∷ codes "ESEARCH"
    ∷ codes "GETQUOTA"
    ∷ codes "GETQUOTAROOT"
    ∷ codes "GETACL"
    ∷ codes "MYRIGHTS"
    ∷ codes "LISTRIGHTS"
    ∷ codes "GETMETADATA"
    ∷ codes "XLIST"
    ∷ []

abbrev pub write_commands : List Text
write_commands =
    codes "STORE"
    ∷ codes "COPY"
    ∷ codes "MOVE"
    ∷ codes "APPEND"
    ∷ codes "CREATE"
    ∷ codes "RENAME"
    ∷ []

abbrev pub blocked_commands : List Text
blocked_commands = codes "EXPUNGE" ∷ codes "DELETE" ∷ codes "CLOSE" ∷ []

-- The four strings that `classify` returns.
pub data Class : Type 0 where
  read write blocked rejected : Class

unfoldable pub classify : Unicode → ParsedCommand → Class
classify uni cmd =
    if one_of cmd.command blocked_commands
    then blocked
    else if one_of cmd.command write_commands
    then write
    else if one_of cmd.command read_commands
    then read
    else if same cmd.command [] && same (upper uni cmd.tag) (codes "DONE")
    then read
    else rejected

abbrev pub hidden_capabilities : List Text
hidden_capabilities =
    codes "LITERAL+"
    ∷ codes "LITERAL-"
    ∷ codes "REPLACE"
    ∷ codes "STARTTLS"
    ∷ codes "IMAP4REV2"
    ∷ codes "BINARY"
    ∷ codes "MULTIAPPEND"
    ∷ []

unfoldable pub keep_capability : Unicode → Text → Bool
keep_capability uni atom =
    let name = upper uni atom in
    if one_of name hidden_capabilities then false else not (starts_with name (codes "COMPRESS="))

-- The list comprehensions of this file: the elements that pass a test, in order.
unfoldable pub keep : (Text → Bool) → List Text → List Text
keep p [] = []
keep p (x ∷ xs) = let rest = keep p xs in if p x then x ∷ rest else rest

unfoldable pub filter_atoms : Unicode → Text → Text
filter_atoms uni atoms = join (codes " ") (keep (keep_capability uni) (split atoms))

unfoldable pub enable_allowed : Unicode → Text → Bool
enable_allowed uni arg = one_of (upper uni arg) (codes "CONDSTORE" ∷ [])

unfoldable pub filter_enable_args : Unicode → List Text → List Text
filter_enable_args uni args = keep (enable_allowed uni) args
