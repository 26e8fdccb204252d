-- ===== src/Imap/Write.antt =====
-- gateway/proxy.py: the write branch of `_client_to_upstream`, up to the operation that is staged.
pub mod Stage
pub mod Examples
use nuvrail.Prelude.{
  ℕ, Bool, true, false, not, ◌&&◌, ◌||◌, List, [], ◌∷◌, ◌++◌, Option, none, some, zero, suc,
  if◌then◌else◌,
}
use nuvrail.Prelude.Text.{
  Text, Unicode, codes, same, one_of, starts_with, split, join, upper, lower,
}
use nuvrail.Prelude.Text.Edit.{replace, ends_with, but_last, is_blank}
use nuvrail.Operation.{ParsedOperation, parse_store, parse_move, parse_copy}
use nuvrail.Intent.Profile.{ProviderProfile, PendingCopyIntent, copy_archive_intent}
use nuvrail.Imap.Line.{ParsedCommand}

-- args[i] if there is one, else the default
abbrev pub arg_or : ℕ → Text → List Text → Text
arg_or n fallback [] = fallback
arg_or zero fallback (a ∷ args) = a
arg_or (suc n) fallback (a ∷ args) = arg_or n fallback args

abbrev pub rest_of : List Text → List Text
rest_of [] = []
rest_of (a ∷ args) = args

-- s[1:-1]
abbrev inside : Text → Text
inside [] = []
inside (c ∷ s) = but_last s

-- `(\Seen \Flagged)` or one bare flag
unfoldable pub store_flag_list : Text → List Text
unfolding starts_with ends_with split
store_flag_list raw =
    if starts_with raw (codes "(") && ends_with raw (codes ")")
    then split (inside raw)
    else raw ∷ []

-- " ".join(args[1:]) if len(args) > 1 else the default
abbrev joined : Text → List Text → Text
joined fallback [] = fallback
joined fallback (a ∷ args) = join (codes " ") (a ∷ args)

unfoldable pub build_parsed_op : Unicode → ParsedCommand → Option ParsedOperation
unfolding same join store_flag_list parse_store parse_move parse_copy
build_parsed_op uni cmd =
    if same cmd.command (codes "STORE")
    then some (
        parse_store uni cmd.tag cmd.uid (arg_or 0 (codes "?") cmd.args)
          (arg_or 1 (codes "+FLAGS") cmd.args) (store_flag_list (arg_or 2 (codes "()") cmd.args)))
    else if same cmd.command (codes "MOVE")
    then some
        (parse_move cmd.tag (arg_or 0 (codes "?") cmd.args) (joined (codes "?") (rest_of cmd.args)))
    else if same cmd.command (codes "COPY")
    then some
        (parse_copy cmd.tag (arg_or 0 (codes "?") cmd.args) (joined (codes "?") (rest_of cmd.args)))
    else none

-- sub in s
unfoldable pub contains : Text → Text → Bool
unfolding starts_with
contains sub [] = is_blank sub
contains sub (c ∷ s) = starts_with (c ∷ s) sub || contains sub s

abbrev adds_deleted : Unicode → List Text → Bool
adds_deleted uni (set ∷ op ∷ flags ∷ more) =
    contains (codes "deleted") (lower uni flags)
    && one_of (replace (codes ".SILENT") [] (upper uni op))
        (codes "+FLAGS" ∷ codes "+FLAGS.SILENT" ∷ [])
adds_deleted uni _ = false

-- `_is_store_deleted`
unfoldable pub is_store_deleted : Unicode → ParsedCommand → Bool
unfolding same one_of contains replace upper lower
is_store_deleted uni cmd = same (upper uni cmd.command) (codes "STORE") && adds_deleted uni cmd.args

-- `_copy_folder`
unfoldable pub copy_folder : List Text → Text
unfolding join
copy_folder args = joined [] (rest_of args)

abbrev is_some : Option Text → Bool
is_some none = false
is_some (some t) = true

-- `_is_archive_copy`
unfoldable pub is_archive_copy : Unicode → ProviderProfile → ParsedCommand → Bool
unfolding same upper copy_folder copy_archive_intent
is_archive_copy uni profile cmd =
    same (upper uni cmd.command) (codes "COPY")
    && (cmd.uid
        && (not (is_blank (copy_folder cmd.args))
            && is_some (copy_archive_intent uni (copy_folder cmd.args) profile)))

-- STORE, COPY and MOVE by sequence number are refused.
unfoldable pub is_unsafe_write : Unicode → ParsedCommand → Bool
unfolding one_of upper
is_unsafe_write uni cmd =
    not cmd.uid && one_of (upper uni cmd.command) (codes "STORE" ∷ codes "COPY" ∷ codes "MOVE" ∷ [])

abbrev first_is : Text → List Text → Bool
first_is set [] = false
first_is set (a ∷ args) = same a set

-- The STORE that completes a held COPY.
unfoldable pub completes : Unicode → PendingCopyIntent → ParsedCommand → Bool
unfolding same is_store_deleted
completes uni p cmd = is_store_deleted uni cmd && first_is p.uid_set cmd.args
