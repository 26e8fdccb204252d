-- ===== src/Imap/Write/Examples.antt =====
-- A session that marks messages as read, moves them, and copies them to the archive, on a mirror of two
-- messages.
use nuvrail.Prelude.{ℕ, any, if◌then◌else◌, ◌≡◌, refl, true, false, [], ◌∷◌, Option, none, some}
use nuvrail.Prelude.Text.{
  Text, codes, same, one_of, starts_with, upper, upper_char, lower, lower_char, join,
}
use nuvrail.Prelude.Text.Edit.{ends_with}
use nuvrail.Audit.Examples.{shifted}
use nuvrail.Staging.Store.{State, get_row}
use nuvrail.Staging.Examples.{goes_well}
use nuvrail.Mailbox.{entry_of}
use nuvrail.Staging.Decide.{reject_op}
use nuvrail.Mailbox.Examples.{message, inbox, taken, inbox-taken, inbox-Unique}
use nuvrail.Operation.{ParsedOperation, parse_store, parse_move, store_op, normalised, recognised}
use nuvrail.Mailbox.Restore.{lookup, seen, returned_row, at_key}
use nuvrail.Imap.Examples.{ascii, new_session}
use nuvrail.Imap.Line.{ParsedCommand}
use nuvrail.Imap.Write.{
  build_parsed_op, is_archive_copy, is_unsafe_write, completes, copy_folder, store_flag_list,
  is_store_deleted,
}
use nuvrail.Imap.Write.Stage.{World, Draw, no_pending, handle_write}
use nuvrail.Imap.Write.Stage.Rewrite.{as_move, handle_write-copy_store}
use nuvrail.Staging.Lifecycle.Pending.{OnlyStages}
use nuvrail.Imap.Write.Stage.Pending.{handle_write-OnlyStages}
use nuvrail.Imap.Write.Stage.Reject.{reject-handle_write-flags, reject-handle_write-move}

abbrev pub start : State
start = record {
  operations = [];
  messages = inbox;
  pending_reverts = [];
  log = record { rows = []; next_id = 1 };
  upstream = [];
}

abbrev pub selected : World
selected = record {
  session = record new_session { folder = some (codes "INBOX"); folder_id = some 1 };
  state = start;
  batches = [];
  folders = record { rows = []; next_id = 2 };
}

abbrev pub draw : Text → Draw
draw id = record { now = 100; monotonic = 5; op_id = id; batch_id = codes "b"; attempt = goes_well }

abbrev uid_store : Text → ParsedCommand
uid_store flags = record {
  tag = codes "a2";
  command = codes "STORE";
  uid = true;
  args = codes "42:*" ∷ codes "+FLAGS" ∷ flags ∷ [];
  raw = [];
}

abbrev uid_copy : ParsedCommand
uid_copy = record {
  tag = codes "a1";
  command = codes "COPY";
  uid = true;
  args = codes "42:*" ∷ codes "[Gmail]/All" ∷ codes "Mail" ∷ [];
  raw = [];
}

abbrev uid_move : ParsedCommand
uid_move = as_move uid_copy

abbrev owner_seven : ℕ → Option ℕ
owner_seven agent = some 7

handle_write-OnlyStages_example :
    OnlyStages start
      (handle_write shifted ascii none
        (draw (codes "op_f"))
        (draw (codes "op_m"))
        (uid_store (codes "\\Seen"))
        []
        selected).0.state
handle_write-OnlyStages_example =
    handle_write-OnlyStages shifted ascii (draw (codes "op_f")) (draw (codes "op_m"))
      (uid_store (codes "\\Seen")) [] selected

archives : is_archive_copy ascii new_session.provider_profile uid_copy ≡ true
unfolding is_archive_copy same upper upper_char join copy_folder
archives = refl

completed :
    completes ascii
      (record { tag = codes "a1"; uid_set = codes "42:*"; destination = codes "[Gmail]/All Mail" })
      (uid_store (codes "\\Deleted"))
    ≡ true
unfolding completes is_store_deleted same
completed = refl

handle_write-copy_store_example :
    (handle_write shifted ascii none
      (draw (codes "op_g"))
      (draw (codes "op_m"))
      (uid_store (codes "\\Deleted"))
      []
      (handle_write shifted ascii none
        (draw (codes "op_f"))
        (draw (codes "op_e"))
        uid_copy
        []
        (no_pending selected)).0).0
    ≡ (handle_write shifted ascii none
        (draw (codes "op_f"))
        (draw (codes "op_m"))
        uid_move
        []
        (no_pending selected)).0
unfolding join
handle_write-copy_store_example =
    handle_write-copy_store shifted ascii none (draw (codes "op_f")) (draw (codes "op_m"))
      (draw (codes "op_g")) (draw (codes "op_e")) selected uid_copy (uid_store (codes "\\Deleted"))
      (codes "42:*") (codes "[Gmail]/All") (codes "Mail" ∷ []) [] [] [] refl archives refl completed

abbrev marks : ParsedOperation
marks = parse_store ascii (codes "a2") true (codes "42:*") (codes "+FLAGS") (codes "\\Seen" ∷ [])

marks-parsed : build_parsed_op ascii (uid_store (codes "\\Seen")) ≡ some marks
unfolding build_parsed_op same store_flag_list starts_with ends_with
marks-parsed = refl

marks-ids : marks.message_ids ≡ codes "42:*" ∷ []
unfolding parse_store
marks-ids = refl

safe_command : (cmd : ParsedCommand) → cmd.uid ≡ true → is_unsafe_write ascii cmd ≡ false
unfolding is_unsafe_write
safe_command cmd e = rw e refl

reject-handle_write-flags_example :
    seen (
      lookup 1 43
        (reject_op shifted owner_seven 7 900
          (codes "op_m")
          (handle_write shifted ascii none
            (draw (codes "op_f"))
            (draw (codes "op_m"))
            (uid_store (codes "\\Seen"))
            []
            selected).0.state).0.messages)
    ≡ seen (lookup 1 43 inbox)
unfolding get_row is_archive_copy parse_store parse_move build_parsed_op store_op recognised
    normalised same one_of upper upper_char lower lower_char join
reject-handle_write-flags_example =
    reject-handle_write-flags shifted ascii owner_seven 7 900 1 43 1 (draw (codes "op_f"))
      (draw (codes "op_m")) (uid_store (codes "\\Seen")) [] (codes "42:*") marks selected
      (entry_of (message 42 (codes "\\Flagged" ∷ []))) (entry_of (message 43 []) ∷ []) refl
      (safe_command (uid_store (codes "\\Seen")) refl) refl marks-parsed marks-ids refl inbox-Unique
      inbox-taken refl refl refl refl

reject-handle_write-move_example :
    lookup 1 43
      (reject_op shifted owner_seven 7 900
        (codes "op_m")
        (handle_write shifted ascii none
          (draw (codes "op_f"))
          (draw (codes "op_m"))
          uid_move
          []
          selected).0.state).0.messages
    ≡ (if any (at_key 1 43) taken then returned_row 900 (lookup 1 43 inbox) else lookup 1 43 inbox)
unfolding get_row is_archive_copy parse_store parse_move build_parsed_op store_op recognised
    normalised same one_of upper upper_char lower lower_char join
reject-handle_write-move_example =
    reject-handle_write-move shifted ascii owner_seven 7 900 1 43 1 (draw (codes "op_f"))
      (draw (codes "op_m")) uid_move [] (codes "42:*")
      (parse_move (codes "a1") (codes "42:*") (codes "[Gmail]/All Mail")) selected
      (entry_of (message 42 (codes "\\Flagged" ∷ []))) (entry_of (message 43 []) ∷ []) refl
      (safe_command uid_move refl) refl refl refl refl inbox-Unique inbox-taken refl refl refl refl
