-- ===== src/Imap/Write/Stage/Reject.antt =====
-- A write command that is staged and then rejected, against the mirror before the command.
use nuvrail.Prelude.{
  ℕ, any, if◌then◌else◌, ◌≡◌, refl, ap, ◌∙◌, true, false, List, [], ◌∷◌, Option, none, some,
}
use nuvrail.Prelude.Text.Edit.{or_option}
use nuvrail.Prelude.Text.{Text, Unicode, codes, same}
use nuvrail.Audit.Record.{Sha256}
use nuvrail.Batching.{get_or_create_batch}
use nuvrail.Staging.Store.{Message, Request, SnapEntry, get_row, restore_entries}
use nuvrail.Staging.Create.{create_operation, staged_row}
use nuvrail.Staging.Decide.{Owner, reject_op}
use nuvrail.Staging.Lifecycle.Reject.{entries_of, create_if-none, reject-stage_row}
use nuvrail.Mailbox.{snapshot_messages}
use nuvrail.Mailbox.Restore.{lookup, Unique, seen, returned_row, at_key}
use nuvrail.Mailbox.Restore.Staged.{
  restore-apply_optimistic_flag_update, restore-remove_messages_from_folder,
}
use nuvrail.Operation.{ParsedOperation}
use nuvrail.Imap.Line.{ParsedCommand}
use nuvrail.Imap.Write.{build_parsed_op, is_archive_copy, is_unsafe_write}
use nuvrail.Imap.Write.Stage.{
  World, Draw, folder_or_inbox, move_step, with_messages, created_or_same, create_in_batch,
  changes_flags, with_trash_folder, final_request, handle_write,
}
use nuvrail.Imap.Write.Stage.Steps.{
  staged_from, apply-snapshot, remove-snapshot, handle_write-stage_op, op_type-with_trash_folder,
  message_ids-with_trash_folder, stage_op-staged_from, flag_step-some, move_step-false,
  move_step-none,
}

reject-create_in_batch :
    (sha : Sha256) (owner : Owner) (user t agent : ℕ) (d : Draw) (folder : Text) (r : Request)
    (w : World)
    → get_row d.op_id w.state.operations ≡ none
    → r.agent_id ≡ some agent
    → owner agent ≡ some user
    → (reject_op sha owner user t d.op_id
        (create_in_batch sha none d folder r w).0.state).0.messages
      ≡ restore_entries t (entries_of r.snapshot) w.state.messages
unfolding create_in_batch create_operation staged_row
reject-create_in_batch sha owner user t agent d folder r w fresh ea eo =
    let (batches, id) =
      get_or_create_batch d.batch_id d.monotonic
        (record { folder = folder; protocol = codes "imap"; agent_id = some w.session.agent_id }) 30
        w.batches in
    let row = staged_row d.now d.op_id (record r { batch_id = some id }) in
    ap
      (λ made.
        (reject_op sha owner user t d.op_id
          (created_or_same (record w { batches = batches }) made).state).0.messages)
      (create_if-none sha d.now d.attempt row (get_row d.op_id w.state.operations) w.state fresh)
    ∙ reject-stage_row sha owner user t d.now agent row w.state fresh ea eo refl

-- The operation that follows the mirror's change, rejected.
reject-answered :
    (sha : Sha256) (uni : Unicode) (owner : Owner) (user t : ℕ) (d : Draw) (tag folder : Text)
    (op : ParsedOperation) (ms : List Message) (snap : Option (List SnapEntry)) (w : World)
    → get_row d.op_id w.state.operations ≡ none
    → owner w.session.agent_id ≡ some user
    → (reject_op sha owner user t d.op_id
        (create_in_batch sha none d folder (final_request uni w op ms snap) w).0.state).0.messages
      ≡ restore_entries t (entries_of snap) w.state.messages
unfolding final_request
reject-answered sha uni owner user t d tag folder op ms snap w fresh mine =
    reject-create_in_batch sha owner user t w.session.agent_id d folder
      (final_request uni w op ms snap) w fresh refl mine

-- The messages once the row of `staged_from` is rejected, in terms of what `move_step` returned.
reject-staged_from :
    (sha : Sha256) (uni : Unicode) (owner : Owner) (user t : ℕ) (d : Draw) (cmd : ParsedCommand)
    (op : ParsedOperation) (flagged : World × Option (List SnapEntry)) (w : World)
    (es : List SnapEntry)
    → move_step uni
        (with_trash_folder flagged.0 op)
        (same (with_trash_folder flagged.0 op).op_type (codes "move"))
        flagged
      ≡ (w, some es)
    → get_row d.op_id w.state.operations ≡ none
    → owner w.session.agent_id ≡ some user
    → (reject_op sha owner user t d.op_id (staged_from sha uni d cmd op flagged).state).0.messages
      ≡ restore_entries t es w.state.messages
reject-staged_from sha uni owner user t d cmd op flagged w es e fresh mine =
    let op' = with_trash_folder flagged.0 op in
    ap
      (λ moved.
        (reject_op sha owner user t d.op_id
          (create_in_batch sha none d
            (folder_or_inbox (or_option op'.folder_from moved.0.session.folder))
            (final_request uni moved.0 op' flagged.0.state.messages moved.1)
            moved.0).0.state).0.messages)
      e
    ∙ reject-answered sha uni owner user t d cmd.tag
        (folder_or_inbox (or_option op'.folder_from w.session.folder)) op' flagged.0.state.messages
        (some es) w fresh mine

module _ (sha : Sha256) (uni : Unicode) (owner : Owner) (user t f u folder : ℕ) (flush d : Draw)
    (cmd : ParsedCommand) (raw set : Text) (op : ParsedOperation) (w : World) (e : SnapEntry)
    (es : List SnapEntry) (held : w.session.pending_copy_intent ≡ none)
    (safe : is_unsafe_write uni cmd ≡ false)
    (not_held : is_archive_copy uni w.session.provider_profile cmd ≡ false)
    (parsed : build_parsed_op uni cmd ≡ some op) (ids : op.message_ids ≡ set ∷ [])
    (selected : w.session.folder_id ≡ some folder) (un : Unique w.state.messages)
    (taken : snapshot_messages uni folder set w.state.messages ≡ some (e ∷ es))
    (fresh : get_row d.op_id w.state.operations ≡ none)
    (mine : owner w.session.agent_id ≡ some user) where
  -- The row of the key, once the operation is staged and rejected.
  abbrev after : Option Message
  after =
      lookup f u
        (reject_op sha owner user t d.op_id
          (handle_write sha uni none flush d cmd raw w).0.state).0.messages

  -- A UID STORE that the agent's session stages, and that its user then rejects, leaves every message
  -- of the mirror as it was (but for the time of its last update): where no COPY is held, a folder is
  -- selected, at least one message of the UID set is known, the drawn id is new, the mirror holds each
  -- message once, and no operation is approved automatically.
  pub reject-handle_write-flags :
      changes_flags uni cmd op ≡ true
      → same op.op_type (codes "move") ≡ false
      → seen after ≡ seen (lookup f u w.state.messages)
  reject-handle_write-flags changes still =
      let (changed, applied) =
        apply-snapshot uni d.now folder set op.flags_add op.flags_remove w.state.messages taken in
      let w' = with_messages w changed in
      rw
        (
          handle_write-stage_op sha uni flush d cmd raw op w held safe not_held parsed,
          stage_op-staged_from sha uni d cmd op w,
          changes,
          flag_step-some uni d.now op w ids selected taken applied,
          reject-staged_from sha uni owner user t d cmd op (w', some (e ∷ es)) w' (e ∷ es)
              (move_step-false uni (with_trash_folder w' op)
                (same (with_trash_folder w' op).op_type (codes "move")) (w', some (e ∷ es))
                (rw (op_type-with_trash_folder w' op) still))
              fresh mine,
        )
        (restore-apply_optimistic_flag_update uni t f u folder set w.state.messages changed (e ∷ es)
          un taken d.now op.flags_add op.flags_remove applied)

  -- A UID MOVE that the agent's session stages, and that its user then rejects: every message of the
  -- UID set is in the mirror again with its flags, sequence number, sender and subject, but its
  -- message id, date and size are NULL and the time of its update is that of the rejection, and every
  -- other message is as it was. This holds where no COPY is held, a folder is selected, at least one message of
  -- the UID set is known, the drawn id is new, the mirror holds each message once, and no operation is
  -- approved automatically.
  pub reject-handle_write-move :
      changes_flags uni cmd op ≡ false
      → same op.op_type (codes "move") ≡ true
      → after ≡ (
          if any (at_key f u) (e ∷ es)
          then returned_row t (lookup f u w.state.messages)
          else lookup f u w.state.messages)
  reject-handle_write-move changes moves =
      let (changed, gone) = remove-snapshot uni folder set w.state.messages taken in
      let w' = with_messages w changed in
      rw
        (
          handle_write-stage_op sha uni flush d cmd raw op w held safe not_held parsed,
          stage_op-staged_from sha uni d cmd op w,
          changes,
          reject-staged_from sha uni owner user t d cmd op (w, none) w' (e ∷ es)
              (move_step-none uni (with_trash_folder w op)
                (same (with_trash_folder w op).op_type (codes "move")) w
                (rw (op_type-with_trash_folder w op) moves)
                (message_ids-with_trash_folder w op ∙ ids) selected taken gone)
              fresh mine,
        )
        (restore-remove_messages_from_folder uni t f u folder set w.state.messages changed (e ∷ es)
          un taken gone)
