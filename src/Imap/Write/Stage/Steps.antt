-- ===== src/Imap/Write/Stage/Steps.antt =====
-- A write command that is staged by `stage_op`, step by step.
use nuvrail.Prelude.{
  ℕ, ◌≡◌, refl, ap, ◌∙◌, Bool, true, false, List, [], ◌∷◌, Option, none, some, arith, Option-cases,
  inl, inr, map,
}
use nuvrail.Prelude.Text.Edit.{or_option}
use nuvrail.Prelude.Text.{Text, Unicode, codes, same}
use nuvrail.Audit.Record.{Sha256}
use nuvrail.Staging.Store.{Message, SnapEntry}
use nuvrail.Mailbox.{
  snapshot_messages, apply_optimistic_flag_update, remove_messages_from_folder,
  get_messages_by_uid_set, update_all, delete_rows,
}
use nuvrail.Operation.{ParsedOperation}
use nuvrail.Intent.Profile.{PendingCopyIntent}
use nuvrail.Imap.Line.{ParsedCommand}
use nuvrail.Imap.Write.{build_parsed_op, is_archive_copy, is_unsafe_write, is_store_deleted}
use nuvrail.Imap.Write.Stage.{
  World, Draw, folder_or_inbox, flag_step, move_step, with_messages, create_in_batch, changes_flags,
  flush_if, write_command, with_trash_folder, final_request, stage_op, handle_write,
}

-- changed rows, where a snapshot could be taken
pub apply-snapshot :
    (uni : Unicode) (now folder : ℕ) (set : Text) (add remove : List Text) (ms : List Message)
    {es : List SnapEntry}
    → snapshot_messages uni folder set ms ≡ some es
    → (changed : List Message) × (apply_optimistic_flag_update uni now folder set add remove ms
        ≡ some changed)
unfolding snapshot_messages apply_optimistic_flag_update
apply-snapshot uni now folder set add remove ms h =
    elim (Option-cases (get_messages_by_uid_set uni folder set ms)) [
      | inl e ↦ absurd (ground arith)
      | inr (rows, e) ↦ (update_all now folder add remove rows ms, ground arith)
    ]

pub remove-snapshot :
    (uni : Unicode) (folder : ℕ) (set : Text) (ms : List Message) {es : List SnapEntry}
    → snapshot_messages uni folder set ms ≡ some es
    → (changed : List Message) × (remove_messages_from_folder uni folder set ms ≡ some changed)
unfolding snapshot_messages remove_messages_from_folder
remove-snapshot uni folder set ms h =
    elim (Option-cases (get_messages_by_uid_set uni folder set ms)) [
      | inl e ↦ absurd (ground arith)
      | inr (rows, e) ↦ (delete_rows folder (map (λ (m : Message). m.uid) rows) ms, ground arith)
    ]

flush_if-none :
    (sha : Sha256) (d : Draw) (b : Bool) (w : World) (o : Option PendingCopyIntent)
    → o ≡ none
    → flush_if sha none d b w o ≡ w
flush_if-none sha d b w none e = refl
flush_if-none sha d b w (some p) e = absurd (ground arith)

write_command-stage_op :
    (sha : Sha256) (uni : Unicode) (d : Draw) (cmd : ParsedCommand) (raw : Text)
    (op : ParsedOperation) (w : World)
    → w.session.pending_copy_intent ≡ none
    → is_unsafe_write uni cmd ≡ false
    → is_archive_copy uni w.session.provider_profile cmd ≡ false
    → build_parsed_op uni cmd ≡ some op
    → write_command sha uni none d cmd raw w ≡ stage_op sha uni none d cmd op w
write_command-stage_op sha uni d cmd raw op w p u a b = simp (a, u, p, b) refl

pub handle_write-stage_op :
    (sha : Sha256) (uni : Unicode) (flush d : Draw) (cmd : ParsedCommand) (raw : Text)
    (op : ParsedOperation) (w : World)
    → w.session.pending_copy_intent ≡ none
    → is_unsafe_write uni cmd ≡ false
    → is_archive_copy uni w.session.provider_profile cmd ≡ false
    → build_parsed_op uni cmd ≡ some op
    → handle_write sha uni none flush d cmd raw w ≡ stage_op sha uni none d cmd op w
unfolding handle_write
handle_write-stage_op sha uni flush d cmd raw op w p u a b =
    ap (write_command sha uni none d cmd raw)
      (flush_if-none sha flush (is_store_deleted uni cmd) w w.session.pending_copy_intent p)
    ∙ write_command-stage_op sha uni d cmd raw op w p u a b

pub op_type-with_trash_folder :
    (w : World) (op : ParsedOperation) → (with_trash_folder w op).op_type ≡ op.op_type
unfolding with_trash_folder
op_type-with_trash_folder w op = ground arith

pub message_ids-with_trash_folder :
    (w : World) (op : ParsedOperation) → (with_trash_folder w op).message_ids ≡ op.message_ids
unfolding with_trash_folder
message_ids-with_trash_folder w op = ground arith

-- `stage_op` after its first step
abbrev pub staged_from :
    Sha256
    → Unicode
    → Draw
    → ParsedCommand
    → ParsedOperation
    → World × Option (List SnapEntry)
    → World
staged_from sha uni d cmd op flagged =
    let op' = with_trash_folder flagged.0 op in
    let moved = move_step uni op' (same op'.op_type (codes "move")) flagged in
    (create_in_batch sha none d (folder_or_inbox (or_option op'.folder_from moved.0.session.folder))
      (final_request uni moved.0 op' flagged.0.state.messages moved.1) moved.0).0

pub stage_op-staged_from :
    (sha : Sha256) (uni : Unicode) (d : Draw) (cmd : ParsedCommand) (op : ParsedOperation)
    (w : World)
    → (stage_op sha uni none d cmd op w).0
      ≡ staged_from sha uni d cmd op (flag_step uni d.now op (changes_flags uni cmd op) w)
unfolding stage_op
stage_op-staged_from sha uni d cmd op w = refl

pub flag_step-some :
    (uni : Unicode) (now : ℕ) (op : ParsedOperation) (w : World) {folder : ℕ} {set : Text}
    {e : SnapEntry} {es : List SnapEntry} {changed : List Message}
    → op.message_ids ≡ set ∷ []
    → w.session.folder_id ≡ some folder
    → snapshot_messages uni folder set w.state.messages ≡ some (e ∷ es)
    → apply_optimistic_flag_update uni now folder set op.flags_add op.flags_remove w.state.messages
      ≡ some changed
    → flag_step uni now op true w ≡ (with_messages w changed, some (e ∷ es))
flag_step-some uni now op w ids selected taken applied = simp (selected, ids, taken, applied) refl

pub move_step-false :
    (uni : Unicode) (op : ParsedOperation) (b : Bool) (r : World × Option (List SnapEntry))
    → b ≡ false
    → move_step uni op b r ≡ r
move_step-false uni op true r e = absurd (ground arith)
move_step-false uni op false r e = refl

pub move_step-none :
    (uni : Unicode) (op : ParsedOperation) (b : Bool) (w : World) {folder : ℕ} {set : Text}
    {es : List SnapEntry} {changed : List Message}
    → b ≡ true
    → op.message_ids ≡ set ∷ []
    → w.session.folder_id ≡ some folder
    → snapshot_messages uni folder set w.state.messages ≡ some es
    → remove_messages_from_folder uni folder set w.state.messages ≡ some changed
    → move_step uni op b (w, none) ≡ (with_messages w changed, some es)
move_step-none uni op true w e ids selected taken gone = simp (selected, ids, taken, gone) refl
move_step-none uni op false w e ids selected taken gone = absurd (ground arith)
