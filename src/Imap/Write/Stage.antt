-- ===== src/Imap/Write/Stage.antt =====
-- gateway/proxy.py: what the write branch of `_client_to_upstream` does to the local mirror, and the
-- operations that it stages.
pub mod Rewrite
pub mod Reject
pub mod Steps
pub mod Pending
use nuvrail.Prelude.{
  ℕ, Bool, true, false, not, ◌&&◌, ◌||◌, List, [], ◌∷◌, ◌++◌, Option, none, some, if◌then◌else◌,
}
use nuvrail.Prelude.Text.{Text, Unicode, codes, same, join, upper, lower, strip}
use nuvrail.Prelude.Text.Edit.{is_missing, or_option}
use nuvrail.Audit.Record.{Sha256}
use nuvrail.Staging.Store.{Message, SnapEntry, Request, State}
use nuvrail.Staging.Execute.{Attempt}
use nuvrail.Staging.Create.{Provider, create_operation}
use nuvrail.Mailbox
use nuvrail.Mailbox.{
  ℤ, pos, negsuc, get_messages_by_uid_set, snapshot_messages, apply_optimistic_flag_update,
  remove_messages_from_folder,
}
use nuvrail.Mailbox.Folders.{Folder, Folders, get_or_create_folder, get_trash_folder}
use nuvrail.Operation.{ParsedOperation, parse_move, parse_copy}
use nuvrail.Operation.Describe.{Metadata, build_rich_description}
use nuvrail.Intent.{derive_intent}
use nuvrail.Intent.Profile.{ProviderProfile, PendingCopyIntent}
use nuvrail.Batching.{Batch, Key, get_or_create_batch}
use nuvrail.Imap.Line.{ParsedCommand}
use nuvrail.Imap.Proxy.{Session, crlf}
use nuvrail.Imap.Write.{
  arg_or, build_parsed_op, copy_folder, is_archive_copy, is_store_deleted, is_unsafe_write,
  completes,
}

-- What one connection and the gateway's tables hold.
pub record World : Type 0 where
  pub session : Session
  pub state : State
  pub batches : List Batch
  pub folders : Folders

-- What one `create_operation` meets: the clocks, the drawn ids, and the attempt of an automatic rule.
pub record Draw : Type 0 where
  pub now : ℕ
  pub monotonic : ℕ
  pub op_id : Text
  pub batch_id : Text
  pub attempt : Attempt

abbrev pub folder_or_inbox : Option Text → Text
folder_or_inbox none = codes "INBOX"
folder_or_inbox (some []) = codes "INBOX"
folder_or_inbox (some (c ∷ s)) = c ∷ s

abbrev pub created_or_same : World → Option (State × Bool) → World
created_or_same w none = w
created_or_same w (some (s, notified)) = record w { state = s }

-- The batch of the folder, then `create_operation` with it; `false` is its error.
abbrev pub is_created : Option (State × Bool) → Bool
is_created none = false
is_created (some r) = true

unfoldable pub create_in_batch : Sha256 → Provider → Draw → Text → Request → World → World × Bool
create_in_batch sha provider d folder r w =
    let (batches, id) =
      get_or_create_batch d.batch_id d.monotonic
        (record { folder = folder; protocol = codes "imap"; agent_id = some w.session.agent_id }) 30
        w.batches in
    let made =
      create_operation sha provider d.now d.op_id (record r { batch_id = some id }) d.attempt
        w.state in
    (created_or_same (record w { batches = batches }) made, is_created made)

-- The arguments of `create_operation` that the proxy leaves at their defaults.
abbrev pub request_of : Session → ParsedOperation → Text → Request
request_of s op description = record {
  op_type = op.op_type;
  protocol = codes "imap";
  description = description;
  agent_id = some s.agent_id;
  imap_command = some op.imap_command;
  smtp_envelope = none;
  message_ids = none;
  folder_from = s.folder;
  folder_to = op.folder_to;
  flags_add = none;
  flags_remove = none;
  snapshot = none;
  is_urgent = none;
  batch_id = none;
  append_message = none;
  intent_label = none;
  intent_confidence = none;
}

abbrev pub no_pending : World → World
no_pending w = record w { session = record w.session { pending_copy_intent = none } }

-- The held COPY is staged as a copy; an error is only logged.
unfoldable pub flush_copy : Sha256 → Provider → Draw → PendingCopyIntent → World → World
flush_copy sha provider d p w =
    let op = parse_copy p.tag p.uid_set p.destination in
    no_pending
      (create_in_batch sha provider d (folder_or_inbox w.session.folder)
        (record (request_of w.session op op.description) { message_ids = some (p.uid_set ∷ []) })
        w).0

-- int(uid) as a key of the snapshot
abbrev synthetic : ℕ → List Text → Option ℤ → List SnapEntry
synthetic folder flags none = []
synthetic folder flags (some (negsuc n)) = []
synthetic folder flags (some (pos n)) =
    (record {
      uid = n;
      flags = flags;
      seq_num = none;
      folder_id = folder;
      sender = none;
      subject = none;
    })
    ∷ []

-- `if not op_snapshot`: one entry without flags. A key that is no UID, such as a range, makes the
-- restoration fail, which is only logged: it stands here for no entry at all.
abbrev pub or_synthetic : Unicode → ℕ → Text → List SnapEntry → List SnapEntry
or_synthetic uni folder set [] = synthetic folder [] (Mailbox.int uni set)
or_synthetic uni folder set (e ∷ es) = e ∷ es

abbrev pub messages_or : List Message → Option (List Message) → List Message
messages_or ms none = ms
messages_or ms (some changed) = changed

abbrev pub with_messages : World → List Message → World
with_messages w ms = record w { state = record w.state { messages = ms } }

-- Snapshot, then the optimistic flags. A UID set that does not parse leaves both out.
abbrev pub flags_mirrored :
    Unicode
    → ℕ
    → ℕ
    → Text
    → ParsedOperation
    → World
    → Option (List SnapEntry)
    → World × Option (List SnapEntry)
flags_mirrored uni now folder set op w none = (w, none)
flags_mirrored uni now folder set op w (some entries) = (
  with_messages w (
      messages_or w.state.messages (
        apply_optimistic_flag_update uni now folder set op.flags_add op.flags_remove
          w.state.messages)),
  some (or_synthetic uni folder set entries),
)

abbrev pub mirror_flags :
    Unicode → ℕ → Text → ParsedOperation → World → Option ℕ → World × Option (List SnapEntry)
mirror_flags uni now set op w none = (w, none)
mirror_flags uni now set op w (some folder) =
    flags_mirrored uni now folder set op w (snapshot_messages uni folder set w.state.messages)

-- Snapshot, then the rows are removed.
abbrev pub move_mirrored :
    Unicode → ℕ → Text → World → Option (List SnapEntry) → World × Option (List SnapEntry)
move_mirrored uni folder set w none = (w, none)
move_mirrored uni folder set w (some entries) = (
  with_messages w
      (messages_or w.state.messages (remove_messages_from_folder uni folder set w.state.messages)),
  some entries,
)

abbrev pub mirror_move : Unicode → Text → World → Option ℕ → World × Option (List SnapEntry)
mirror_move uni set w none = (w, none)
mirror_move uni set w (some folder) =
    move_mirrored uni folder set w (snapshot_messages uni folder set w.state.messages)

abbrev is_empty_list : List Text → Bool
is_empty_list [] = true
is_empty_list (x ∷ xs) = false

abbrev pub changes_flags : Unicode → ParsedCommand → ParsedOperation → Bool
changes_flags uni cmd op =
    same (upper uni cmd.command) (codes "STORE")
    && (not (is_empty_list op.flags_add) || not (is_empty_list op.flags_remove))

abbrev looked_up : ℕ → World → Option Text → World
looked_up now w none = w
looked_up now w (some []) = w
looked_up now w (some (c ∷ name)) =
    let (folders, id) = get_or_create_folder now w.session.user_id (c ∷ name) w.folders in
    record w { folders = folders; session = record w.session { folder_id = some id } }

-- The folder's id is looked up where the SELECT response is still on its way.
abbrev pub with_folder_id : ℕ → World → Option ℕ → World
with_folder_id now w none = looked_up now w w.session.folder
with_folder_id now w (some id) = w

abbrev trash_folder : World → Option Text → Option Text
trash_folder w none = or_option w.session.provider_profile.trash_folder none
trash_folder w (some name) = or_option (some name) w.session.provider_profile.trash_folder

-- `_resolve_trash_folder`, for a trash operation without a folder
unfoldable pub with_trash_folder : World → ParsedOperation → ParsedOperation
with_trash_folder w op =
    if same op.op_type (codes "trash") && is_missing op.folder_to
    then record op {
      folder_to = trash_folder w (get_trash_folder w.session.user_id w.folders.rows);
    }
    else op

abbrev metadata_of : List Message → List Metadata
metadata_of [] = []
metadata_of (m ∷ ms) =
    (record { uid = m.uid; sender = m.sender; subject = m.subject }) ∷ metadata_of ms

abbrev metadata_or_none : Option (List Message) → List Metadata
metadata_or_none none = []
metadata_or_none (some ms) = metadata_of ms

abbrev metadata_in : Unicode → Text → List Message → Option ℕ → List Metadata
metadata_in uni set ms none = []
metadata_in uni set ms (some folder) = metadata_or_none (get_messages_by_uid_set uni folder set ms)

abbrev non_empty : List Text → Option (List Text)
non_empty [] = none
non_empty (x ∷ xs) = some (x ∷ xs)

-- The request of the operation, its mirror changes done.
unfoldable pub final_request :
    Unicode → World → ParsedOperation → List Message → Option (List SnapEntry) → Request
final_request uni w op ms snapshot =
    let (intent, conf) =
      derive_intent uni op (some w.session.provider_profile)
        (or_option op.folder_from w.session.folder) w.session.special_use in
    record (request_of w.session op (
      build_rich_description uni op
        (metadata_in uni (arg_or 0 [] op.message_ids) ms w.session.folder_id) intent)) {
          message_ids = non_empty op.message_ids;
          folder_from = or_option op.folder_from w.session.folder;
          flags_add = non_empty op.flags_add;
          flags_remove = non_empty op.flags_remove;
          snapshot = snapshot;
          intent_label = intent;
          intent_confidence = conf;
        }

abbrev pub flag_step :
    Unicode → ℕ → ParsedOperation → Bool → World → World × Option (List SnapEntry)
flag_step uni now op false w = (w, none)
flag_step uni now op true w =
    let w' = with_folder_id now w w.session.folder_id in
    mirror_flags uni now (arg_or 0 [] op.message_ids) op w' w'.session.folder_id

abbrev pub move_step :
    Unicode
    → ParsedOperation
    → Bool
    → World × Option (List SnapEntry)
    → World × Option (List SnapEntry)
move_step uni op false r = r
move_step uni op true (w, some snapshot) = (w, some snapshot)
move_step uni op true (w, none) = mirror_move uni (arg_or 0 [] op.message_ids) w w.session.folder_id

abbrev staged_text : Text → Text → Bool → Text
staged_text tag id true = tag ++ (codes " OK [STAGED] Operation queued — ID: " ++ (id ++ crlf))
staged_text tag id false = tag ++ (codes " OK [STAGED] Operation queued for approval" ++ crlf)

abbrev answered : Text → Text → World × Bool → World × Text
answered tag id (w, made) = (w, staged_text tag id made)

-- `parsed_op is not None`
unfoldable pub stage_op :
    Sha256 → Unicode → Provider → Draw → ParsedCommand → ParsedOperation → World → World × Text
stage_op sha uni provider d cmd op w =
    let flagged = flag_step uni d.now op (changes_flags uni cmd op) w in
    let op' = with_trash_folder flagged.0 op in
    let moved = move_step uni op' (same op'.op_type (codes "move")) flagged in
    answered cmd.tag d.op_id (
      create_in_batch sha provider d
        (folder_or_inbox (or_option op'.folder_from moved.0.session.folder))
        (final_request uni moved.0 op' flagged.0.state.messages moved.1) moved.0)

-- CREATE, RENAME and whatever is no message operation; no batch, and the line as the command
unfoldable pub stage_generic :
    Sha256 → Unicode → Provider → Draw → ParsedCommand → Text → World → World × Text
stage_generic sha uni provider d cmd raw w =
    let made =
      create_operation sha provider d.now d.op_id
        (record (request_of w.session
          (record {
            tag = cmd.tag;
            op_type = lower uni cmd.command;
            imap_command = raw;
            description = [];
            message_ids = [];
            folder_from = none;
            folder_to = none;
            flags_add = [];
            flags_remove = [];
            verb = none;
          })
          (strip (cmd.command ++ (codes " " ++ join (codes " ") cmd.args)))) { folder_from = none })
        d.attempt w.state in
    answered cmd.tag d.op_id (created_or_same w made, is_created made)

abbrev pub stage_parsed :
    Sha256
    → Unicode
    → Provider
    → Draw
    → ParsedCommand
    → Text
    → World
    → Option ParsedOperation
    → World × Text
stage_parsed sha uni provider d cmd raw w none = stage_generic sha uni provider d cmd raw w
stage_parsed sha uni provider d cmd raw w (some op) = stage_op sha uni provider d cmd op w

-- The STORE that completes the held COPY becomes a move; the intent is cleared first.
abbrev pub stage_or_rewrite :
    Sha256
    → Unicode
    → Provider
    → Draw
    → ParsedCommand
    → Text
    → World
    → Option PendingCopyIntent
    → World × Text
stage_or_rewrite sha uni provider d cmd raw w none =
    stage_parsed sha uni provider d cmd raw w (build_parsed_op uni cmd)
stage_or_rewrite sha uni provider d cmd raw w (some p) =
    if completes uni p cmd
    then stage_op sha uni provider d cmd (parse_move cmd.tag p.uid_set p.destination) (no_pending w)
    else stage_parsed sha uni provider d cmd raw w (build_parsed_op uni cmd)

abbrev pub hold_copy : ParsedCommand → World → World × Text
hold_copy cmd w = (
  record w {
    session = record w.session {
      pending_copy_intent = some (record {
        tag = cmd.tag;
        uid_set = arg_or 0 (codes "?") cmd.args;
        destination = copy_folder cmd.args;
      });
    };
  },
  cmd.tag ++ (codes " OK COPY completed" ++ crlf),
)

abbrev unsafe_text : ParsedCommand → Text
unsafe_text cmd =
    cmd.tag
    ++ (codes " NO [CLIENTBUG] Use UID "
        ++ (cmd.command
            ++ (codes " not "
                ++ (cmd.command
                    ++ (codes
                          " — sequence numbers shift when messages move and are unsafe for staged approval."
                        ++ crlf)))))

abbrev pub write_command :
    Sha256 → Unicode → Provider → Draw → ParsedCommand → Text → World → World × Text
write_command sha uni provider d cmd raw w =
    if is_archive_copy uni w.session.provider_profile cmd
    then hold_copy cmd w
    else if is_unsafe_write uni cmd
    then (w, unsafe_text cmd)
    else stage_or_rewrite sha uni provider d cmd raw w w.session.pending_copy_intent

abbrev pub flush_if : Sha256 → Provider → Draw → Bool → World → Option PendingCopyIntent → World
flush_if sha provider d store_deleted w none = w
flush_if sha provider d true w (some p) = w
flush_if sha provider d false w (some p) = flush_copy sha provider d p w

-- `elif action == "write"`: the new world and the answer. Nothing is sent upstream.
unfoldable pub handle_write :
    Sha256 → Unicode → Provider → Draw → Draw → ParsedCommand → Text → World → World × Text
handle_write sha uni provider flush main cmd raw w =
    write_command sha uni provider main cmd raw
      (flush_if sha provider flush (is_store_deleted uni cmd) w w.session.pending_copy_intent)
