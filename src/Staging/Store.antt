-- ===== src/Staging/Store.antt =====
-- The tables that the staging code shares: `staged_operations`, `messages` and `pending_reverts` of
-- gateway/state_db.py, the audit log, and the trace of what was replayed on the mail server. A JSON
-- column holds the value that it decodes to.

pub mod Rows
use nuvrail.Prelude.{
  ℕ, ◌+◌, Bool, true, false, ◌&&◌, List, [], ◌∷◌, ◌++◌, Option, none, some, map, ◌==◌,
  if◌then◌else◌,
}
use nuvrail.Prelude.Text.{Text, codes, same}
use nuvrail.Audit.Record.{Sha256, decimal}
use nuvrail.Audit.Chain.{Log, Event, insert_audit_event}

pub data Status : Type 0 where
  pending approved rejected executed failed expired reverted : Status

-- The state of one message before the operation.
pub record SnapEntry : Type 0 where
  pub uid : ℕ
  pub flags : List Text
  pub seq_num : Option ℕ
  pub folder_id : ℕ
  pub sender : Option Text
  pub subject : Option Text

pub record Envelope : Type 0 where
  pub sender : Text
  pub recipients : List Text
  pub subject : Text
  pub body : Text

-- The keyword arguments of `create_operation`. The confidence is in hundredths.
pub record Request : Type 0 where
  pub op_type : Text
  pub protocol : Text
  pub description : Text
  pub agent_id : Option ℕ
  pub imap_command : Option Text
  pub smtp_envelope : Option Envelope
  pub message_ids : Option (List Text)
  pub folder_from : Option Text
  pub folder_to : Option Text
  pub flags_add : Option (List Text)
  pub flags_remove : Option (List Text)
  pub snapshot : Option (List SnapEntry)
  pub is_urgent : Option Bool
  pub batch_id : Option Text
  pub append_message : Option Text
  pub intent_label : Option Text
  pub intent_confidence : Option ℕ

-- A row of `staged_operations`: what was asked for, and the columns that change.
pub record Operation : Type 0 where
  pub id : Text
  pub request : Request
  pub created_at : ℕ
  pub expires_at : ℕ
  pub status : Status
  pub urgent : Bool
  pub decided_at : Option ℕ
  pub decided_by : Option Text
  pub executed_at : Option ℕ
  pub error : Option Text
  pub scheduled_execute_at : Option ℕ
  pub undo_expires_at : Option ℕ

pub record Message : Type 0 where
  pub folder_id : ℕ
  pub uid : ℕ
  pub sequence_num : Option ℕ
  pub flags : List Text
  pub sender : Option Text
  pub subject : Option Text
  pub message_id : Option Text
  pub date_sent : Option ℕ
  pub size : Option ℕ
  pub last_updated : ℕ

pub record Revert : Type 0 where
  pub operation_id : Text
  pub folder_id : ℕ
  pub uid : ℕ
  pub true_flags : List Text
  pub created_at : ℕ
  pub delivered_at : Option ℕ

-- `upstream` lists the operations that were replayed on the mail server, in order.
pub record State : Type 0 where
  pub operations : List Operation
  pub messages : List Message
  pub pending_reverts : List Revert
  pub log : Log
  pub upstream : List Text

-- SELECT * FROM staged_operations WHERE id = ?
unfoldable pub get_row : Text → List Operation → Option Operation
get_row id [] = none
get_row id (r ∷ rs) = if same r.id id then some r else get_row id rs

-- UPDATE staged_operations SET … WHERE id = ?
unfoldable pub update_where : Text → (Operation → Operation) → List Operation → List Operation
update_where id f [] = []
update_where id f (r ∷ rs) = (if same r.id id then f r else r) ∷ update_where id f rs

abbrev pub is_pending : Status → Bool
is_pending pending = true
is_pending _ = false

-- … WHERE id = ? AND status = 'pending'
abbrev pub if_pending : (Operation → Operation) → Operation → Operation
if_pending f r = if is_pending r.status then f r else r

-- `update_operation_status` of gateway/staging.py
abbrev pub set_status : ℕ → Status → Text → Option Text → Operation → Operation
set_status now executed by error r = record r {
  status = executed;
  decided_at = some now;
  decided_by = some by;
  executed_at = some now;
  error = error;
}
set_status now status by error r = record r {
  status = status;
  decided_at = some now;
  decided_by = some by;
  error = error;
}

unfoldable pub update_operation_status : ℕ → Text → Status → Text → Option Text → State → State
update_operation_status now id status by error s = record s {
  operations = update_where id (set_status now status by error) s.operations;
}

abbrev pub agent_text : Option ℕ → Option Text
agent_text none = none
agent_text (some a) = some (decimal a)

-- `record_audit_event` about an operation, with the columns that name its agent and type
unfoldable pub audit_columns :
    Sha256
    → ℕ
    → Text
    → Text
    → Text
    → Option ℕ
    → Option Text
    → Option Text
    → Option Text
    → State
    → State
audit_columns sha now event actor id agent op_type intent detail s = record s {
  log = insert_audit_event sha s.log (record {
    timestamp = now;
    event = event;
    actor = some actor;
    operation_id = some id;
    agent_id = agent_text agent;
    op_type = op_type;
    detail = detail;
    user_id = none;
    intent_label = intent;
  });
}

unfoldable pub audit : Sha256 → ℕ → Text → Text → Text → Operation → Option Text → State → State
unfolding audit_columns
audit sha now event actor id row detail s =
    audit_columns sha now event actor id row.request.agent_id (some row.request.op_type)
      row.request.intent_label detail s

abbrev pub is_at : ℕ → ℕ → Message → Bool
is_at folder uid m = m.folder_id == folder && m.uid == uid

-- One entry of the snapshot: the flags of the row that is there, or a new row behind the others, in
-- which the columns that the INSERT does not name are NULL.
unfoldable pub restore_entry : ℕ → SnapEntry → List Message → List Message
restore_entry now e [] =
    record {
      folder_id = e.folder_id;
      uid = e.uid;
      sequence_num = e.seq_num;
      flags = e.flags;
      sender = e.sender;
      subject = e.subject;
      message_id = none;
      date_sent = none;
      size = none;
      last_updated = now;
    }
    ∷ []
restore_entry now e (m ∷ ms) =
    let rest = restore_entry now e ms in
    if is_at e.folder_id e.uid m
    then record m { flags = e.flags; last_updated = now } ∷ ms
    else m ∷ rest

unfoldable pub restore_entries : ℕ → List SnapEntry → List Message → List Message
restore_entries now [] ms = ms
restore_entries now (e ∷ es) ms = restore_entries now es (restore_entry now e ms)

abbrev pub revert_of : Text → ℕ → SnapEntry → Revert
revert_of id now e = record {
  operation_id = id;
  folder_id = e.folder_id;
  uid = e.uid;
  true_flags = e.flags;
  created_at = now;
  delivered_at = none;
}

abbrev pub snapshot_of : Option Operation → List SnapEntry
snapshot_of none = []
snapshot_of (some r) = elim r.request.snapshot [ none ↦ [] | some entries ↦ entries ]

-- `restore_from_snapshot`, then `insert_pending_reverts` with what it returns
unfoldable pub revert_local : ℕ → Text → State → State
revert_local now id s =
    let entries = snapshot_of (get_row id s.operations) in
    record s {
      messages = restore_entries now entries s.messages;
      pending_reverts = s.pending_reverts ++ map (revert_of id now) entries;
    }
