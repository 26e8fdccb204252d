-- ===== src/Staging/Decide.antt =====
-- api/routes/operations.py: approving, rejecting and undoing one operation, each request run to its
-- end; and the gate of gateway/undo.py.
use nuvrail.Prelude.{
  ℕ, Bool, true, false, not, ◌&&◌, List, [], ◌∷◌, Option, none, some, ltb, ◌==◌, if◌then◌else◌,
}
use nuvrail.Prelude.Text.{Text, Unicode, codes, one_of}
use nuvrail.Audit.Record.{Row, Sha256}
use nuvrail.Mailbox.{ℤ}
use nuvrail.Staging.Destination.{Loads, load_move_destination}
use nuvrail.Staging.Store.{
  Status, rejected, executed, reverted, Operation, State, get_row, is_pending,
  update_operation_status, audit, revert_local,
}
use nuvrail.Staging.Execute.{Attempt, Executed, ok, error, is_blank, execute_operation}

-- The owner of an agent: the `user_id` of `agent_credentials`.
abbrev pub Owner : Type 0
Owner = ℕ → Option ℕ

abbrev pub owns : Owner → ℕ → Option ℕ → Bool
owns owner user none = false
owns owner user (some agent) = elim (owner agent) [ none ↦ false | some u ↦ u == user ]

abbrev pub visible : Owner → ℕ → Option Operation → Option Operation
visible owner user none = none
visible owner user (some r) = if owns owner user r.request.agent_id then some r else none

-- `get_operation` of gateway/staging.py, with `user_id`
unfoldable pub get_operation : Owner → ℕ → Text → List Operation → Option Operation
get_operation owner user id rows = visible owner user (get_row id rows)

-- The HTTP answer: 404, 409, 500, or the outcome.
pub data Reply : Type 0 where
  not_found : Reply
  conflict : Status → Reply
  refused server_error : Text → Reply
  was_executed : Option ℕ → Reply
  was_rejected was_reverted : Reply

abbrev approve_reply : Executed → Reply
approve_reply (ok at) = was_executed at
approve_reply (error message) = server_error message

-- `_do_approve`, on the row that was read
unfoldable pub do_approve : Sha256 → ℕ → Text → Operation → Attempt → State → State × Reply
do_approve sha now id row a s =
    let (s', r) = execute_operation sha now id row (codes "human") a s in (s', approve_reply r)

-- `_do_reject`
unfoldable pub do_reject : Sha256 → ℕ → Text → Operation → State → State × Reply
do_reject sha now id row s = (
  revert_local now id (
      audit sha now (codes "rejected") (codes "human") id row none
        (update_operation_status now id rejected (codes "human") none s)),
  was_rejected,
)

-- The checks that approve and reject share.
unfoldable pub if_decidable :
    Option Operation → (Operation → State → State × Reply) → State → State × Reply
if_decidable none act s = (s, not_found)
if_decidable (some row) act s =
    if is_pending row.status then act row s else (s, conflict row.status)

unfoldable pub approve_op : Sha256 → Owner → ℕ → ℕ → Text → Attempt → State → State × Reply
approve_op sha owner user now id a s =
    if_decidable (get_operation owner user id s.operations) (λ row. do_approve sha now id row a) s

unfoldable pub reject_op : Sha256 → Owner → ℕ → ℕ → Text → State → State × Reply
reject_op sha owner user now id s =
    if_decidable (get_operation owner user id s.operations) (λ row. do_reject sha now id row) s

abbrev pub undoable_op_types : List Text
undoable_op_types =
    codes "move"
    ∷ codes "trash"
    ∷ codes "mark_read"
    ∷ codes "mark_unread"
    ∷ codes "flag"
    ∷ codes "unflag"
    ∷ []

abbrev is_executed : Status → Bool
is_executed executed = true
is_executed _ = false

-- `undo_expires_at and now > undo_expires_at`
abbrev pub window_closed : ℕ → Option ℕ → Bool
window_closed now none = false
window_closed now (some at) = not (at == 0) && ltb at now

-- MOVE_OP_TYPES
abbrev pub move_op_types : List Text
move_op_types = codes "move" ∷ codes "trash" ∷ []

-- Behind the gate: the credentials and the inverse IMAP command answer with an error, or with the
-- audit detail.
pub data Inverse : Type 0 where
  undone refused_undo : Text → Inverse

-- What an undo meets: `json.loads` with the tables of `re`, and the answer behind the gate.
pub record UndoAttempt : Type 0 where
  pub uni : Unicode
  pub loads : Loads
  pub inverse : Inverse

abbrev if_recorded : Option (Text × ℤ) → Option Text
if_recorded none = some (codes "destination not recorded")
if_recorded (some d) = none

-- The checks of a move: its folder, and the destination that was recorded when it was executed.
unfoldable pub move_gate : UndoAttempt → Operation → List Row → Option Text
unfolding load_move_destination
move_gate attempt row rows =
    if is_blank row.request.folder_to
    then some (codes "folder_to")
    else if_recorded (load_move_destination attempt.uni attempt.loads row.id rows)

-- The checks of `undo_operation` on the row and on the audit log, in order; `none` lets the undo go
-- on.
unfoldable pub undo_gate : UndoAttempt → ℕ → Operation → List Row → Option Text
unfolding move_gate
undo_gate attempt now row rows =
    if not (is_executed row.status)
    then some (codes "status")
    else if not (one_of row.request.op_type undoable_op_types)
    then some (codes "op_type")
    else if window_closed now row.undo_expires_at
    then some (codes "undo window has expired")
    else if one_of row.request.op_type move_op_types
    then move_gate attempt row rows
    else none

unfoldable pub finish_undo : Sha256 → ℕ → Text → Operation → Inverse → State → State × Reply
finish_undo sha now id row (refused_undo message) s = (s, refused message)
finish_undo sha now id row (undone detail) s = (
  audit sha now (codes "reverted") (codes "human") id row (some detail)
      (update_operation_status now id reverted (codes "human") none s),
  was_reverted,
)

unfoldable pub undo_gated :
    Sha256 → ℕ → Text → Operation → Inverse → Option Text → State → State × Reply
undo_gated sha now id row inverse (some message) s = (s, refused message)
undo_gated sha now id row inverse none s = finish_undo sha now id row inverse s

unfoldable pub undo_row : Sha256 → ℕ → Text → UndoAttempt → Option Operation → State → State × Reply
undo_row sha now id attempt none s = (s, not_found)
undo_row sha now id attempt (some row) s =
    undo_gated sha now id row attempt.inverse (undo_gate attempt now row s.log.rows) s

unfoldable pub undo_op : Sha256 → Owner → ℕ → ℕ → Text → UndoAttempt → State → State × Reply
undo_op sha owner user now id attempt s =
    undo_row sha now id attempt (get_operation owner user id s.operations) s
