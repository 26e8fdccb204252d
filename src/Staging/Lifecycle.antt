-- ===== src/Staging/Lifecycle.antt =====
-- The handlers of this tree as commands, and runs of commands one after the other. Each command is
-- one request or one loop run, carried to its end before the next one begins.
pub mod Balance
pub mod Replay
pub mod Requests
pub mod Creation
pub mod Due
pub mod Ticks
pub mod Once
pub mod Columns
pub mod Commands
pub mod Approval
pub mod Reject
pub mod Pending
use nuvrail.Prelude.{ℕ, Bool, List, [], ◌∷◌, Option, none, some}
use nuvrail.Prelude.Text.{Text}
use nuvrail.Audit.Record.{Sha256}
use nuvrail.Staging.Store.{Request, State}
use nuvrail.Staging.Execute.{Attempt}
use nuvrail.Staging.Create.{Provider, create_operation}
use nuvrail.Staging.Decide.{Owner, UndoAttempt, approve_op, reject_op, undo_op}
use nuvrail.Staging.Loops.{expire_stale_operations, execute_due_scheduled}

-- A command with what it meets: the time, the drawn id, the answers of the outside world.
pub data Command : Type 0 where
  create : ℕ → Text → Request → Attempt → Command
  approve : ℕ → ℕ → Text → Attempt → Command
  reject : ℕ → ℕ → Text → Command
  undo : ℕ → ℕ → Text → UndoAttempt → Command
  expire : ℕ → Command
  run_due : ℕ → (Text → Attempt) → Command

abbrev pub created : State → Option (State × Bool) → State
created s none = s
created s (some (s', notified)) = s'

unfoldable pub run : Sha256 → Provider → Owner → Command → State → State
run sha provider owner (create now id r a) s =
    created s (create_operation sha provider now id r a s)
run sha provider owner (approve user now id a) s = (approve_op sha owner user now id a s).0
run sha provider owner (reject user now id) s = (reject_op sha owner user now id s).0
run sha provider owner (undo user now id inverse) s = (undo_op sha owner user now id inverse s).0
run sha provider owner (expire now) s = expire_stale_operations sha now s
run sha provider owner (run_due now attempts) s = (execute_due_scheduled sha now attempts s).0

unfoldable pub run_all : Sha256 → Provider → Owner → List Command → State → State
run_all sha provider owner [] s = s
run_all sha provider owner (c ∷ cs) s = run_all sha provider owner cs (run sha provider owner c s)

abbrev pub empty : State
empty = record {
  operations = [];
  messages = [];
  pending_reverts = [];
  log = record { rows = []; next_id = 1 };
  upstream = [];
}
