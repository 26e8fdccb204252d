-- ===== src/Staging/Create.antt =====
-- `create_operation` and the automatic decision of gateway/staging.py. The id that `secrets` draws,
-- the clock, the rules engine (a plugin, absent in the open core) and the attempt to execute are
-- arguments.
use nuvrail.Prelude.{ℕ, ◌+◌, ◌*◌, Bool, true, false, ◌||◌, [], ◌∷◌, ◌++◌, Option, none, some}
use nuvrail.Prelude.Text.{Text, codes, same, one_of}
use nuvrail.Audit.Record.{Sha256}
use nuvrail.Staging.Store.{
  pending, rejected, Request, Operation, State, get_row, update_where, update_operation_status,
  audit, revert_local,
}
use nuvrail.Staging.Execute.{Attempt, execute_operation}

-- The dict that a rules engine returns. `other` is an action that the core does not know.
pub data RuleAction : Type 0 where
  approve reject hold other : RuleAction
  approve_after : ℕ → RuleAction

-- `detail` is the JSON that attributes the decision to its rule.
pub record Decision : Type 0 where
  pub action : RuleAction
  pub is_urgent : Option Bool
  pub detail : Text

-- `_auto_decision_provider`: none registered, or a function of the operation
abbrev pub Provider : Type 0
Provider = Option (Operation → Option Decision)

-- `run_auto_decision` of gateway/extensions.py
unfoldable pub run_auto_decision : Provider → Operation → Option Decision
run_auto_decision none op = none
run_auto_decision (some provider) op = provider op

-- `is_urgent is None`: urgent for a send, for trash, and for any operation that means to delete
abbrev pub default_urgency : Request → Bool
default_urgency r =
    one_of r.op_type (codes "smtp_send" ∷ codes "trash" ∷ [])
    || elim r.intent_label [ none ↦ false | some label ↦ same label (codes "delete") ]

abbrev pub urgency : Request → Bool
urgency r = elim r.is_urgent [ none ↦ default_urgency r | some b ↦ b ]

-- 48 * 3600
abbrev pub lifetime : ℕ
lifetime = 48 * 3600

unfoldable pub staged_row : ℕ → Text → Request → Operation
staged_row now id r = record {
  id = id;
  request = r;
  created_at = now;
  expires_at = now + lifetime;
  status = pending;
  urgent = urgency r;
  decided_at = none;
  decided_by = none;
  executed_at = none;
  error = none;
  scheduled_execute_at = none;
  undo_expires_at = none;
}

abbrev pub with_urgency : Option Bool → Operation → Operation
with_urgency none r = r
with_urgency (some b) r = record r { urgent = b }

abbrev pub with_schedule : Option ℕ → Operation → Operation
with_schedule none r = r
with_schedule (some at) r = record r { scheduled_execute_at = some at }

-- `_set_schedule_and_urgency`
unfoldable pub set_schedule_and_urgency : Text → Option ℕ → Option Bool → State → State
set_schedule_and_urgency id at urgent s = record s {
  operations = update_where id (λ r. with_urgency urgent (with_schedule at r)) s.operations;
}

-- get_operation, and the execution if the row is there; an `ExecutionError` is only logged
unfoldable pub execute_row : Sha256 → ℕ → Text → Attempt → Option Operation → State → State
execute_row sha now id a none s = s
execute_row sha now id a (some row) s = (execute_operation sha now id row (codes "auto_rule") a s).0

-- `_apply_auto_rule_decision`
abbrev pub apply_action :
    Sha256 → ℕ → Text → Operation → Attempt → RuleAction → Option Bool → Text → State → State
apply_action sha now id row a reject urgent detail s = revert_local now id (
    audit sha now (codes "rejected") (codes "auto_rule") id row (some detail)
      (update_operation_status now id rejected (codes "auto_rule") none s))
apply_action sha now id row a (approve_after delay) urgent detail s =
    audit sha now (codes "scheduled") (codes "auto_rule") id row (some detail)
      (set_schedule_and_urgency id (some (now + delay)) urgent s)
apply_action sha now id row a hold urgent detail s =
    audit sha now (codes "held") (codes "auto_rule") id row (some detail)
      (set_schedule_and_urgency id none urgent s)
apply_action sha now id row a other urgent detail s = s
apply_action sha now id row a approve urgent detail s =
    let s' = audit sha now (codes "approved") (codes "auto_rule") id row (some detail) s in
    execute_row sha now id a (get_row id s'.operations) s'

unfoldable pub apply_auto_rule_decision :
    Sha256 → ℕ → Text → Operation → Attempt → Option Decision → State → State
apply_auto_rule_decision sha now id row a none s = s
apply_auto_rule_decision sha now id row a (some d) s =
    apply_action sha now id row a d.action d.is_urgent d.detail s

-- `auto_action not in _TERMINAL_AUTO_ACTIONS`: a notification is sent
abbrev pub notifies : Option Decision → Bool
notifies none = true
notifies (some d) = elim d.action [ approve ↦ false | reject ↦ false | _ ↦ true ]

-- The row and its 'staged' audit row, in one transaction.
unfoldable pub stage_row : Sha256 → ℕ → Text → Operation → State → State
stage_row sha now id row s =
    audit sha now (codes "staged") (codes "ai_agent") id row none
      (record s { operations = s.operations ++ row ∷ [] })

abbrev pub create_with : Sha256 → Provider → ℕ → Attempt → Operation → State → State × Bool
create_with sha provider now a row s =
    let decision = run_auto_decision provider row in
    (
      apply_auto_rule_decision sha now row.id row a decision (stage_row sha now row.id row s),
      notifies decision,
    )

abbrev pub create_if :
    Sha256 → Provider → ℕ → Attempt → Operation → Option Operation → State → Option (State × Bool)
create_if sha provider now a row none s = some (create_with sha provider now a row s)
create_if sha provider now a row (some taken) s = none

-- The new state, and whether the user is notified. `none` is the IntegrityError of an id that is
-- taken.
unfoldable pub create_operation :
    Sha256 → Provider → ℕ → Text → Request → Attempt → State → Option (State × Bool)
create_operation sha provider now id r a s =
    create_if sha provider now a (staged_row now id r) (get_row id s.operations) s
