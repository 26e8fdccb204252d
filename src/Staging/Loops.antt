-- ===== src/Staging/Loops.antt =====
-- gateway/expiry.py and gateway/scheduler.py: one run of each background loop.
use nuvrail.Prelude.{
  ℕ, ◌+◌, Bool, true, false, ◌&&◌, List, [], ◌∷◌, Option, none, some, take, leb, if◌then◌else◌,
}
use nuvrail.Prelude.Text.{Text, codes}
use nuvrail.Audit.Record.{Sha256}
use nuvrail.Staging.Store.{
  approved, expired, Operation, State, get_row, update_where, is_pending, if_pending, audit,
  audit_columns, revert_local,
}
use nuvrail.Staging.Execute.{Attempt, Executed, ok, error, execute_operation}

-- `_BATCH_SIZE` of both modules
abbrev pub batch_size : ℕ
batch_size = 100

-- ORDER BY key ASC
unfoldable pub insert_by : (Operation → ℕ) → Operation → List Operation → List Operation
insert_by key r [] = r ∷ []
insert_by key r (q ∷ qs) =
    let rest = insert_by key r qs in if leb (key r) (key q) then r ∷ q ∷ qs else q ∷ rest

unfoldable pub sort_by : (Operation → ℕ) → List Operation → List Operation
sort_by key [] = []
sort_by key (r ∷ rs) = insert_by key r (sort_by key rs)

-- WHERE
unfoldable pub where_rows : (Operation → Bool) → List Operation → List Operation
where_rows p [] = []
where_rows p (r ∷ rs) = let rest = where_rows p rs in if p r then r ∷ rest else rest

abbrev pub is_overdue : ℕ → Operation → Bool
is_overdue now r = is_pending r.status && leb r.expires_at now

unfoldable pub find_expired_pending : ℕ → List Operation → List Operation
find_expired_pending now rows =
    take batch_size (sort_by (λ r. r.expires_at) (where_rows (is_overdue now) rows))

abbrev pub expire_row : ℕ → Operation → Operation
expire_row now r = record r {
  status = expired;
  decided_at = some now;
  decided_by = some (codes "system");
}

-- The audit row of an operation that is not there has only its id.
abbrev pub audit_expired : Sha256 → ℕ → Text → Option Operation → State → State
audit_expired sha now id none s =
    audit_columns sha now (codes "expired") (codes "system") id none none none none s
audit_expired sha now id (some row) s =
    audit sha now (codes "expired") (codes "system") id row none s

-- `_expire_one`: the revert is not guarded, the status is, and the audit row is not.
unfoldable pub expire_one : Sha256 → ℕ → Text → State → State
expire_one sha now id s =
    let s1 = revert_local now id s in
    let s2 = record s1 {
      operations = update_where id (if_pending (expire_row now)) s1.operations;
    } in
    audit_expired sha now id (get_row id s2.operations) s2

unfoldable pub expire_all : Sha256 → ℕ → List Operation → State → State
expire_all sha now [] s = s
expire_all sha now (r ∷ rs) s = expire_all sha now rs (expire_one sha now r.id s)

unfoldable pub expire_stale_operations : Sha256 → ℕ → State → State
expire_stale_operations sha now s = expire_all sha now (find_expired_pending now s.operations) s

abbrev pub is_due : ℕ → Operation → Bool
is_due now r =
    is_pending r.status && elim r.scheduled_execute_at [ none ↦ false | some at ↦ leb at now ]

abbrev pub deadline : Operation → ℕ
deadline r = elim r.scheduled_execute_at [ none ↦ 0 | some at ↦ at ]

unfoldable pub find_due_scheduled : ℕ → List Operation → List Operation
find_due_scheduled now rows = take batch_size (sort_by deadline (where_rows (is_due now) rows))

abbrev pub approve_row : ℕ → Operation → Operation
approve_row now r = record r {
  status = approved;
  decided_at = some now;
  decided_by = some (codes "auto_rule");
}

abbrev pub row_is_pending : Option Operation → Bool
row_is_pending none = false
row_is_pending (some r) = is_pending r.status

-- `_claim`: the guarded UPDATE, and whether a row was changed
unfoldable pub claim : ℕ → Text → State → State × Bool
claim now id s = (
  record s { operations = update_where id (if_pending (approve_row now)) s.operations },
  row_is_pending (get_row id s.operations),
)

abbrev counted : Executed → ℕ → ℕ
counted (ok at) n = n + 1
counted (error message) n = n

abbrev with_count : ℕ → State × Executed → State × ℕ
with_count n (s, out) = (s, counted out n)

-- The claimed row goes to the executor; one that is no longer pending is skipped.
abbrev pub execute_claimed :
    Sha256 → ℕ → (Text → Attempt) → Operation → ℕ → State × Bool → State × ℕ
execute_claimed sha now attempts r n (s, true) = with_count n (
    execute_operation sha now r.id (record r { status = approved }) (codes "auto_rule")
      (attempts r.id) s)
execute_claimed sha now attempts r n (s, false) = (s, n)

-- One operation of `execute_due_scheduled`: the state, and the number executed so far.
unfoldable pub execute_due_one : Sha256 → ℕ → (Text → Attempt) → Operation → State × ℕ → State × ℕ
execute_due_one sha now attempts r (s, n) = execute_claimed sha now attempts r n (claim now r.id s)

unfoldable pub execute_due_all :
    Sha256 → ℕ → (Text → Attempt) → List Operation → State × ℕ → State × ℕ
execute_due_all sha now attempts [] acc = acc
execute_due_all sha now attempts (r ∷ rs) acc =
    execute_due_all sha now attempts rs (execute_due_one sha now attempts r acc)

unfoldable pub execute_due_scheduled : Sha256 → ℕ → (Text → Attempt) → State → State × ℕ
execute_due_scheduled sha now attempts s =
    execute_due_all sha now attempts (find_due_scheduled now s.operations) (s, 0)
