-- ===== src/Staging/Lifecycle/Approval.antt =====
-- What reaches the mail server needs an approval, and the undo window is never set.
use nuvrail.Prelude.{
  ℕ, ◌≡◌, refl, subst, ◌∙◌, Bool, true, false, List, [], ◌∷◌, Option, none, some, inl, inr, All,
  Bool-cases, arith,
}
use nuvrail.Prelude.Text.{Text, same, one_of}
use nuvrail.Audit.Record.{Row, Sha256}
use nuvrail.Mailbox.{ℤ}
use nuvrail.Staging.Destination.{load_move_destination}
use nuvrail.Staging.Store.{
  Status, executed, Operation, State, get_row, set_status, update_operation_status, audit,
  revert_local,
}
use nuvrail.Staging.Execute.{Attempt}
use nuvrail.Staging.Create.{
  Provider, create_operation, create_if, staged_row, stage_row, with_urgency, with_schedule,
  apply_auto_rule_decision, run_auto_decision,
}
use nuvrail.Staging.Decide.{
  Owner, Inverse, UndoAttempt, undone, refused_undo, get_operation, do_reject, if_decidable,
  reject_op, undo_gate, finish_undo, undo_row, undo_gated, undo_op, undoable_op_types,
  move_op_types, move_gate,
}
use nuvrail.Staging.Loops.{
  audit_expired, expire_one, expire_all, expire_stale_operations, find_expired_pending,
  execute_due_all, execute_due_scheduled, find_due_scheduled, where_rows, is_due, sort_by,
}
use nuvrail.Staging.Lifecycle.{
  Command, create, approve, reject, undo, expire, run_due, run, run_all, created, empty,
}
use nuvrail.Staging.Lifecycle.Columns.{IsStable}
use nuvrail.Staging.Lifecycle.Commands.{Creates, run-All, run_all-All}

-- No cool-down is set.
abbrev pub IsManual : Operation → Type 0
IsManual r = r.scheduled_execute_at ≡ none

-- No undo deadline is set.
abbrev pub HasNoWindow : Operation → Type 0
HasNoWindow r = r.undo_expires_at ≡ none

scheduled-set_status :
    (now : ℕ) (status : Status) (by : Text) (e : Option Text) (r : Operation)
    → (IsManual r → IsManual (set_status now status by e r))
      × (HasNoWindow r → HasNoWindow (set_status now status by e r))
scheduled-set_status now executed by e r = (λ h. h, λ h. h)
scheduled-set_status now _ by e r = (λ h. h, λ h. h)

IsManual-IsStable : IsStable IsManual
IsManual-IsStable = record {
  at_set_status = λ now status by e r. (scheduled-set_status now status by e r).0;
  at_clear = λ r h. h;
  at_expire = λ now r h. h;
  at_approve = λ now r h. h;
}

HasNoWindow-IsStable : IsStable HasNoWindow
HasNoWindow-IsStable = record {
  at_set_status = λ now status by e r. (scheduled-set_status now status by e r).1;
  at_clear = λ r h. h;
  at_expire = λ now r h. h;
  at_approve = λ now r h. h;
}

IsManual-Creates : (c : Command) → Creates IsManual c
unfolding staged_row
IsManual-Creates (create now id q a) = refl
IsManual-Creates _ = tt

HasNoWindow-Creates : (c : Command) → Creates HasNoWindow c
unfolding staged_row
HasNoWindow-Creates (create now id q a) = refl
HasNoWindow-Creates _ = tt

window-schedule :
    (at : Option ℕ) (urgent : Option Bool) (r : Operation)
    → HasNoWindow r
    → HasNoWindow (with_urgency urgent (with_schedule at r))
window-schedule none none r h = h
window-schedule none (some u) r h = h
window-schedule (some t) none r h = h
window-schedule (some t) (some u) r h = h

-- After any run of commands, under any rules engine, no operation has an undo deadline.
run_all-HasNoWindow :
    (sha : Sha256) (provider : Provider) (owner : Owner) (cs : List Command)
    → All HasNoWindow (run_all sha provider owner cs empty).operations
run_all-HasNoWindow sha provider owner cs =
    run_all-All HasNoWindow-IsStable sha provider owner cs empty
      (inr (record { at_schedule = window-schedule })) HasNoWindow-Creates tt

get_row-All :
    (P : Operation → Type 0) (id : Text) (rows : List Operation) {r : Operation}
    → All P rows
    → get_row id rows ≡ some r
    → P r
unfolding get_row
get_row-All P id [] h e = cc
get_row-All P id (q ∷ rows) {r} h e = elim (Bool-cases (same q.id id)) [
  | inl eq ↦ subst P (ground arith) h.0
  | inr ne ↦ get_row-All P id rows h.1 (ground arith)
]

-- A flag change, or a move whose folder is known and whose destination was recorded.
pub data IsReversible (attempt : UndoAttempt) (r : Operation) (rows : List Row) : Type 0 where
  changes_flags : one_of r.request.op_type move_op_types ≡ false → IsReversible attempt r rows
  is_recorded :
      (b : ℕ) (folder : Text) (dest : Text × ℤ)
      → r.request.folder_to ≡ some (b ∷ folder)
      → load_move_destination attempt.uni attempt.loads r.id rows ≡ some dest
      → IsReversible attempt r rows

move_gate-recorded :
    (attempt : UndoAttempt) (r : Operation) (rows : List Row) (b : ℕ) (folder : Text)
    (dest : Text × ℤ)
    → r.request.folder_to ≡ some (b ∷ folder)
    → load_move_destination attempt.uni attempt.loads r.id rows ≡ some dest
    → move_gate attempt r rows ≡ none
unfolding move_gate
move_gate-recorded attempt r rows b folder dest e l = rw (e, l) refl

undo_gate-HasNoWindow :
    (attempt : UndoAttempt) (now : ℕ) (r : Operation) (rows : List Row)
    → HasNoWindow r
    → r.status ≡ executed
    → one_of r.request.op_type undoable_op_types ≡ true
    → IsReversible attempt r rows
    → undo_gate attempt now r rows ≡ none
unfolding undo_gate
undo_gate-HasNoWindow attempt now r rows h e o (changes_flags n) = rw (e, o, h, n)
undo_gate-HasNoWindow attempt now r rows h e o (is_recorded b folder dest f l) =
    elim (Bool-cases (one_of r.request.op_type move_op_types)) [
      | inl m ↦ rw (e, o, h, m) (move_gate-recorded attempt r rows b folder dest f l)
      | inr m ↦ rw (e, o, h, m)
    ]

-- The undo window never closes: after any run of commands, under any rules engine, at any later time,
-- the checks of `undo_operation` pass for every executed operation of an undoable type which is a
-- change of flags, or a move or trash with a destination folder for which the audit log has the UIDs
-- in that folder.
pub undo_gate-run_all :
    (sha : Sha256) (provider : Provider) (owner : Owner) (cs : List Command) (k : Text) (now : ℕ)
    (attempt : UndoAttempt) {r : Operation}
    → get_row k (run_all sha provider owner cs empty).operations ≡ some r
    → r.status ≡ executed
    → one_of r.request.op_type undoable_op_types ≡ true
    → IsReversible attempt r (run_all sha provider owner cs empty).log.rows
    → undo_gate attempt now r (run_all sha provider owner cs empty).log.rows ≡ none
undo_gate-run_all sha provider owner cs k now attempt {r} here e o back =
    undo_gate-HasNoWindow attempt now r (run_all sha provider owner cs empty).log.rows
      (get_row-All HasNoWindow k (run_all sha provider owner cs empty).operations
        (run_all-HasNoWindow sha provider owner cs) here)
      e o back

-- Everything but an approval.
abbrev pub is_approval : Command → Bool
is_approval (approve user now id a) = true
is_approval _ = false

where_rows-manual :
    (now : ℕ) (rows : List Operation) → All IsManual rows → where_rows (is_due now) rows ≡ []
unfolding where_rows
where_rows-manual now [] h = refl
where_rows-manual now (r ∷ rows) h = ground (arith, where_rows-manual now rows h.1, h.0)

find_due_scheduled-manual :
    (now : ℕ) (rows : List Operation) → All IsManual rows → find_due_scheduled now rows ≡ []
unfolding find_due_scheduled sort_by
find_due_scheduled-manual now rows h = rw (where_rows-manual now rows h)

module _ (sha : Sha256) where
  upstream-create_if :
      (now : ℕ) (a : Attempt) (row : Operation) (o : Option Operation) (s : State)
      → (created s (create_if sha none now a row o s)).upstream ≡ s.upstream
  unfolding run_auto_decision apply_auto_rule_decision stage_row audit
  upstream-create_if now a row none s = refl
  upstream-create_if now a row (some taken) s = refl

  upstream-reject :
      (now : ℕ) (id : Text) (o : Option Operation) (s : State)
      → (if_decidable o (λ row. do_reject sha now id row) s).0.upstream ≡ s.upstream
  unfolding if_decidable do_reject revert_local audit update_operation_status
  upstream-reject now id none s = refl
  upstream-reject now id (some row) s = ground arith

  upstream-undo_gated :
      (now : ℕ) (id : Text) (row : Operation) (inverse : Inverse) (o : Option Text) (s : State)
      → (undo_gated sha now id row inverse o s).0.upstream ≡ s.upstream
  unfolding undo_gated finish_undo audit update_operation_status
  upstream-undo_gated now id row inverse (some message) s = refl
  upstream-undo_gated now id row (undone detail) none s = refl
  upstream-undo_gated now id row (refused_undo message) none s = refl

  upstream-undo_row :
      (now : ℕ) (id : Text) (attempt : UndoAttempt) (o : Option Operation) (s : State)
      → (undo_row sha now id attempt o s).0.upstream ≡ s.upstream
  unfolding undo_row
  upstream-undo_row now id attempt none s = refl
  upstream-undo_row now id attempt (some row) s =
      upstream-undo_gated now id row attempt.inverse (undo_gate attempt now row s.log.rows) s

  upstream-audit_expired :
      (now : ℕ) (id : Text) (o : Option Operation) (s : State)
      → (audit_expired sha now id o s).upstream ≡ s.upstream
  unfolding audit
  upstream-audit_expired now id none s = refl
  upstream-audit_expired now id (some r) s = refl

  upstream-expire_all :
      (now : ℕ) (rows : List Operation) (s : State)
      → (expire_all sha now rows s).upstream ≡ s.upstream
  unfolding expire_all expire_one revert_local
  upstream-expire_all now [] s = refl
  upstream-expire_all now (r ∷ rows) s =
      upstream-expire_all now rows (expire_one sha now r.id s) ∙ upstream-audit_expired now r.id _ _

  upstream-run_due :
      (now : ℕ) (attempts : Text → Attempt) (s : State)
      → All IsManual s.operations
      → (execute_due_scheduled sha now attempts s).0.upstream ≡ s.upstream
  unfolding execute_due_scheduled execute_due_all
  upstream-run_due now attempts s h = rw (find_due_scheduled-manual now s.operations h)

  upstream-run :
      (owner : Owner) (c : Command) (s : State)
      → is_approval c ≡ false
      → All IsManual s.operations
      → (run sha none owner c s).upstream ≡ s.upstream
  unfolding run create_operation reject_op undo_op expire_stale_operations
  upstream-run owner (create now id q a) s n h =
      upstream-create_if now a _ (get_row id s.operations) s
  upstream-run owner (approve user now id a) s n h = cc
  upstream-run owner (reject user now id) s n h =
      upstream-reject now id (get_operation owner user id s.operations) s
  upstream-run owner (undo user now id inverse) s n h =
      upstream-undo_row now id inverse (get_operation owner user id s.operations) s
  upstream-run owner (expire now) s n h =
      upstream-expire_all now (find_expired_pending now s.operations) s
  upstream-run owner (run_due now attempts) s n h = upstream-run_due now attempts s h

  -- In the open core, where no rules engine is installed, nothing that an agent stages reaches the
  -- mail server by itself: whatever is staged, rejected, undone and expired, and whenever the
  -- scheduler runs, without an approval by a user nothing more is replayed.
  pub upstream-run_all :
      (owner : Owner) (cs : List Command) (s : State)
      → All (λ c. is_approval c ≡ false) cs
      → All IsManual s.operations
      → (run_all sha none owner cs s).upstream ≡ s.upstream
  unfolding run_all
  upstream-run_all owner [] s n h = refl
  upstream-run_all owner (c ∷ cs) s n h =
      upstream-run_all owner cs (run sha none owner c s) n.1
        (run-All IsManual-IsStable sha none owner c s (inl refl) (IsManual-Creates c) h)
      ∙ upstream-run owner c s n.0 h
