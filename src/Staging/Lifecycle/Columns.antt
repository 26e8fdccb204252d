-- ===== src/Staging/Lifecycle/Columns.antt =====
-- Facts about the columns of `staged_operations` that every update keeps, and so every command.
use nuvrail.Prelude.{
  ℕ, ◌+◌, ◌≡◌, refl, Bool, true, false, List, [], ◌∷◌, Option, none, some, ◌⊎◌, inl, inr, All,
  All-append, Bool-cases, arith,
}
use nuvrail.Prelude.Text.{Text, codes, same}
use nuvrail.Audit.Record.{Sha256}
use nuvrail.Staging.Store.{
  Status, rejected, executed, failed, Operation, State, get_row, update_where, set_status,
  update_operation_status, audit, revert_local,
}
use nuvrail.Staging.Store.Rows.{All-update_where}
use nuvrail.Staging.Execute.{
  Attempt, Upstream, done, broken, execute_operation, send_checked, send_limited, replay,
  is_bodyless, mark_executed, record_execution_failure, clear_folder_to, send_rate, preflight,
}
use nuvrail.SendRate.{Verdict, allowed, unreadable, exceeded}
use nuvrail.Staging.Create
use nuvrail.Staging.Create.{
  Provider, Decision, RuleAction, hold, other, approve_after, with_urgency, with_schedule,
  set_schedule_and_urgency, execute_row, apply_action, apply_auto_rule_decision, stage_row,
  staged_row, create_operation, create_with, create_if, run_auto_decision,
}
use nuvrail.Staging.Loops.{expire_row, approve_row}

-- Every update of the core keeps `P`.
pub record IsStable (P : Operation → Type 0) : Type 0 where
  pub at_set_status :
      (now : ℕ) (status : Status) (by : Text) (e : Option Text) (r : Operation)
      → P r
      → P (set_status now status by e r)
  pub at_clear :
      (r : Operation) → P r → P (record r { request = record r.request { folder_to = none } })
  pub at_expire : (now : ℕ) (r : Operation) → P r → P (expire_row now r)
  pub at_approve : (now : ℕ) (r : Operation) → P r → P (approve_row now r)

-- So does what a rules engine can ask for.
pub record IsStableUnderRules (P : Operation → Type 0) : Type 0 where
  pub at_schedule :
      (at : Option ℕ) (urgent : Option Bool) (r : Operation)
      → P r
      → P (with_urgency urgent (with_schedule at r))

module _ {P : Operation → Type 0} (st : IsStable P) (sha : Sha256) where
  pub status-All :
      (now : ℕ) (id : Text) (status : Status) (by : Text) (e : Option Text) (rows : List Operation)
      → All P rows
      → All P (update_where id (set_status now status by e) rows)
  status-All now id status by e rows h =
      All-update_where P id (set_status now status by e) rows (st.at_set_status now status by e) h

  replay-All :
      (now : ℕ) (id : Text) (row : Operation) (actor : Text) (smtp : Bool) (up : Upstream)
      (s : State)
      → All P s.operations
      → All P (replay sha now id row actor smtp up s).0.operations
  unfolding replay record_execution_failure mark_executed clear_folder_to update_operation_status
      audit
  replay-All now id row actor smtp (broken message detail) s h =
      status-All now id failed (codes "human") (some message) s.operations h
  replay-All now id row actor true (done detail cleared) s h =
      status-All now id executed (codes "human") none s.operations h
  replay-All now id row actor false (done detail false) s h =
      status-All now id executed (codes "human") none s.operations h
  replay-All now id row actor false (done detail true) s h =
      status-All now id executed (codes "human") none _ (
        All-update_where P id (λ r. record r { request = record r.request { folder_to = none } })
          s.operations st.at_clear h)

  mark_executed-All :
      (now : ℕ) (id : Text) (row : Operation) (actor : Text) (detail : Option Text) (s : State)
      → All P s.operations
      → All P (mark_executed sha now id row actor detail s).0.operations
  unfolding mark_executed update_operation_status audit
  mark_executed-All now id row actor detail s h =
      status-All now id executed (codes "human") none s.operations h

  send_checked-All :
      (now : ℕ) (id : Text) (row : Operation) (actor : Text) (a : Attempt) (o : Option Text)
      (over : Verdict) (s : State)
      → send_rate now row a s ≡ over
      → All P s.operations
      → All P (send_checked sha now id row actor a o s).0.operations
  unfolding send_checked send_limited update_operation_status audit
  send_checked-All now id row actor a (some message) over s e h = h
  send_checked-All now id row actor a none allowed s e h =
      rw e (replay-All now id row actor true a.upstream s h)
  send_checked-All now id row actor a none unreadable s e h = rw e h
  send_checked-All now id row actor a none (exceeded scope used requested cap window) s e h = rw e (
      status-All now id failed (codes "human")
        (some (a.report (exceeded scope used requested cap window)).0) s.operations h)

  pub execute_operation-All :
      (now : ℕ) (id : Text) (row : Operation) (actor : Text) (a : Attempt) (s : State)
      → All P s.operations
      → All P (execute_operation sha now id row actor a s).0.operations
  unfolding execute_operation
  execute_operation-All now id row actor a s h =
      elim (Bool-cases (same row.request.protocol (codes "smtp"))) [
        | inl e ↦ rw e (
            send_checked-All now id row actor a (preflight id row a) (send_rate now row a s) s refl
              h)
        | inr e ↦ elim (Bool-cases (is_bodyless row)) [
          | inl b ↦ rw (e, b) (mark_executed-All now id row actor none s h)
          | inr b ↦ rw (e, b) (replay-All now id row actor false a.upstream s h)
        ]
      ]

  execute_row-All :
      (now : ℕ) (id : Text) (a : Attempt) (o : Option Operation) (s : State)
      → All P s.operations
      → All P (execute_row sha now id a o s).operations
  unfolding execute_row
  execute_row-All now id a none s h = h
  execute_row-All now id a (some r) s h = execute_operation-All now id r (codes "auto_rule") a s h

  apply_action-All :
      (rules : IsStableUnderRules P) (now : ℕ) (id : Text) (row : Operation) (a : Attempt)
      (action : RuleAction) (urgent : Option Bool) (detail : Text) (s : State)
      → All P s.operations
      → All P (apply_action sha now id row a action urgent detail s).operations
  unfolding revert_local audit update_operation_status set_schedule_and_urgency
  apply_action-All rules now id row a Create.reject urgent detail s h =
      status-All now id rejected (codes "auto_rule") none s.operations h
  apply_action-All rules now id row a (approve_after delay) urgent detail s h =
      All-update_where P id _ s.operations (rules.at_schedule (some (now + delay)) urgent) h
  apply_action-All rules now id row a hold urgent detail s h =
      All-update_where P id _ s.operations (rules.at_schedule none urgent) h
  apply_action-All rules now id row a other urgent detail s h = h
  apply_action-All rules now id row a Create.approve urgent detail s h =
      let s' = audit sha now (codes "approved") (codes "auto_rule") id row (some detail) s in
      execute_row-All now id a (get_row id s'.operations) s' h

  pub create_with-All :
      (provider : Provider) (now : ℕ) (a : Attempt) (row : Operation) (s : State)
      → (provider ≡ none) ⊎ IsStableUnderRules P
      → P row
      → All P s.operations
      → All P (create_with sha provider now a row s).0.operations
  create_with-All provider now a row s rules p h = decided (run_auto_decision provider row) refl
    where
      staged : All P (stage_row sha now row.id row s).operations
      staged = unfold stage_row audit in All-append P s.operations (row ∷ []) h (p, tt)

      decided :
          (d : Option Decision)
          → run_auto_decision provider row ≡ d
          → All P
              (apply_auto_rule_decision sha now row.id row a d
                (stage_row sha now row.id row s)).operations
      decided none e = unfold apply_auto_rule_decision in staged
      decided (some d) e =
          unfold apply_auto_rule_decision in
          elim rules [
            | inr stable ↦
                apply_action-All stable now row.id row a d.action d.is_urgent d.detail
                  (stage_row sha now row.id row s) staged
            | inl absent ↦ absurd (unfold run_auto_decision in ground arith)
          ]
