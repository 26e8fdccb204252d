-- ===== src/Staging/Lifecycle/Commands.antt =====
-- A fact about the rows that every update keeps is kept by every run of commands.
use nuvrail.Prelude.{
  ℕ, ◌≡◌, sym, subst, Bool, true, false, List, [], ◌∷◌, Option, none, some, ◌⊎◌, inl, inr, All,
  if◌then◌else◌, Bool-cases,
}
use nuvrail.Prelude.Text.{Text, codes}
use nuvrail.Audit.Record.{Sha256}
use nuvrail.Staging.Store.{
  rejected, reverted, Operation, State, update_operation_status, audit, revert_local, is_pending,
  if_pending,
}
use nuvrail.Staging.Store.Rows.{All-update_where}
use nuvrail.Staging.Execute.{Attempt}
use nuvrail.Staging.Create.{Provider, create_operation, create_if, staged_row}
use nuvrail.Staging.Decide.{
  Owner, Reply, Inverse, UndoAttempt, undone, refused_undo, get_operation, do_approve, do_reject,
  if_decidable, approve_op, reject_op, undo_gate, finish_undo, undo_row, undo_gated, undo_op,
}
use nuvrail.Staging.Loops.{
  expire_row, audit_expired, expire_one, expire_all, expire_stale_operations, approve_row, claim,
  execute_claimed, execute_due_one, execute_due_all, execute_due_scheduled,
}
use nuvrail.Staging.Lifecycle.{
  Command, create, approve, reject, undo, expire, run_due, run, run_all, created,
}
use nuvrail.Staging.Lifecycle.Columns.{
  IsStable, IsStableUnderRules, status-All, execute_operation-All, create_with-All,
}

-- The row that the command would add has `P`.
abbrev pub Creates : (Operation → Type 0) → Command → Type 0
Creates P (create now id q a) = P (staged_row now id q)
Creates P _ = Unit

module _ {P : Operation → Type 0} (st : IsStable P) (sha : Sha256) where
  if_decidable-All :
      (o : Option Operation) (act : Operation → State → State × Reply) (s : State)
      → ((row : Operation) → All P (act row s).0.operations)
      → All P s.operations
      → All P (if_decidable o act s).0.operations
  unfolding if_decidable
  if_decidable-All none act s keep h = h
  if_decidable-All (some row) act s keep h = elim (Bool-cases (is_pending row.status)) [
    | inl e ↦ rw e (keep row)
    | inr e ↦ rw e h
  ]

  do_approve-All :
      (now : ℕ) (id : Text) (row : Operation) (a : Attempt) (s : State)
      → All P s.operations
      → All P (do_approve sha now id row a s).0.operations
  unfolding do_approve
  do_approve-All now id row a s h = execute_operation-All st sha now id row (codes "human") a s h

  do_reject-All :
      (now : ℕ) (id : Text) (row : Operation) (s : State)
      → All P s.operations
      → All P (do_reject sha now id row s).0.operations
  unfolding do_reject revert_local audit update_operation_status
  do_reject-All now id row s h =
      status-All st sha now id rejected (codes "human") none s.operations h

  undo_gated-All :
      (now : ℕ) (id : Text) (row : Operation) (inverse : Inverse) (o : Option Text) (s : State)
      → All P s.operations
      → All P (undo_gated sha now id row inverse o s).0.operations
  unfolding undo_gated finish_undo audit update_operation_status
  undo_gated-All now id row inverse (some message) s h = h
  undo_gated-All now id row (refused_undo message) none s h = h
  undo_gated-All now id row (undone detail) none s h =
      status-All st sha now id reverted (codes "human") none s.operations h

  undo_row-All :
      (now : ℕ) (id : Text) (attempt : UndoAttempt) (o : Option Operation) (s : State)
      → All P s.operations
      → All P (undo_row sha now id attempt o s).0.operations
  unfolding undo_row
  undo_row-All now id attempt none s h = h
  undo_row-All now id attempt (some row) s h =
      undo_gated-All now id row attempt.inverse (undo_gate attempt now row s.log.rows) s h

  guarded :
      (f : Operation → Operation)
      → ((r : Operation) → P r → P (f r))
      → (r : Operation) → P r
      → P (if_pending f r)
  guarded f keep r h = elim (Bool-cases (is_pending r.status)) [
    | inl e ↦ subst (λ b. P (if b then f r else r)) (sym e) (keep r h)
    | inr e ↦ subst (λ b. P (if b then f r else r)) (sym e) h
  ]

  audit_expired-All :
      (now : ℕ) (id : Text) (o : Option Operation) (s : State)
      → All P s.operations
      → All P (audit_expired sha now id o s).operations
  unfolding audit
  audit_expired-All now id none s h = h
  audit_expired-All now id (some r) s h = h

  expire_all-All :
      (now : ℕ) (rows : List Operation) (s : State)
      → All P s.operations
      → All P (expire_all sha now rows s).operations
  unfolding expire_all expire_one revert_local
  expire_all-All now [] s h = h
  expire_all-All now (r ∷ rows) s h = expire_all-All now rows (expire_one sha now r.id s) (
      audit_expired-All now r.id _ _ (
        All-update_where P r.id (if_pending (expire_row now)) s.operations
          (guarded (expire_row now) (st.at_expire now)) h))

  claimed-All :
      (now : ℕ) (attempts : Text → Attempt) (r : Operation) (n : ℕ) (c : State × Bool)
      → All P c.0.operations
      → All P (execute_claimed sha now attempts r n c).0.operations
  claimed-All now attempts r n (s, true) h =
      execute_operation-All st sha now r.id _ (codes "auto_rule") (attempts r.id) s h
  claimed-All now attempts r n (s, false) h = h

  execute_due_all-All :
      (now : ℕ) (attempts : Text → Attempt) (rows : List Operation) (acc : State × ℕ)
      → All P acc.0.operations
      → All P (execute_due_all sha now attempts rows acc).0.operations
  unfolding execute_due_all execute_due_one claim
  execute_due_all-All now attempts [] acc h = h
  execute_due_all-All now attempts (r ∷ rows) (s, n) h =
      execute_due_all-All now attempts rows (execute_due_one sha now attempts r (s, n)) (
        claimed-All now attempts r n (claim now r.id s) (
          All-update_where P r.id (if_pending (approve_row now)) s.operations
            (guarded (approve_row now) (st.at_approve now)) h))

  create_if-All :
      (provider : Provider) (now : ℕ) (a : Attempt) (row : Operation) (o : Option Operation)
      (s : State)
      → (provider ≡ none) ⊎ IsStableUnderRules P
      → P row
      → All P s.operations
      → All P (created s (create_if sha provider now a row o s)).operations
  create_if-All provider now a row none s rules p h =
      create_with-All st sha provider now a row s rules p h
  create_if-All provider now a row (some taken) s rules p h = h

  pub run-All :
      (provider : Provider) (owner : Owner) (c : Command) (s : State)
      → (provider ≡ none) ⊎ IsStableUnderRules P
      → Creates P c
      → All P s.operations
      → All P (run sha provider owner c s).operations
  unfolding run create_operation approve_op reject_op undo_op expire_stale_operations
      execute_due_scheduled
  run-All provider owner (create now id q a) s rules new h =
      create_if-All provider now a (staged_row now id q) _ s rules new h
  run-All provider owner (approve user now id a) s rules new h =
      if_decidable-All (get_operation owner user id s.operations) _ s
        (λ row. do_approve-All now id row a s h) h
  run-All provider owner (reject user now id) s rules new h =
      if_decidable-All (get_operation owner user id s.operations) _ s
        (λ row. do_reject-All now id row s h) h
  run-All provider owner (undo user now id inverse) s rules new h =
      undo_row-All now id inverse _ s h
  run-All provider owner (expire now) s rules new h = expire_all-All now _ s h
  run-All provider owner (run_due now attempts) s rules new h =
      execute_due_all-All now attempts _ (s, 0) h

  pub run_all-All :
      (provider : Provider) (owner : Owner) (cs : List Command) (s : State)
      → (provider ≡ none) ⊎ IsStableUnderRules P
      → ((c : Command) → Creates P c)
      → All P s.operations
      → All P (run_all sha provider owner cs s).operations
  unfolding run_all
  run_all-All provider owner [] s rules new h = h
  run_all-All provider owner (c ∷ cs) s rules new h =
      run_all-All provider owner cs (run sha provider owner c s) rules new
        (run-All provider owner c s rules (new c) h)
