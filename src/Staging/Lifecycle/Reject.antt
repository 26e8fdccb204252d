-- ===== src/Staging/Lifecycle/Reject.antt =====
-- What a rejection does to the mirror of the mailbox.
use nuvrail.Prelude.{ℕ, ◌≡◌, refl, ap, ◌∙◌, true, List, [], ◌∷◌, Option, none, some, arith}
use nuvrail.Prelude.Text.{Text, codes, same, same_refl}
use nuvrail.Audit.Record.{Sha256}
use nuvrail.Staging.Store.{
  pending, rejected, Operation, SnapEntry, State, get_row, update_operation_status, set_status,
  audit, audit_columns, restore_entries, revert_local, snapshot_of,
}
use nuvrail.Staging.Store.Rows.{get_row-update_where}
use nuvrail.Staging.Decide.{Owner, get_operation, owns, if_decidable, do_reject, reject_op}
use nuvrail.Prelude.{◌++◌, ==_refl}
use nuvrail.Staging.Execute.{Attempt}
use nuvrail.Staging.Create.{create_if, stage_row, run_auto_decision, apply_auto_rule_decision}
use nuvrail.Staging.Store.Rows.{get_row-append_one}

-- A pending operation of the user that is rejected: its snapshot is restored, whatever it is.
pub messages-reject_op :
    (sha : Sha256) (owner : Owner) (user now : ℕ) (id : Text) (s : State) (r : Operation)
    → get_row id s.operations ≡ some r
    → owns owner user r.request.agent_id ≡ true
    → r.status ≡ pending
    → (reject_op sha owner user now id s).0.messages
      ≡ restore_entries now (snapshot_of (some r)) s.messages
unfolding reject_op get_operation if_decidable do_reject revert_local audit audit_columns
    update_operation_status
messages-reject_op sha owner user now id s r here mine p =
    rw
      (
        here,
        mine,
        p,
        get_row-update_where id id (set_status now rejected (codes "human") none) s.operations
            (λ q. refl),
        same_refl id,
        here,
      )
      refl

abbrev pub entries_of : Option (List SnapEntry) → List SnapEntry
entries_of none = []
entries_of (some es) = es

snapshot_of-entries : (r : Operation) → snapshot_of (some r) ≡ entries_of r.request.snapshot
snapshot_of-entries r = ground arith

is_owner :
    (owner : Owner) (user agent : ℕ) → owner agent ≡ some user → owns owner user (some agent) ≡ true
is_owner owner user agent e = ground (arith, ==_refl user)

get_row-last :
    (k : Text) (rows : List Operation) (r : Operation)
    → get_row k rows ≡ none
    → same r.id k ≡ true
    → get_row k (rows ++ r ∷ []) ≡ some r
get_row-last k rows r fresh here = get_row-append_one k rows r ∙ rw (fresh, here) refl

pub create_if-none :
    (sha : Sha256) (now : ℕ) (a : Attempt) (r : Operation) (o : Option Operation) (s : State)
    → o ≡ none
    → create_if sha none now a r o s ≡ some (stage_row sha now r.id r s, true)
unfolding run_auto_decision apply_auto_rule_decision
create_if-none sha now a r none s e = refl
create_if-none sha now a r (some q) s e = absurd (ground arith)

pub reject-stage_row :
    (sha : Sha256) (owner : Owner) (user t now agent : ℕ) (r : Operation) (s : State)
    → get_row r.id s.operations ≡ none
    → r.request.agent_id ≡ some agent
    → owner agent ≡ some user
    → r.status ≡ pending
    → (reject_op sha owner user t r.id (stage_row sha now r.id r s)).0.messages
      ≡ restore_entries t (entries_of r.request.snapshot) s.messages
unfolding stage_row audit audit_columns
reject-stage_row sha owner user t now agent r s fresh ea eo p =
    messages-reject_op sha owner user t r.id (stage_row sha now r.id r s) r
      (get_row-last r.id s.operations r fresh (same_refl r.id))
      (ap (owns owner user) ea ∙ is_owner owner user agent eo) p
    ∙ ap (λ es. restore_entries t es s.messages) (snapshot_of-entries r)
