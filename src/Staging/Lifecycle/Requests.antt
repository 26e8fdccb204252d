-- ===== src/Staging/Lifecycle/Requests.antt =====
-- The requests of the API keep the balance of `Balance`.
use nuvrail.Prelude.{
  ℕ, ◌≡◌, refl, sym, Bool, true, List, Option, none, some, arith, Bool-cases, inl, inr,
}
use nuvrail.Prelude.Text.{Text, codes}
use nuvrail.Audit.Record.{Row, Sha256}
use nuvrail.Staging.Store.{
  Status, pending, rejected, executed, reverted, Operation, State, get_row, update_where,
  set_status, update_operation_status, audit, revert_local, is_pending,
}
use nuvrail.Staging.Store.Rows.{mapped}
use nuvrail.Staging.Execute.{Attempt}
use nuvrail.Staging.Decide.{
  Owner, Reply, get_operation, do_approve, do_reject, if_decidable, undo_gate, Inverse, UndoAttempt,
  undone, refused_undo, finish_undo, undo_row, undo_gated,
}
use nuvrail.Staging.Lifecycle.Balance.{
  times, replays, is_skipped, Balanced, IsCounted, Balanced-update_where, id-set_status, IsFresh,
}
use nuvrail.Staging.Lifecycle.Replay.{execute_operation-IsCounted}

-- Setting the status of a row that was never replayed to one that stands for no replay.
pub decided-Balanced :
    {skip : Text → Bool} (now : ℕ) (id : Text) (status : Status) (by : Text) (s : State)
    → replays (mapped (set_status now status by none) (get_row id s.operations))
      ≡ replays (get_row id s.operations)
    → IsCounted skip s
    → Balanced skip (update_where id (set_status now status by none) s.operations) s.upstream
decided-Balanced now id status by s e b =
    Balanced-update_where id _ s.operations s.upstream (id-set_status now status by none) e b

pub times-pending : (status : Status) → is_pending status ≡ true → times status ≡ 0
times-pending pending h = refl
times-pending executed h = cc
times-pending reverted h = cc
times-pending _ h = refl

module _ {skip : Text → Bool} (sha : Sha256) (now : ℕ) (id : Text) where
  pub do_approve-IsCounted :
      (row : Operation) (a : Attempt) (s : State)
      → skip id ≡ is_skipped row.request
      → IsFresh id s
      → IsCounted skip s
      → IsCounted skip (do_approve sha now id row a s).0
  unfolding do_approve
  do_approve-IsCounted row a s kind f b =
      execute_operation-IsCounted sha now id row (codes "human") a s kind f b

  pub do_reject-IsCounted :
      (row : Operation) (s : State)
      → IsFresh id s
      → IsCounted skip s
      → IsCounted skip (do_reject sha now id row s).0
  unfolding do_reject revert_local audit update_operation_status
  do_reject-IsCounted row s f b =
      decided-Balanced now id rejected (codes "human") s (rw f.here (sym f.never)) b

  finish_undo-IsCounted :
      (row : Operation) (inverse : Inverse) (s : State) {q : Operation}
      → get_row id s.operations ≡ some q
      → times q.status ≡ 1
      → IsCounted skip s
      → IsCounted skip (finish_undo sha now id row inverse s).0
  unfolding finish_undo audit update_operation_status
  finish_undo-IsCounted row (refused_undo message) s here one b = b
  finish_undo-IsCounted row (undone detail) s here one b =
      decided-Balanced now id reverted (codes "human") s (rw here (sym one)) b

pub get_row-visible :
    (owner : Owner) (user : ℕ) (id : Text) (rows : List Operation) {row : Operation}
    → get_operation owner user id rows ≡ some row
    → get_row id rows ≡ some row
unfolding get_operation
get_row-visible owner user id rows h = ground arith

-- A request that acts only on a visible, pending row.
pub if_decidable-IsCounted :
    {skip : Text → Bool} (id : Text) (o : Option Operation)
    (act : Operation → State → State × Reply) (s : State)
    → ((row : Operation) → o ≡ some row → get_row id s.operations ≡ some row)
    → ((row : Operation) → o ≡ some row → IsFresh id s → IsCounted skip (act row s).0)
    → IsCounted skip s
    → IsCounted skip (if_decidable o act s).0
unfolding if_decidable
if_decidable-IsCounted id none act s found keep b = b
if_decidable-IsCounted id (some row) act s found keep b =
    elim (Bool-cases (is_pending row.status)) [
      | inl e ↦ rw e (
          keep row refl
            (record { row = row; here = found row refl; never = times-pending row.status e }))
      | inr e ↦ rw e b
    ]

undo_gate-executed :
    (attempt : UndoAttempt) (now : ℕ) (row : Operation) (rows : List Row)
    → undo_gate attempt now row rows ≡ none
    → times row.status ≡ 1
unfolding undo_gate
undo_gate-executed attempt now row rows h = ground arith

undo_gated-IsCounted :
    {skip : Text → Bool} (sha : Sha256) (now : ℕ) (id : Text) (row : Operation)
    (attempt : UndoAttempt) (o : Option Text) (s : State)
    → undo_gate attempt now row s.log.rows ≡ o
    → get_row id s.operations ≡ some row
    → IsCounted skip s
    → IsCounted skip (undo_gated sha now id row attempt.inverse o s).0
unfolding undo_gated
undo_gated-IsCounted sha now id row attempt (some message) s e here b = b
undo_gated-IsCounted sha now id row attempt none s e here b =
    finish_undo-IsCounted sha now id row attempt.inverse s here
      (undo_gate-executed attempt now row s.log.rows e) b

pub undo_row-IsCounted :
    {skip : Text → Bool} (sha : Sha256) (now : ℕ) (id : Text) (attempt : UndoAttempt)
    (o : Option Operation) (s : State)
    → ((row : Operation) → o ≡ some row → get_row id s.operations ≡ some row)
    → IsCounted skip s
    → IsCounted skip (undo_row sha now id attempt o s).0
unfolding undo_row
undo_row-IsCounted sha now id attempt none s found b = b
undo_row-IsCounted sha now id attempt (some row) s found b =
    undo_gated-IsCounted sha now id row attempt (undo_gate attempt now row s.log.rows) s refl
      (found row refl) b
