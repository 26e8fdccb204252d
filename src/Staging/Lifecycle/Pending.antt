-- ===== src/Staging/Lifecycle/Pending.antt =====
-- What staging alone does to the operations.
use nuvrail.Prelude.{
  ℕ, ◌≡◌, refl, sym, ap, ◌∙◌, Bool, List, ◌++◌, append-nil, append_assoc, [], ◌∷◌, Option, none,
  some, All, All-append,
}
use nuvrail.Prelude.Text.{Text}
use nuvrail.Audit.Record.{Sha256}
use nuvrail.Staging.Store.{pending, Operation, Request, State, get_row, audit}
use nuvrail.Staging.Execute.{Attempt}
use nuvrail.Staging.Create.{
  create_operation, create_if, staged_row, stage_row, apply_auto_rule_decision, run_auto_decision,
}

-- The operations are the old ones, untouched, with pending ones behind them; nothing was replayed on
-- the mail server and no revert was queued.
pub record OnlyStages (s t : State) : Type 0 where
  pub added : List Operation
  pub operations : t.operations ≡ s.operations ++ added
  pub are_pending : All (λ (r : Operation). r.status ≡ pending) added
  pub upstream : t.upstream ≡ s.upstream
  pub reverts : t.pending_reverts ≡ s.pending_reverts

pub OnlyStages-refl : (s : State) → OnlyStages s s
OnlyStages-refl s = record {
  added = [];
  operations = sym (append-nil s.operations);
  are_pending = tt;
  upstream = refl;
  reverts = refl;
}

pub OnlyStages-trans : (s t u : State) → OnlyStages s t → OnlyStages t u → OnlyStages s u
OnlyStages-trans s t u f g = record {
  added = f.added ++ g.added;
  operations =
      g.operations
      ∙ ap (λ (xs : List Operation). xs ++ g.added) f.operations
      ∙ append_assoc s.operations f.added g.added;
  are_pending = All-append _ f.added g.added f.are_pending g.are_pending;
  upstream = g.upstream ∙ f.upstream;
  reverts = g.reverts ∙ f.reverts;
}

-- The state that `create_operation` leaves, its error included.
abbrev pub state_or : State → Option (State × Bool) → State
state_or s none = s
state_or s (some (t, notified)) = t

create_if-OnlyStages :
    (sha : Sha256) (now : ℕ) (id : Text) (r : Request) (a : Attempt) (s : State)
    (o : Option Operation)
    → OnlyStages s (state_or s (create_if sha none now a (staged_row now id r) o s))
unfolding run_auto_decision apply_auto_rule_decision stage_row audit staged_row
create_if-OnlyStages sha now id r a s none = record {
  added = staged_row now id r ∷ [];
  operations = refl;
  are_pending = (refl, tt);
  upstream = refl;
  reverts = refl;
}
create_if-OnlyStages sha now id r a s (some taken) = OnlyStages-refl s

pub create_operation-OnlyStages :
    (sha : Sha256) (now : ℕ) (id : Text) (r : Request) (a : Attempt) (s : State)
    → OnlyStages s (state_or s (create_operation sha none now id r a s))
unfolding create_operation
create_operation-OnlyStages sha now id r a s =
    create_if-OnlyStages sha now id r a s (get_row id s.operations)
