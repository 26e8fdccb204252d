-- ===== src/Staging/Lifecycle/Ticks.antt =====
-- One run of gateway/expiry.py or gateway/scheduler.py keeps the balance of `Balance`.
use nuvrail.Prelude.{
  ℕ, All, ◌≡◌, refl, sym, ◌∙◌, Bool, true, false, List, [], ◌∷◌, Option, none, some, arith,
  Bool-cases, inl, inr,
}
use nuvrail.Prelude.Text.{Text, codes, same_refl}
use nuvrail.Audit.Record.{Sha256}
use nuvrail.Staging.Store.{
  approved, Operation, State, get_row, audit, revert_local, is_pending, if_pending,
}
use nuvrail.Staging.Store.Rows.{mapped, KeepsId, get_row-update_where}
use nuvrail.Staging.Execute.{Attempt}
use nuvrail.Staging.Loops.{
  expire_row, audit_expired, expire_one, expire_all, approve_row, row_is_pending, claim,
  execute_claimed, execute_due_one, execute_due_all,
}
use nuvrail.Staging.Lifecycle.Balance.{
  times, replays, Flagged, IsCounted, Balanced-update_where, IsFresh,
}
use nuvrail.Staging.Lifecycle.Replay.{execute_operation-IsCounted}
use nuvrail.Staging.Lifecycle.Requests.{times-pending}

if_pending-KeepsId : (f : Operation → Operation) → KeepsId f → KeepsId (if_pending f)
if_pending-KeepsId f keep r = ground (arith, keep r)

-- A guarded update to a status that stands for no replay.
guarded-replays :
    (f : Operation → Operation)
    → ((r : Operation) → times (f r).status ≡ 0)
    → (o : Option Operation) → replays (mapped (if_pending f) o) ≡ replays o
guarded-replays f never none = refl
guarded-replays f never (some r) = elim (Bool-cases (is_pending r.status)) [
  | inl e ↦ rw e (never r ∙ sym (times-pending r.status e))
  | inr e ↦ rw e refl
]

audit_expired-IsCounted :
    {skip : Text → Bool} (sha : Sha256) (now : ℕ) (id : Text) (o : Option Operation) (s : State)
    → IsCounted skip s
    → IsCounted skip (audit_expired sha now id o s)
unfolding audit
audit_expired-IsCounted sha now id none s b = b
audit_expired-IsCounted sha now id (some row) s b = b

expire_one-IsCounted :
    {skip : Text → Bool} (sha : Sha256) (now : ℕ) (id : Text) (s : State)
    → IsCounted skip s
    → IsCounted skip (expire_one sha now id s)
unfolding expire_one revert_local
expire_one-IsCounted sha now id s b = audit_expired-IsCounted sha now id _ _ (
    Balanced-update_where id (if_pending (expire_row now)) s.operations s.upstream
      (if_pending-KeepsId (expire_row now) (λ r. refl))
      (guarded-replays (expire_row now) (λ r. refl) (get_row id s.operations)) b)

pub expire_all-IsCounted :
    {skip : Text → Bool} (sha : Sha256) (now : ℕ) (rows : List Operation) (s : State)
    → IsCounted skip s
    → IsCounted skip (expire_all sha now rows s)
unfolding expire_all
expire_all-IsCounted sha now [] s b = b
expire_all-IsCounted sha now (r ∷ rows) s b =
    expire_all-IsCounted sha now rows (expire_one sha now r.id s)
      (expire_one-IsCounted sha now r.id s b)

claim-IsCounted :
    {skip : Text → Bool} (now : ℕ) (id : Text) (s : State)
    → IsCounted skip s
    → IsCounted skip (claim now id s).0
unfolding claim
claim-IsCounted now id s b =
    Balanced-update_where id (if_pending (approve_row now)) s.operations s.upstream
      (if_pending-KeepsId (approve_row now) (λ r. refl))
      (guarded-replays (approve_row now) (λ r. refl) (get_row id s.operations)) b

pending-row :
    (o : Option Operation)
    → row_is_pending o ≡ true
    → (r : Operation) × (o ≡ some r) × (is_pending r.status ≡ true)
pending-row none h = cc
pending-row (some r) h = (r, refl, h)

-- An operation that was claimed is there, and was never replayed.
claim-IsFresh :
    (now : ℕ) (id : Text) (s : State) → (claim now id s).1 ≡ true → IsFresh id (claim now id s).0
unfolding claim
claim-IsFresh now id s h =
    let (r, here, p) = pending-row (get_row id s.operations) h in
    record {
      row = approve_row now r;
      here = rw (
        get_row-update_where id id (if_pending (approve_row now)) s.operations
            (if_pending-KeepsId (approve_row now) (λ r. refl)),
        same_refl id,
        here,
        p,
      );
      never = refl;
    }

execute_claimed-IsCounted :
    (skip : Text → Bool) (sha : Sha256) (now : ℕ) (attempts : Text → Attempt) (r : Operation)
    (n : ℕ) (c : State × Bool)
    → Flagged skip r
    → (c.1 ≡ true → IsFresh r.id c.0)
    → IsCounted skip c.0
    → IsCounted skip (execute_claimed sha now attempts r n c).0
execute_claimed-IsCounted skip sha now attempts r n (s, true) kind fresh b =
    execute_operation-IsCounted sha now r.id (record r { status = approved }) (codes "auto_rule")
      (attempts r.id) s kind (fresh refl) b
execute_claimed-IsCounted skip sha now attempts r n (s, false) kind fresh b = b

execute_due_one-IsCounted :
    (skip : Text → Bool) (sha : Sha256) (now : ℕ) (attempts : Text → Attempt) (r : Operation)
    (acc : State × ℕ)
    → Flagged skip r
    → IsCounted skip acc.0
    → IsCounted skip (execute_due_one sha now attempts r acc).0
unfolding execute_due_one
execute_due_one-IsCounted skip sha now attempts r (s, n) kind b =
    execute_claimed-IsCounted skip sha now attempts r n (claim now r.id s) kind
      (claim-IsFresh now r.id s) (claim-IsCounted now r.id s b)

pub execute_due_all-IsCounted :
    (skip : Text → Bool) (sha : Sha256) (now : ℕ) (attempts : Text → Attempt)
    (rows : List Operation) (acc : State × ℕ)
    → All (Flagged skip) rows
    → IsCounted skip acc.0
    → IsCounted skip (execute_due_all sha now attempts rows acc).0
unfolding execute_due_all
execute_due_all-IsCounted skip sha now attempts [] acc g b = b
execute_due_all-IsCounted skip sha now attempts (r ∷ rows) acc g b =
    execute_due_all-IsCounted skip sha now attempts rows (execute_due_one sha now attempts r acc)
      g.1 (execute_due_one-IsCounted skip sha now attempts r acc g.0 b)
