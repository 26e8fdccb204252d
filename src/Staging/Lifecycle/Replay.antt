-- ===== src/Staging/Lifecycle/Replay.antt =====
-- The executor of gateway/execution.py keeps the balance of `Balance`.
use nuvrail.Prelude.{
  ℕ, ◌≡◌, refl, sym, Bool, true, false, [], ◌∷◌, ◌++◌, Option, none, some, arith, Bool-cases, inl,
  inr,
}
use nuvrail.Prelude.Text.{Text, codes, same, same_refl}
use nuvrail.Audit.Record.{Sha256}
use nuvrail.Staging.Store.{
  executed, failed, Operation, State, get_row, update_where, set_status, update_operation_status,
  audit,
}
use nuvrail.Staging.Store.Rows.{mapped, get_row-update_where}
use nuvrail.Staging.Execute.{
  Attempt, Upstream, done, broken, execute_operation, send_checked, send_limited, replay, is_blank,
  is_bodyless, mark_executed, record_execution_failure, clear_folder_to, send_rate, preflight,
}
use nuvrail.Staging.Lifecycle.Balance.{
  replays, has_no_body, is_skipped, Balanced, IsCounted, Balanced-update_where, Balanced-executed,
  Balanced-skipped, id-set_status, IsFresh, replays-IsFresh,
}
use nuvrail.SendRate.{Verdict, allowed, unreadable, exceeded}

has_no_body-is_blank : (o : Option Text) → has_no_body o ≡ is_blank o
has_no_body-is_blank none = refl
has_no_body-is_blank (some []) = refl
has_no_body-is_blank (some (c ∷ s)) = refl

clear_folder_to-IsFresh : (id : Text) (s : State) → IsFresh id s → IsFresh id (clear_folder_to id s)
unfolding clear_folder_to
clear_folder_to-IsFresh id s f = record {
  row = record f.row { request = record f.row.request { folder_to = none } };
  here = rw (
    get_row-update_where id id (λ r. record r { request = record r.request { folder_to = none } })
        s.operations (λ r. refl),
    same_refl id,
    f.here,
  );
  never = f.never;
}

module _ {skip : Text → Bool} (sha : Sha256) (now : ℕ) (id : Text) (row : Operation) where
  failed-IsCounted :
      (message : Option Text) (s : State)
      → IsFresh id s
      → IsCounted skip s
      → Balanced skip
          (update_where id (set_status now failed (codes "human") message) s.operations)
          s.upstream
  failed-IsCounted message s f b =
      Balanced-update_where id _ s.operations s.upstream
        (id-set_status now failed (codes "human") message) (rw f.here (sym f.never)) b

  record_execution_failure-IsCounted :
      (message detail : Text) (s : State)
      → IsFresh id s
      → IsCounted skip s
      → IsCounted skip (record_execution_failure sha now id row message detail s)
  unfolding record_execution_failure update_operation_status audit
  record_execution_failure-IsCounted message detail s f b = failed-IsCounted (some message) s f b

  mark_executed-IsCounted :
      (actor : Text) (detail : Option Text) (s : State)
      → skip id ≡ false
      → IsFresh id s
      → IsCounted skip s
      → IsCounted skip
          (mark_executed sha now id row actor detail
            (record s { upstream = s.upstream ++ id ∷ [] })).0
  unfolding mark_executed update_operation_status audit
  mark_executed-IsCounted actor detail s n f b =
      Balanced-executed id _ s.operations s.upstream
        (id-set_status now executed (codes "human") none) n (replays-IsFresh f) (rw f.here) b

  skipped-IsCounted :
      (actor : Text) (detail : Option Text) (s : State)
      → skip id ≡ true
      → IsCounted skip s
      → IsCounted skip (mark_executed sha now id row actor detail s).0
  unfolding mark_executed update_operation_status audit
  skipped-IsCounted actor detail s y b =
      Balanced-skipped id _ s.operations s.upstream
        (id-set_status now executed (codes "human") none) y b

  clear_folder_to-IsCounted : (s : State) → IsCounted skip s → IsCounted skip (clear_folder_to id s)
  unfolding clear_folder_to
  clear_folder_to-IsCounted s b =
      Balanced-update_where id _ s.operations s.upstream (λ r. refl)
        (cleared (get_row id s.operations)) b
    where
      cleared :
          (o : Option Operation)
          → replays (mapped (λ r. record r { request = record r.request { folder_to = none } }) o)
            ≡ replays o
      cleared none = refl
      cleared (some r) = refl

  replay-IsCounted :
      (actor : Text) (smtp : Bool) (up : Upstream) (s : State)
      → skip id ≡ false
      → IsFresh id s
      → IsCounted skip s
      → IsCounted skip (replay sha now id row actor smtp up s).0
  unfolding replay
  replay-IsCounted actor smtp (broken message detail) s n f b =
      record_execution_failure-IsCounted message detail s f b
  replay-IsCounted actor true (done detail cleared) s n f b =
      mark_executed-IsCounted actor _ s n f b
  replay-IsCounted actor false (done detail true) s n f b =
      mark_executed-IsCounted actor detail (clear_folder_to id s) n (clear_folder_to-IsFresh id s f)
        (clear_folder_to-IsCounted s b)
  replay-IsCounted actor false (done detail false) s n f b =
      mark_executed-IsCounted actor detail s n f b

  send_limited-IsCounted :
      (actor : Text) (report : Verdict → Text × Text) (v : Verdict) (up : Upstream) (s : State)
      → skip id ≡ false
      → IsFresh id s
      → IsCounted skip s
      → IsCounted skip (send_limited sha now id row actor report v up s).0
  unfolding send_limited update_operation_status audit
  send_limited-IsCounted actor report allowed up s n f b = replay-IsCounted actor true up s n f b
  send_limited-IsCounted actor report unreadable up s n f b = b
  send_limited-IsCounted actor report (exceeded scope used requested cap window) up s n f b =
      failed-IsCounted (some (report (exceeded scope used requested cap window)).0) s f b

  send_checked-IsCounted :
      (actor : Text) (a : Attempt) (o : Option Text) (s : State)
      → skip id ≡ false
      → IsFresh id s
      → IsCounted skip s
      → IsCounted skip (send_checked sha now id row actor a o s).0
  unfolding send_checked
  send_checked-IsCounted actor a (some message) s n f b = b
  send_checked-IsCounted actor a none s n f b =
      send_limited-IsCounted actor a.report (send_rate now row a s) a.upstream s n f b

  -- The executor keeps the balance, whatever the outside answers, on an operation that was never
  -- replayed.
  pub execute_operation-IsCounted :
      (actor : Text) (a : Attempt) (s : State)
      → skip id ≡ is_skipped row.request
      → IsFresh id s
      → IsCounted skip s
      → IsCounted skip (execute_operation sha now id row actor a s).0
  unfolding execute_operation
  execute_operation-IsCounted actor a s kind f b =
      let same_body = has_no_body-is_blank row.request.append_message in
      elim (Bool-cases (same row.request.protocol (codes "smtp"))) [
        | inl e ↦ rw e (send_checked-IsCounted actor a (preflight id row a) s (ground arith) f b)
        | inr e ↦ elim (Bool-cases (is_bodyless row)) [
          | inl y ↦ rw (e, y) (skipped-IsCounted actor none s (ground (arith, same_body)) b)
          | inr n ↦
              rw (e, n) (replay-IsCounted actor false a.upstream s (ground (arith, same_body)) f b)
        ]
      ]
