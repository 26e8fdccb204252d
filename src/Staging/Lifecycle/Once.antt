-- ===== src/Staging/Lifecycle/Once.antt =====
-- No run of commands replays an operation twice.
use nuvrail.Prelude.{ℕ, All, ◌≡◌, refl, Bool, List, [], ◌∷◌, Option, none, some, inr}
use nuvrail.Prelude.Text.{Text, same_refl}
use nuvrail.Audit.Record.{Sha256}
use nuvrail.Staging.Store.{Status, executed, Operation, Request, State, set_status, get_row}
use nuvrail.Staging.Execute.{Attempt}
use nuvrail.Staging.Create.{Provider, create_operation, staged_row, with_urgency, with_schedule}
use nuvrail.Staging.Decide.{Owner, get_operation, approve_op, reject_op, undo_op}
use nuvrail.Staging.Loops.{
  expire_stale_operations, find_expired_pending, execute_due_scheduled, find_due_scheduled,
}
use nuvrail.Staging.Lifecycle.{
  Command, create, approve, reject, undo, expire, run_due, run, run_all,
}
use nuvrail.Staging.Lifecycle.Balance.{is_skipped, Flagged, IsBalanced}
use nuvrail.Staging.Lifecycle.Requests.{
  if_decidable-IsCounted, undo_row-IsCounted, get_row-visible, do_approve-IsCounted,
  do_reject-IsCounted,
}
use nuvrail.Staging.Lifecycle.Creation.{
  get_row-Flagged, with_new, with_new-IsCounted, with_new-Flagged, create_with-IsCounted,
}
use nuvrail.Staging.Lifecycle.Due.{find_due_scheduled-All}
use nuvrail.Staging.Lifecycle.Columns.{IsStable}
use nuvrail.Staging.Lifecycle.Commands.{Creates, run-All}
use nuvrail.Staging.Lifecycle.Ticks.{expire_all-IsCounted, execute_due_all-IsCounted}

flag-set_status :
    (skip : Text → Bool) (now : ℕ) (status : Status) (by : Text) (e : Option Text) (r : Operation)
    → Flagged skip r
    → Flagged skip (set_status now status by e r)
flag-set_status skip now executed by e r h = h
flag-set_status skip now _ by e r h = h

Flagged-IsStable : (skip : Text → Bool) → IsStable (Flagged skip)
Flagged-IsStable skip = record {
  at_set_status = flag-set_status skip;
  at_clear = λ r h. h;
  at_expire = λ now r h. h;
  at_approve = λ now r h. h;
}

flag-schedule :
    (skip : Text → Bool) (at : Option ℕ) (urgent : Option Bool) (r : Operation)
    → Flagged skip r
    → Flagged skip (with_urgency urgent (with_schedule at r))
flag-schedule skip none none r h = h
flag-schedule skip none (some u) r h = h
flag-schedule skip (some t) none r h = h
flag-schedule skip (some t) (some u) r h = h

module _ (sha : Sha256) (provider : Provider) (owner : Owner) where
  flags-kept :
      (skip : Text → Bool) (c : Command) (s : State)
      → Creates (Flagged skip) c
      → All (Flagged skip) s.operations
      → All (Flagged skip) (run sha provider owner c s).operations
  flags-kept skip c s new g =
      run-All (Flagged-IsStable skip) sha provider owner c s
        (inr (record { at_schedule = flag-schedule skip })) new g

  created-IsBalanced :
      (now : ℕ) (id : Text) (r : Request) (a : Attempt) (s : State) (o : Option Operation)
      → get_row id s.operations ≡ o
      → IsBalanced s
      → IsBalanced (run sha provider owner (create now id r a) s)
  unfolding run create_operation staged_row
  created-IsBalanced now id r a s none free b =
      let skip = with_new id (is_skipped r) b.skip in
      let new : Flagged skip (staged_row now id r) = rw (same_refl id) refl in
      let g = with_new-Flagged b.skip id (is_skipped r) s.operations free b.flagged in
      let c = with_new-IsCounted {skip = b.skip} id (is_skipped r) s free b.counted in
      record {
        skip = skip;
        flagged = flags-kept skip (create now id r a) s new g;
        counted = rw free (
            create_with-IsCounted {skip = skip} sha provider now a (staged_row now id r) s free refl
              new g c);
      }
  created-IsBalanced now id r a s (some taken) here b = rw here b

  run-IsBalanced :
      (c : Command) (s : State) → IsBalanced s → IsBalanced (run sha provider owner c s)
  unfolding run approve_op reject_op undo_op expire_stale_operations execute_due_scheduled
  run-IsBalanced (create now id r a) s b =
      created-IsBalanced now id r a s (get_row id s.operations) refl b
  run-IsBalanced (approve user now id a) s b = record {
    skip = b.skip;
    flagged = flags-kept b.skip (approve user now id a) s tt b.flagged;
    counted =
        if_decidable-IsCounted id (get_operation owner user id s.operations) _ s
          (λ row e. get_row-visible owner user id s.operations e)
          (λ row e f.
            do_approve-IsCounted sha now id row a s
              (get_row-Flagged b.skip id s.operations b.flagged
                (get_row-visible owner user id s.operations e))
              f b.counted)
          b.counted;
  }
  run-IsBalanced (reject user now id) s b = record {
    skip = b.skip;
    flagged = flags-kept b.skip (reject user now id) s tt b.flagged;
    counted =
        if_decidable-IsCounted id (get_operation owner user id s.operations) _ s
          (λ row e. get_row-visible owner user id s.operations e)
          (λ row e f. do_reject-IsCounted sha now id row s f b.counted) b.counted;
  }
  run-IsBalanced (undo user now id attempt) s b = record {
    skip = b.skip;
    flagged = flags-kept b.skip (undo user now id attempt) s tt b.flagged;
    counted =
        undo_row-IsCounted sha now id attempt (get_operation owner user id s.operations) s
          (λ row e. get_row-visible owner user id s.operations e) b.counted;
  }
  run-IsBalanced (expire now) s b = record {
    skip = b.skip;
    flagged = flags-kept b.skip (expire now) s tt b.flagged;
    counted = expire_all-IsCounted sha now (find_expired_pending now s.operations) s b.counted;
  }
  run-IsBalanced (run_due now attempts) s b = record {
    skip = b.skip;
    flagged = flags-kept b.skip (run_due now attempts) s tt b.flagged;
    counted =
        execute_due_all-IsCounted b.skip sha now attempts (find_due_scheduled now s.operations)
          (s, 0) (find_due_scheduled-All (Flagged b.skip) now s.operations b.flagged) b.counted;
  }

  -- Whatever requests and loop runs follow one another, each to its end, and whatever the mail
  -- server answers: an APPEND over IMAP for which no message was stored is never replayed, even where its
  -- status is 'executed'; any other operation has been replayed exactly once if its status is
  -- 'executed' or 'reverted', and never if it has another status or does not exist.
  pub run_all-IsBalanced :
      (cs : List Command) (s : State) → IsBalanced s → IsBalanced (run_all sha provider owner cs s)
  unfolding run_all
  run_all-IsBalanced [] s b = b
  run_all-IsBalanced (c ∷ cs) s b =
      run_all-IsBalanced cs (run sha provider owner c s) (run-IsBalanced c s b)
