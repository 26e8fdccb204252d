-- ===== src/Staging/Examples.antt =====
-- Two staged operations: a move, and a send to two recipients.
use nuvrail.Prelude.{
  ℕ, zero, suc, ◌+◌, ◌-◌, ◌*◌, ◌==◌, ◌≡◌, refl, true, false, List, [], ◌∷◌, Option, none, some,
  if◌then◌else◌,
}
use nuvrail.SendRate.{RecipientCount, SendRateConfig}
use nuvrail.Prelude.Text.{Text, Unicode, codes, same, one_of, digit}
use nuvrail.Audit.Examples.{shifted}
use nuvrail.Staging.Store.{
  executed, Request, Operation, get_row, update_where, update_operation_status, audit,
  audit_columns,
}
use nuvrail.Staging.Execute.{Attempt, done, execute_operation, replay, mark_executed}
use nuvrail.Staging.Create.{
  create_operation, staged_row, stage_row, apply_auto_rule_decision, run_auto_decision,
}
use nuvrail.Staging.Decide.{
  Owner, get_operation, if_decidable, do_approve, approve_op, undo_gate, UndoAttempt, undone,
}
use nuvrail.Staging.Destination.{load_move_destination, executed_row, is_uid_set, scan_uid_set}
use nuvrail.Mailbox.{pos}
use nuvrail.Audit.Chain.{insert_audit_event, set_entry_hash}
use nuvrail.Staging.Lifecycle.{
  Command, create, approve, reject, expire, run_due, run, run_all, empty,
}
use nuvrail.Staging.Lifecycle.Balance.{IsBalanced}
use nuvrail.Staging.Lifecycle.Once.{run_all-IsBalanced}
use nuvrail.Staging.Lifecycle.Approval.{
  IsReversible, is_recorded, upstream-run_all, undo_gate-run_all,
}

abbrev pub move_request : Request
move_request = record {
  op_type = codes "move";
  protocol = codes "imap";
  description = codes "Archive 1 message";
  agent_id = some 3;
  imap_command = some (codes "a1 UID MOVE 42 Archive");
  smtp_envelope = none;
  message_ids = some (codes "42" ∷ []);
  folder_from = some (codes "INBOX");
  folder_to = some (codes "Archive");
  flags_add = none;
  flags_remove = none;
  snapshot = none;
  is_urgent = none;
  batch_id = none;
  append_message = none;
  intent_label = some (codes "archive");
  intent_confidence = some 80;
}

abbrev pub send_request : Request
send_request = record move_request {
  op_type = codes "smtp_send";
  protocol = codes "smtp";
  smtp_envelope = some (record {
    sender = codes "ann";
    recipients = codes "bob" ∷ codes "cy" ∷ [];
    subject = codes "hi";
    body = [];
  });
}

abbrev ascii : Unicode
ascii = record {
  upper_wide = λ c. c ∷ [];
  lower_wide = λ c. c ∷ [];
  digit_wide = λ c. none;
  decode_wide = λ bytes. bytes;
  encode_wide = λ c. c ∷ [];
}

abbrev user_seven : Owner
user_seven agent = some 7

-- The digits behind `{"recipient_count": `.
abbrev pub digits_of : ℕ → Text → Option ℕ
digits_of acc [] = none
digits_of acc (c ∷ s) = if c == b'}' then some acc else digits_of (acc * 10 + (c - 48)) s

abbrev pub behind : ℕ → Text → Text
behind zero s = s
behind (suc n) [] = []
behind (suc n) (c ∷ s) = behind n s

abbrev pub count_in : RecipientCount
count_in detail = digits_of 0 (behind 20 detail)

abbrev pub three_an_hour : SendRateConfig
three_an_hour = record {
  max_per_window = 3;
  window_seconds = 3600;
  account_max_per_window = 300;
  account_max_per_day = 1000;
}

abbrev pub goes_well : Attempt
goes_well = record {
  credential = some (record { is_oauth2 = true; upstream_password = none });
  test_smtp_host = [];
  recipient_count = count_in;
  owner = λ agent. some 7;
  config = three_an_hour;
  is_readable = true;
  report = λ v. (codes "limit", codes "{}");
  upstream = done (some (codes "{}")) false;
}

abbrev op_a : Text
op_a = codes "op_a"

abbrev unapproved : List Command
unapproved =
    create 100 op_a move_request goes_well
    ∷ run_due 200 (λ id. goes_well)
    ∷ reject 7 300 op_a
    ∷ expire 999999
    ∷ []

upstream-run_all_example : (run_all shifted none user_seven unapproved empty).upstream ≡ []
upstream-run_all_example =
    upstream-run_all shifted user_seven unapproved empty (refl, (refl, (refl, (refl, tt)))) tt

abbrev approved_move : List Command
approved_move = create 100 op_a move_request goes_well ∷ approve 7 200 op_a goes_well ∷ []

empty-IsBalanced : IsBalanced empty
unfolding get_row
empty-IsBalanced = record {
  skip = λ k. false;
  flagged = tt;
  counted = record { times_of = λ k. refl };
}

-- An APPEND whose message was over the cap, so that none is stored.
abbrev bodyless_request : Request
bodyless_request = record move_request {
  op_type = codes "append";
  folder_from = none;
  folder_to = some (codes "Drafts");
}

abbrev approved_both : List Command
approved_both =
    create 100 op_a move_request goes_well
    ∷ create 110 (codes "op_c") bodyless_request goes_well
    ∷ approve 7 200 op_a goes_well
    ∷ approve 7 210 (codes "op_c") goes_well
    ∷ []

run_all-IsBalanced_example : IsBalanced (run_all shifted none user_seven approved_both empty)
run_all-IsBalanced_example =
    run_all-IsBalanced shifted none user_seven approved_both empty empty-IsBalanced

-- Only the move was replayed.
approved_both-upstream : (run_all shifted none user_seven approved_both empty).upstream ≡ op_a ∷ []
unfolding same get_row update_where update_operation_status audit audit_columns execute_operation
    replay mark_executed create_operation staged_row stage_row apply_auto_rule_decision
    run_auto_decision get_operation if_decidable do_approve approve_op run run_all
approved_both-upstream = refl

abbrev moved : Operation
moved = record (staged_row 100 op_a move_request) {
  status = executed;
  decided_at = some 200;
  decided_by = some (codes "human");
  executed_at = some 200;
}

moved-here :
    get_row op_a (run_all shifted none user_seven approved_move empty).operations ≡ some moved
unfolding same get_row update_where update_operation_status audit audit_columns execute_operation
    replay mark_executed create_operation staged_row stage_row apply_auto_rule_decision
    run_auto_decision get_operation if_decidable do_approve approve_op run run_all
moved-here = refl

-- The server has named the UID of the moved message.
abbrev moves_back : UndoAttempt
moves_back = record {
  uni = ascii;
  loads = λ detail.
      some (record { dest_uids = some (codes "7,9:11"); dest_uidvalidity = some (pos 1) });
  inverse = undone [];
}

moved-reversible :
    IsReversible moves_back moved (run_all shifted none user_seven approved_move empty).log.rows
unfolding same get_row update_where update_operation_status audit audit_columns execute_operation
    replay mark_executed create_operation staged_row stage_row apply_auto_rule_decision
    run_auto_decision get_operation if_decidable do_approve approve_op run run_all
    load_move_destination executed_row is_uid_set scan_uid_set digit insert_audit_event
    set_entry_hash
moved-reversible = is_recorded b'A' (codes "rchive") (codes "7,9:11", pos 1) refl refl

undo_gate-run_all_example :
    undo_gate moves_back 900000 moved (run_all shifted none user_seven approved_move empty).log.rows
    ≡ none
undo_gate-run_all_example =
    undo_gate-run_all shifted none user_seven approved_move op_a 900000 moves_back moved-here refl
      (unfold one_of same staged_row in refl) moved-reversible
