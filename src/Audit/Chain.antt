-- ===== src/Audit/Chain.antt =====
-- gateway/audit.py: inserting a chained row, and walking the chain.
-- The table is the list of its rows in the order of their ids, with the id that AUTOINCREMENT gives
-- next. The lock around an insertion makes it one step.
pub mod Append
pub mod Tamper
use nuvrail.Prelude.{
  ℕ, ◌+◌, Bool, true, false, ◌&&◌, List, [], ◌∷◌, ◌++◌, Option, none, some, ◌==◌, if◌then◌else◌,
}
use nuvrail.Prelude.Text.{Text, same}
use nuvrail.Audit.Record.{Row, Sha256, compute_entry_hash}

pub record Log : Type 0 where
  pub rows : List Row
  pub next_id : ℕ

-- The keyword arguments of `insert_audit_event`.
pub record Event : Type 0 where
  pub timestamp : ℕ
  pub event : Text
  pub actor : Option Text
  pub operation_id : Option Text
  pub agent_id : Option Text
  pub op_type : Option Text
  pub detail : Option Text
  pub user_id : Option ℕ
  pub intent_label : Option Text

abbrev pub genesis_hash : Text
genesis_hash =
    let z8 = λ (t : Text). b'0' ∷ b'0' ∷ b'0' ∷ b'0' ∷ b'0' ∷ b'0' ∷ b'0' ∷ b'0' ∷ t in
    z8 (z8 (z8 (z8 (z8 (z8 (z8 (z8 [])))))))

-- WHERE entry_hash IS NOT NULL ORDER BY id ASC, each row with its hash
abbrev pub with_hash : Row → Option Text → List (Row × Text) → List (Row × Text)
with_hash r none rest = rest
with_hash r (some h) rest = (r, h) ∷ rest

unfoldable pub hashed : List Row → List (Row × Text)
hashed [] = []
hashed (r ∷ rs) = with_hash r r.entry_hash (hashed rs)

-- … ORDER BY id DESC LIMIT 1
abbrev pub last_hash : List (Row × Text) → Option Text
last_hash [] = none
last_hash ((r, h) ∷ []) = some h
last_hash ((r, h) ∷ s ∷ rs) = last_hash (s ∷ rs)

unfoldable pub get_chain_head : List Row → Option Text
unfolding hashed
get_chain_head rows = last_hash (hashed rows)

-- UPDATE audit_log SET entry_hash = ? WHERE id = ?
unfoldable pub set_entry_hash : ℕ → Text → List Row → List Row
set_entry_hash id h [] = []
set_entry_hash id h (r ∷ rs) =
    (if r.id == id then record r { entry_hash = some h } else r) ∷ set_entry_hash id h rs

abbrev pub prev_or_genesis : Option Text → Text
prev_or_genesis none = genesis_hash
prev_or_genesis (some h) = h

-- The row of the INSERT, its hash still NULL.
abbrev pub new_row : Log → Event → Row
new_row log e = record {
  id = log.next_id;
  timestamp = e.timestamp;
  operation_id = e.operation_id;
  event = e.event;
  actor = e.actor;
  agent_id = e.agent_id;
  op_type = e.op_type;
  detail = e.detail;
  user_id = e.user_id;
  intent_label = e.intent_label;
  prev_hash = some (prev_or_genesis (get_chain_head log.rows));
  entry_hash = none;
}

unfoldable pub insert_audit_event : Sha256 → Log → Event → Log
unfolding set_entry_hash get_chain_head compute_entry_hash
insert_audit_event sha log e =
    let row = new_row log e in
    record {
      rows = set_entry_hash row.id (compute_entry_hash sha row) (log.rows ++ row ∷ []);
      next_id = log.next_id + 1;
    }

-- The two messages, with the row that they name.
pub data AuditError : Type 0 where
  prev_mismatch hash_mismatch : ℕ → AuditError

-- row["prev_hash"] != expected_prev, negated
abbrev pub same_prev : Option Text → Option Text → Bool
same_prev none none = true
same_prev (some a) (some b) = same a b
same_prev none (some b) = false
same_prev (some a) none = false

-- The loop. After either error it goes on from the stored hash.
unfoldable pub walk : Sha256 → Option Text → List (Row × Text) → List AuditError
unfolding same compute_entry_hash
walk sha expected [] = []
walk sha expected ((r, h) ∷ rs) =
    let rest = walk sha (some h) rs in
    if same_prev r.prev_hash expected
    then if same (compute_entry_hash sha r) h then rest else hash_mismatch r.id ∷ rest
    else prev_mismatch r.id ∷ rest

abbrev pub no_errors : List AuditError → Bool
no_errors [] = true
no_errors (e ∷ es) = false

abbrev pub verdict : List AuditError → Bool × List AuditError
verdict errors = (no_errors errors, errors)

-- The first row's `prev_hash` is taken as it is.
abbrev pub verify_hashed : Sha256 → List (Row × Text) → Bool × List AuditError
verify_hashed sha [] = (true, [])
verify_hashed sha ((r, h) ∷ rs) = verdict (walk sha r.prev_hash ((r, h) ∷ rs))

unfoldable pub verify_audit_chain : Sha256 → List Row → Bool × List AuditError
unfolding walk hashed
verify_audit_chain sha rows = verify_hashed sha (hashed rows)
