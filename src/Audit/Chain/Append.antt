-- ===== src/Audit/Chain/Append.antt =====
-- gateway/audit.py: what is inserted by `insert_audit_event` verifies.
use nuvrail.Prelude.{
  ℕ, ◌+◌, ◌<◌, ◌≡◌, refl, sym, ap, ◌∙◌, Bool, true, List, [], ◌∷◌, ◌++◌, Option, none, some, All,
  All-append, arith,
}
use nuvrail.Prelude.Text.{Text, same_refl}
use nuvrail.Audit.Record.{Row, Sha256, compute_entry_hash, payload}
use nuvrail.Audit.Chain.{
  Log, Event, hashed, last_hash, get_chain_head, set_entry_hash, prev_or_genesis, new_row,
  insert_audit_event, walk, same_prev, verify_hashed, verify_audit_chain, AuditError,
}

abbrev pub finished_row : Sha256 → Log → Event → Row
finished_row sha log e = record (new_row log e) {
  entry_hash = some (compute_entry_hash sha (new_row log e));
}

-- Ids are below the next one, as AUTOINCREMENT keeps them.
abbrev pub IdsBelow : ℕ → List Row → Type 0
IdsBelow n rows = All (λ r. r.id < n) rows

set_entry_hash-append :
    (id : ℕ) (h : Text) (rows : List Row) (r : Row)
    → IdsBelow id rows
    → r.id ≡ id
    → set_entry_hash id h (rows ++ r ∷ []) ≡ rows ++ record r { entry_hash = some h } ∷ []
unfolding set_entry_hash
set_entry_hash-append id h [] r b e = ground arith
set_entry_hash-append id h (q ∷ rows) r b e =
    ground (arith, set_entry_hash-append id h rows r b.1 e)

-- An insertion appends one row and changes no other.
pub rows-insert_audit_event :
    (sha : Sha256) (log : Log) (e : Event)
    → IdsBelow log.next_id log.rows
    → (insert_audit_event sha log e).rows ≡ log.rows ++ finished_row sha log e ∷ []
unfolding insert_audit_event
rows-insert_audit_event sha log e b =
    set_entry_hash-append log.next_id (compute_entry_hash sha (new_row log e)) log.rows
      (new_row log e) b refl

pub hashed-append : (xs ys : List Row) → hashed (xs ++ ys) ≡ hashed xs ++ hashed ys
unfolding hashed
hashed-append [] ys = refl
hashed-append (x ∷ xs) ys = ground (arith, hashed-append xs ys)

compute-finished_row :
    (sha : Sha256) (log : Log) (e : Event)
    → compute_entry_hash sha (finished_row sha log e) ≡ compute_entry_hash sha (new_row log e)
unfolding compute_entry_hash payload
compute-finished_row sha log e = refl

same_prev_refl : (o : Option Text) → same_prev o o ≡ true
same_prev_refl none = refl
same_prev_refl (some t) = same_refl t

abbrev last_or : Option Text → List (Row × Text) → Option Text
last_or expected [] = expected
last_or expected ((r, h) ∷ rs) = last_or (some h) rs

-- A row that points at the last hash and carries its own adds no error.
walk-append_one :
    (sha : Sha256) (expected : Option Text) (xs : List (Row × Text)) (r : Row)
    → walk sha expected xs ≡ []
    → r.prev_hash ≡ last_or expected xs
    → walk sha expected (xs ++ (r, compute_entry_hash sha r) ∷ []) ≡ []
unfolding walk
walk-append_one sha expected [] r w p =
    ground (arith, same_prev_refl expected, same_refl (compute_entry_hash sha r))
walk-append_one sha expected ((q, h) ∷ xs) r w p = ground (arith, walk-append_one sha (some h) xs r)

last_or-last_hash :
    (expected : Option Text) (x : Row × Text) (xs : List (Row × Text))
    → last_or expected (x ∷ xs) ≡ some (prev_or_genesis (last_hash (x ∷ xs)))
last_or-last_hash expected (r, h) [] = refl
last_or-last_hash expected (r, h) (y ∷ ys) = last_or-last_hash (some h) y ys

verify_hashed-append_one :
    (sha : Sha256) (xs : List (Row × Text)) (r : Row)
    → verify_hashed sha xs ≡ (true, [])
    → r.prev_hash ≡ some (prev_or_genesis (last_hash xs))
    → verify_hashed sha (xs ++ (r, compute_entry_hash sha r) ∷ []) ≡ (true, [])
verify_hashed-append_one sha [] r v p =
    rw (walk-append_one sha r.prev_hash [] r (unfold walk in refl) refl)
verify_hashed-append_one sha ((q, h) ∷ xs) r v p = rw (
    walk-append_one sha q.prev_hash ((q, h) ∷ xs) r (ap (λ (v : Bool × List AuditError). v.1) v)
      (p ∙ sym (last_or-last_hash q.prev_hash (q, h) xs)))

pub record IsChained (sha : Sha256) (log : Log) : Type 0 where
  pub ids : IdsBelow log.next_id log.rows
  pub verified : verify_audit_chain sha log.rows ≡ (true, [])

IdsBelow-suc : (n : ℕ) (rows : List Row) → IdsBelow n rows → IdsBelow (n + 1) rows
IdsBelow-suc n [] b = tt
IdsBelow-suc n (r ∷ rows) b = (omega arith, IdsBelow-suc n rows b.1)

insert_audit_event-verified :
    (sha : Sha256) (log : Log) (e : Event)
    → IsChained sha log
    → verify_audit_chain sha (log.rows ++ finished_row sha log e ∷ []) ≡ (true, [])
unfolding verify_audit_chain get_chain_head
insert_audit_event-verified sha log e c =
    rw (hashed-append log.rows (finished_row sha log e ∷ []), ← compute-finished_row sha log e)
      (verify_hashed-append_one sha (hashed log.rows) (finished_row sha log e) c.verified refl)

-- One insertion keeps the chain verified, and adds one row behind rows that it does not change.
pub insert_audit_event-IsChained :
    (sha : Sha256) (log : Log) (e : Event)
    → IsChained sha log
    → IsChained sha (insert_audit_event sha log e)
insert_audit_event-IsChained sha log e c = record {
  ids = rw (rows-insert_audit_event sha log e c.ids) (
      unfold insert_audit_event in
      All-append _ log.rows (finished_row sha log e ∷ []) (IdsBelow-suc log.next_id log.rows c.ids)
        (omega arith, tt));
  verified = rw (rows-insert_audit_event sha log e c.ids) (insert_audit_event-verified sha log e c);
}

abbrev pub insert_all : Sha256 → Log → List Event → Log
insert_all sha log [] = log
insert_all sha log (e ∷ es) = insert_all sha (insert_audit_event sha log e) es

-- From a log that verifies, whatever events are recorded, the log verifies with no error.
pub verify-insert_all :
    (sha : Sha256) (log : Log) (es : List Event)
    → IsChained sha log
    → verify_audit_chain sha (insert_all sha log es).rows ≡ (true, [])
verify-insert_all sha log [] c = c.verified
verify-insert_all sha log (e ∷ es) c =
    verify-insert_all sha (insert_audit_event sha log e) es
      (insert_audit_event-IsChained sha log e c)

hashed-legacy : (rows : List Row) → All (λ r. r.entry_hash ≡ none) rows → hashed rows ≡ []
unfolding hashed
hashed-legacy [] h = refl
hashed-legacy (r ∷ rows) h = rw h.0 (hashed-legacy rows h.1)

-- Rows from before hash chaining are skipped: a log that holds only such rows verifies.
pub legacy-IsChained :
    (sha : Sha256) (log : Log)
    → IdsBelow log.next_id log.rows
    → All (λ r. r.entry_hash ≡ none) log.rows
    → IsChained sha log
unfolding verify_audit_chain
legacy-IsChained sha log b h = record { ids = b; verified = rw (hashed-legacy log.rows h) }
