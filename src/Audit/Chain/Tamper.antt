-- ===== src/Audit/Chain/Tamper.antt =====
-- gateway/audit.py: which changes of the table `verify_audit_chain` reports, and which it cannot.
use nuvrail.Prelude.{
  ◌≡◌, ◌≢◌, refl, sym, ap, ◌∙◌, true, false, List, [], ◌∷◌, ◌++◌, Option, none, some, length, All,
  arith, Bool-cases, inl, inr,
}
use nuvrail.Prelude.Text.{Text, same_iff}
use nuvrail.Audit.Record.{Row, Sha256, compute_entry_hash, payload, fields, shown}
use nuvrail.Audit.Record.Payload.{IsFree, payload-injective}
use nuvrail.Audit.Chain.{
  AuditError, hashed, last_hash, get_chain_head, walk, same_prev, verify_hashed, verify_audit_chain,
  no_errors,
}
use nuvrail.Audit.Chain.Append.{hashed-append}

same_prev-eq : (a b : Option Text) → same_prev a b ≡ true → a ≡ b
same_prev-eq none none h = refl
same_prev-eq (some s) (some t) h = ground (arith, same_iff s t)
same_prev-eq none (some t) h = cc
same_prev-eq (some s) none h = cc

-- What an error-free step of the loop has checked.
record Checked (sha : Sha256) (expected : Option Text) (r : Row) (h : Text) (rs : List (Row × Text))
    : Type 0 where
  prev : r.prev_hash ≡ expected
  own : compute_entry_hash sha r ≡ h
  rest : walk sha (some h) rs ≡ []

walk-Checked :
    (sha : Sha256) (expected : Option Text) (r : Row) (h : Text) (rs : List (Row × Text))
    → walk sha expected ((r, h) ∷ rs) ≡ []
    → Checked sha expected r h rs
unfolding walk
walk-Checked sha expected r h rs w = record {
  prev = same_prev-eq r.prev_hash expected (ground arith);
  own = (same_iff (compute_entry_hash sha r) h).0 (ground arith);
  rest = ground arith;
}

no_errors-eq : (es : List AuditError) → no_errors es ≡ true → es ≡ []
no_errors-eq [] h = refl
no_errors-eq (e ∷ es) h = cc

-- The walk behind a positive verdict, from whatever hash the first row names.
verify_hashed-walk :
    (sha : Sha256) (x : Row × Text) (xs : List (Row × Text))
    → (verify_hashed sha (x ∷ xs)).0 ≡ true
    → walk sha x.0.prev_hash (x ∷ xs) ≡ []
verify_hashed-walk sha (r, h) xs v = no_errors-eq (walk sha r.prev_hash ((r, h) ∷ xs)) v

walk-own :
    (sha : Sha256) (expected : Option Text) (xs : List (Row × Text)) (r : Row) (h : Text)
    (ys : List (Row × Text))
    → walk sha expected (xs ++ (r, h) ∷ ys) ≡ []
    → compute_entry_hash sha r ≡ h
walk-own sha expected [] r h ys w = (walk-Checked sha expected r h ys w).own
walk-own sha expected ((q, k) ∷ xs) r h ys w =
    walk-own sha (some k) xs r h ys (walk-Checked sha expected q k (xs ++ (r, h) ∷ ys) w).rest

verify_hashed-own :
    (sha : Sha256) (xs : List (Row × Text)) (r : Row) (h : Text) (ys : List (Row × Text))
    → (verify_hashed sha (xs ++ (r, h) ∷ ys)).0 ≡ true
    → compute_entry_hash sha r ≡ h
verify_hashed-own sha [] r h ys v =
    walk-own sha r.prev_hash [] r h ys (verify_hashed-walk sha (r, h) ys v)
verify_hashed-own sha ((q, k) ∷ xs) r h ys v =
    walk-own sha q.prev_hash ((q, k) ∷ xs) r h ys
      (verify_hashed-walk sha (q, k) (xs ++ (r, h) ∷ ys) v)

pub hashed-middle :
    (a : List Row) (r : Row) (h : Text) (b : List Row)
    → r.entry_hash ≡ some h
    → hashed (a ++ r ∷ b) ≡ hashed a ++ (r, h) ∷ hashed b
unfolding hashed
hashed-middle a r h b e = hashed-append a (r ∷ b) ∙ rw e

pub verify-own :
    (sha : Sha256) (a : List Row) (r : Row) (h : Text) (b : List Row)
    → r.entry_hash ≡ some h
    → (verify_audit_chain sha (a ++ r ∷ b)).0 ≡ true
    → compute_entry_hash sha r ≡ h
unfolding verify_audit_chain
verify-own sha a r h b e v =
    verify_hashed-own sha (hashed a) r h (hashed b) (rw (hashed-middle a r h b e) at v)

fields-compute :
    (sha : Sha256) (r s : Row)
    → IsFree r
    → IsFree s
    → compute_entry_hash sha r ≡ compute_entry_hash sha s
    → fields r ≡ fields s
unfolding compute_entry_hash
fields-compute sha r s fr fs e =
    payload-injective r s fr fs (sha.collision_free (payload r) (payload s) e)

-- A row whose covered fields are rewritten, its stored hash kept, makes the verification answer false,
-- wherever in a verified table it stands: where no covered field of the row, before or after the
-- rewriting, holds the separator of the payload.
pub verify-edited :
    (sha : Sha256) (a : List Row) (r s : Row) (h : Text) (b : List Row)
    → (verify_audit_chain sha (a ++ r ∷ b)).0 ≡ true
    → r.entry_hash ≡ some h
    → s.entry_hash ≡ some h
    → IsFree r
    → IsFree s
    → fields r ≢ fields s
    → (verify_audit_chain sha (a ++ s ∷ b)).0 ≡ false
verify-edited sha a r s h b v er es fr fs ne =
    elim (Bool-cases (verify_audit_chain sha (a ++ s ∷ b)).0) [
      | inr bad ↦ bad
      | inl ok ↦ absurd (
          ne (
            fields-compute sha r s fr fs
              (verify-own sha a r h b er v ∙ sym (verify-own sha a s h b es ok))))
    ]

-- Two histories agree in every covered field, row by row.
abbrev pub Agree : List (Row × Text) → List (Row × Text) → Type 0
Agree [] [] = Unit {0}
Agree ((r, h) ∷ xs) ((s, k) ∷ ys) = (fields r ≡ fields s) × (h ≡ k) × Agree xs ys
Agree [] (y ∷ ys) = ⊥
Agree (x ∷ xs) [] = ⊥

abbrev AllFree : List (Row × Text) → Type 0
AllFree xs = All (λ (x : Row × Text). IsFree x.0) xs

prev-fields : (r s : Row) → fields r ≡ fields s → shown r.prev_hash ≡ shown s.prev_hash
prev-fields r s e = ground arith

-- The last hash determines the rows before it, and the hash that the first row points at.
walk-Agree :
    (sha : Sha256) (e f : Option Text) (x y : Row × Text) (xs ys : List (Row × Text))
    → length xs ≡ length ys
    → walk sha e (x ∷ xs) ≡ []
    → walk sha f (y ∷ ys) ≡ []
    → AllFree (x ∷ xs)
    → AllFree (y ∷ ys)
    → last_hash (x ∷ xs) ≡ last_hash (y ∷ ys)
    → Agree (x ∷ xs) (y ∷ ys)
walk-Agree sha e f (r, h) (s, k) [] [] l wx wy fx fy last =
    let cx = walk-Checked sha e r h [] wx in
    let cy = walk-Checked sha f s k [] wy in
    let hk : h ≡ k = ground arith in
    (fields-compute sha r s fx.0 fy.0 (cx.own ∙ hk ∙ sym cy.own), hk, tt)
walk-Agree sha e f (r, h) (s, k) (x ∷ xs) [] l wx wy fx fy last = absurd (omega arith)
walk-Agree sha e f (r, h) (s, k) [] (y ∷ ys) l wx wy fx fy last = absurd (omega arith)
walk-Agree sha e f (r, h) (s, k) ((q, i) ∷ xs) ((p, j) ∷ ys) l wx wy fx fy last =
    let cx = walk-Checked sha e r h ((q, i) ∷ xs) wx in
    let cy = walk-Checked sha f s k ((p, j) ∷ ys) wy in
    let rest =
      walk-Agree sha (some h) (some k) (q, i) (p, j) xs ys (omega arith) cx.rest cy.rest fx.1 fy.1
        last in
    let hk : h ≡ k =
      ap shown (sym (walk-Checked sha (some h) q i xs cx.rest).prev)
      ∙ prev-fields q p rest.0
      ∙ ap shown (walk-Checked sha (some k) p j ys cy.rest).prev in
    (fields-compute sha r s fx.0 fy.0 (cx.own ∙ hk ∙ sym cy.own), hk, rest)

verify_hashed-Agree :
    (sha : Sha256) (xs ys : List (Row × Text))
    → length xs ≡ length ys
    → (verify_hashed sha xs).0 ≡ true
    → (verify_hashed sha ys).0 ≡ true
    → AllFree xs
    → AllFree ys
    → last_hash xs ≡ last_hash ys
    → Agree xs ys
verify_hashed-Agree sha [] [] l vx vy fx fy last = tt
verify_hashed-Agree sha [] (y ∷ ys) l vx vy fx fy last = absurd (omega arith)
verify_hashed-Agree sha (x ∷ xs) [] l vx vy fx fy last = absurd (omega arith)
verify_hashed-Agree sha (x ∷ xs) (y ∷ ys) l vx vy fx fy last =
    walk-Agree sha x.0.prev_hash y.0.prev_hash x y xs ys (omega arith)
      (verify_hashed-walk sha x xs vx) (verify_hashed-walk sha y ys vy) fx fy last

-- The chain head stands for the history: two tables that verify, with as many hashed rows and the
-- same head, have the same hashes and the same covered fields in every hashed row, where no covered
-- field of a hashed row of either table holds the separator of the payload.
pub get_chain_head-Agree :
    (sha : Sha256) (rows others : List Row)
    → length (hashed rows) ≡ length (hashed others)
    → (verify_audit_chain sha rows).0 ≡ true
    → (verify_audit_chain sha others).0 ≡ true
    → AllFree (hashed rows)
    → AllFree (hashed others)
    → get_chain_head rows ≡ get_chain_head others
    → Agree (hashed rows) (hashed others)
unfolding verify_audit_chain get_chain_head
get_chain_head-Agree sha rows others l vx vy fx fy head =
    verify_hashed-Agree sha (hashed rows) (hashed others) l vx vy fx fy head

walk-prefix :
    (sha : Sha256) (e : Option Text) (xs ys : List (Row × Text))
    → walk sha e (xs ++ ys) ≡ []
    → walk sha e xs ≡ []
unfolding walk
walk-prefix sha e [] ys w = refl
walk-prefix sha e ((r, h) ∷ xs) ys w = ground (arith, walk-prefix sha (some h) xs ys)

verify_hashed-prefix :
    (sha : Sha256) (xs ys : List (Row × Text))
    → (verify_hashed sha (xs ++ ys)).0 ≡ true
    → (verify_hashed sha xs).0 ≡ true
verify_hashed-prefix sha [] ys v = refl
verify_hashed-prefix sha ((r, h) ∷ xs) ys v =
    rw (walk-prefix sha r.prev_hash ((r, h) ∷ xs) ys (verify_hashed-walk sha (r, h) (xs ++ ys) v))

verify_hashed-tail :
    (sha : Sha256) (x : Row × Text) (xs : List (Row × Text))
    → (verify_hashed sha (x ∷ xs)).0 ≡ true
    → (verify_hashed sha xs).0 ≡ true
verify_hashed-tail sha x [] v = refl
verify_hashed-tail sha (r, h) ((q, k) ∷ xs) v =
    let c = walk-Checked sha r.prev_hash r h ((q, k) ∷ xs) (verify_hashed-walk sha (r, h) _ v) in
    let d = walk-Checked sha (some h) q k xs c.rest in
    ap no_errors (ap (λ e. walk sha e ((q, k) ∷ xs)) d.prev ∙ c.rest)

verify_hashed-suffix :
    (sha : Sha256) (xs ys : List (Row × Text))
    → (verify_hashed sha (xs ++ ys)).0 ≡ true
    → (verify_hashed sha ys).0 ≡ true
verify_hashed-suffix sha [] ys v = v
verify_hashed-suffix sha (x ∷ xs) ys v =
    verify_hashed-suffix sha xs ys (verify_hashed-tail sha x (xs ++ ys) v)

-- The walk cannot see rows cut off at either end: what is left of a verified table, from any row to
-- any later row, verifies.
pub verify-segment :
    (sha : Sha256) (a b c : List Row)
    → (verify_audit_chain sha (a ++ (b ++ c))).0 ≡ true
    → (verify_audit_chain sha b).0 ≡ true
unfolding verify_audit_chain
verify-segment sha a b c v = verify_hashed-prefix sha (hashed b) (hashed c) (
    rw (hashed-append b c) at
      (verify_hashed-suffix sha (hashed a) (hashed (b ++ c)) (rw (hashed-append a (b ++ c)) at v)))
