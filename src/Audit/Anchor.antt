-- ===== src/Audit/Anchor.antt =====
-- gateway/audit.py: anchoring the chain head in an append-only sink outside the database.
-- The sink is the list of its lines: an anchor, or `none` for a line that is blank or is no record.
-- No sink at all stands for anchoring that is disabled, or a file that is not there yet.
use nuvrail.Prelude.{
  ℕ, ◌<◌, ◌≡◌, refl, sym, ◌∙◌, Bool, true, false, ◌||◌, List, [], ◌∷◌, ◌++◌, Option, none, some,
  length, All, if◌then◌else◌, arith, Bool-cases, Option-cases, inl, inr, append_assoc,
}
use nuvrail.Prelude.Text.{Text, same, same_iff}
use nuvrail.Audit.Record.{Row, Sha256, compute_entry_hash, payload, shown, is_free}
use nuvrail.Audit.Record.Payload.{id-payload}
use nuvrail.Audit.Chain.{
  Log, Event, hashed, last_hash, get_chain_head, insert_audit_event, verify_audit_chain,
}
use nuvrail.Audit.Chain.Append.{
  IsChained, IdsBelow, insert_all, insert_audit_event-IsChained, rows-insert_audit_event,
  finished_row,
}
use nuvrail.Audit.Chain.Tamper.{hashed-middle, verify-own}

pub record Anchor : Type 0 where
  pub anchored_at : ℕ
  pub chain_head : Text
  pub row_count : ℕ

abbrev pub Sink : Type 0
Sink = List (Option Anchor)

abbrev anchor_of : ℕ → List Row → Option Text → Option Anchor
anchor_of now rows none = none
anchor_of now rows (some head) =
    some (record { anchored_at = now; chain_head = head; row_count = length (hashed rows) })

abbrev write_line : Sink → Option Anchor → Sink × Option Anchor
write_line sink none = (sink, none)
write_line sink (some a) = (sink ++ some a ∷ [], some a)

-- With a sink configured: the new sink, and the anchor that was written.
pub anchor_chain_head : ℕ → List Row → Sink → Sink × Option Anchor
anchor_chain_head now rows sink = write_line sink (anchor_of now rows (get_chain_head rows))

abbrev pub last_valid : Option Anchor → Sink → Option Anchor
last_valid last [] = last
last_valid last (none ∷ lines) = last_valid last lines
last_valid last (some a ∷ lines) = last_valid (some a) lines

pub read_last_anchor : Option Sink → Option Anchor
read_last_anchor none = none
read_last_anchor (some sink) = last_valid none sink

-- SELECT 1 FROM audit_log WHERE entry_hash = ? LIMIT 1
pub has_hash : Text → List Row → Bool
has_hash head [] = false
has_hash head (r ∷ rs) = elim r.entry_hash [
  | none ↦ has_hash head rs
  | some h ↦ same h head || has_hash head rs
]

-- The verdict, with the head that is missing.
abbrev against : List Row → Option Anchor → Bool × Option Text
against rows none = (true, none)
against rows (some a) =
    if has_hash a.chain_head rows then (true, none) else (false, some a.chain_head)

pub verify_against_anchor : List Row → Option Sink → Bool × Option Text
verify_against_anchor rows sink = against rows (read_last_anchor sink)

last_valid-append_one :
    (last : Option Anchor) (sink : Sink) (a : Anchor)
    → last_valid last (sink ++ some a ∷ []) ≡ some a
last_valid-append_one last [] a = refl
last_valid-append_one last (none ∷ sink) a = last_valid-append_one last sink a
last_valid-append_one last (some b ∷ sink) a = last_valid-append_one (some b) sink a

-- What was just anchored decides the comparison.
verify-anchor_chain_head :
    (now : ℕ) (rows other : List Row) (sink : Sink) (h : Text)
    → get_chain_head rows ≡ some h
    → verify_against_anchor other (some (anchor_chain_head now rows sink).0)
      ≡ (if has_hash h other then (true, none) else (false, some h))
unfolding verify_against_anchor read_last_anchor anchor_chain_head
verify-anchor_chain_head now rows other sink h e = rw (e, last_valid-append_one none sink _)

has_hash-append :
    (h : Text) (xs ys : List Row) → has_hash h (xs ++ ys) ≡ has_hash h xs || has_hash h ys
unfolding has_hash
has_hash-append h [] ys = refl
has_hash-append h (x ∷ xs) ys = ground (arith, has_hash-append h xs ys)

abbrev has_pair : Text → List (Row × Text) → Bool
has_pair h [] = false
has_pair h ((r, k) ∷ rs) = same k h || has_pair h rs

has_hash-hashed : (h : Text) (rows : List Row) → has_hash h rows ≡ has_pair h (hashed rows)
unfolding has_hash hashed
has_hash-hashed h [] = refl
has_hash-hashed h (r ∷ rows) = ground (arith, has_hash-hashed h rows)

has_pair-last_hash :
    (xs : List (Row × Text)) (h : Text) → last_hash xs ≡ some h → has_pair h xs ≡ true
has_pair-last_hash [] h e = cc
has_pair-last_hash ((r, k) ∷ []) h e = ground (arith, same_iff k h)
has_pair-last_hash ((r, k) ∷ x ∷ xs) h e = ground (arith, has_pair-last_hash (x ∷ xs) h)

has_hash-get_chain_head :
    (rows : List Row) (h : Text) → get_chain_head rows ≡ some h → has_hash h rows ≡ true
unfolding get_chain_head
has_hash-get_chain_head rows h e = rw has_hash-hashed (has_pair-last_hash (hashed rows) h e)

has_hash-insert_all :
    (sha : Sha256) (log : Log) (es : List Event) (h : Text)
    → IsChained sha log
    → has_hash h log.rows ≡ true
    → has_hash h (insert_all sha log es).rows ≡ true
has_hash-insert_all sha log [] h c p = p
has_hash-insert_all sha log (e ∷ es) h c p =
    has_hash-insert_all sha (insert_audit_event sha log e) es h
      (insert_audit_event-IsChained sha log e c)
      (rw (
        rows-insert_audit_event sha log e c.ids,
        has_hash-append h log.rows (finished_row sha log e ∷ []),
        p,
      ))

-- No false alarm: after a head was anchored, whatever events are recorded, the comparison with the
-- anchor passes.
pub verify_against_anchor-insert_all :
    (sha : Sha256) (now : ℕ) (log : Log) (sink : Sink) (es : List Event) (h : Text)
    → IsChained sha log
    → get_chain_head log.rows ≡ some h
    → verify_against_anchor
        (insert_all sha log es).rows
        (some (anchor_chain_head now log.rows sink).0)
      ≡ (true, none)
verify_against_anchor-insert_all sha now log sink es h c e = rw (
  verify-anchor_chain_head now log.rows (insert_all sha log es).rows sink h e,
  has_hash-insert_all sha log es h c (has_hash-get_chain_head log.rows h e),
)

-- The row carries the hash of its own fields.
abbrev Owns : Sha256 → Row → Type 0
Owns sha q = (k : Text) → q.entry_hash ≡ some k → compute_entry_hash sha q ≡ k

abbrev PrevFree : Row → Type 0
PrevFree q = is_free (shown q.prev_hash) ≡ true

id-compute :
    (sha : Sha256) (q r : Row)
    → PrevFree q
    → PrevFree r
    → compute_entry_hash sha q ≡ compute_entry_hash sha r
    → q.id ≡ r.id
unfolding compute_entry_hash
id-compute sha q r fq fr e = id-payload q r fq fr (sha.collision_free (payload q) (payload r) e)

module _ (sha : Sha256) (r : Row) (h : Text) (fr : PrevFree r)
    (own : compute_entry_hash sha r ≡ h) where
  other_hash :
      (q : Row) (k : Text)
      → q.id < r.id
      → PrevFree q
      → Owns sha q
      → q.entry_hash ≡ some k
      → same k h ≡ false
  other_hash q k lt fq oq e = elim (Bool-cases (same k h)) [
    | inr ne ↦ ne
    | inl eq ↦
        let ids = id-compute sha q r fq fr (oq k e ∙ (same_iff k h).0 eq ∙ sym own) in
        absurd (omega arith)
  ]

  -- Rows with smaller ids have other hashes.
  has_hash-smaller :
      (b : List Row) → IdsBelow r.id b → All PrevFree b → All (Owns sha) b → has_hash h b ≡ false
  unfolding has_hash
  has_hash-smaller [] below free owns = refl
  has_hash-smaller (q ∷ b) below free owns = elim (Option-cases q.entry_hash) [
    | inl e ↦ rw e (has_hash-smaller b below.1 free.1 owns.1)
    | inr (k, e) ↦
        rw (e, other_hash q k below.0 free.0 owns.0 e) (has_hash-smaller b below.1 free.1 owns.1)
  ]

Owns-verify :
    (sha : Sha256) (pre a post : List Row)
    → (verify_audit_chain sha (pre ++ (a ++ post))).0 ≡ true
    → All (Owns sha) a
Owns-verify sha pre [] post v = tt
Owns-verify sha pre (q ∷ a) post v = (
  λ k e. verify-own sha pre q k (a ++ post) e v,
  Owns-verify sha (pre ++ q ∷ []) a post (rw (append_assoc pre (q ∷ []) (a ++ post)) v),
)

last_hash-append_one :
    (xs : List (Row × Text)) (r : Row) (h : Text) → last_hash (xs ++ (r, h) ∷ []) ≡ some h
last_hash-append_one [] r h = refl
last_hash-append_one ((q, k) ∷ []) r h = refl
last_hash-append_one ((q, k) ∷ x ∷ xs) r h = last_hash-append_one (x ∷ xs) r h

get_chain_head-append_one :
    (rows : List Row) (r : Row) (h : Text)
    → r.entry_hash ≡ some h
    → get_chain_head (rows ++ r ∷ []) ≡ some h
unfolding get_chain_head
get_chain_head-append_one rows r h e =
    rw (hashed-middle rows r h [] e) (unfold hashed in last_hash-append_one (hashed rows) r h)

-- Tail truncation is found: after the head of a verified table was anchored, a table from which the
-- last rows are gone, the anchored one among them, fails the comparison, and the missing head is
-- named.
pub verify_against_anchor-truncated :
    (sha : Sha256) (now : ℕ) (kept gone : List Row) (r : Row) (h : Text) (sink : Sink)
    → (verify_audit_chain sha (kept ++ (gone ++ r ∷ []))).0 ≡ true
    → r.entry_hash ≡ some h
    → IdsBelow r.id kept
    → All PrevFree kept
    → PrevFree r
    → verify_against_anchor kept (some (anchor_chain_head now (kept ++ (gone ++ r ∷ [])) sink).0)
      ≡ (false, some h)
verify_against_anchor-truncated sha now kept gone r h sink v e below free fr =
    let own : compute_entry_hash sha r ≡ h =
      verify-own sha (kept ++ gone) r h [] e (rw (append_assoc kept gone (r ∷ [])) v) in
    let head : get_chain_head (kept ++ (gone ++ r ∷ [])) ≡ some h =
      rw (← append_assoc kept gone (r ∷ [])) (get_chain_head-append_one (kept ++ gone) r h e) in
    rw (
      verify-anchor_chain_head now (kept ++ (gone ++ r ∷ [])) kept sink h head,
      has_hash-smaller sha r h fr own kept below free (Owns-verify sha [] kept (gone ++ r ∷ []) v),
    )
