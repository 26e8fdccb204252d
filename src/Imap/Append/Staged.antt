-- ===== src/Imap/Append/Staged.antt =====
-- The literal of an APPEND, against the operation that is staged.
use nuvrail.Prelude.{
  ℕ, ◌≤◌, ◌≡◌, refl, ap, ◌∙◌, leb, le→leb, true, false, List, [], ◌∷◌, ◌++◌, none, some, length,
}
use nuvrail.Prelude.Text.{Text, Unicode, codes, split, decode, rstrip_crlf}
use nuvrail.Audit.Record.{Sha256}
use nuvrail.Batching.{Batch, get_or_create_batch}
use nuvrail.Staging.Store.{pending, Operation, Request, get_row, audit}
use nuvrail.Staging.Create.{create_operation, staged_row, stage_row}
use nuvrail.Staging.Lifecycle.Reject.{create_if-none}
use nuvrail.Operation.{ParsedOperation, parse_append, unquote_mailbox}
use nuvrail.Intent.Profile.{should_suppress_append}
use nuvrail.Imap.Write.{arg_or}
use nuvrail.Imap.Write.Stage.{World, Draw, create_in_batch, created_or_same}
use nuvrail.Imap.Append.{
  Outcome, read_exactly, read_line_bytes, literal_size, append_flags, append_request,
  append_outcome, stage_literal, handle_append, ends_in_literal, literal_read, kept_data,
}

read_exactly-append :
    (body rest : List ℕ) → read_exactly (length body) (body ++ rest) ≡ some (body, rest)
unfolding read_exactly
read_exactly-append [] rest = refl
read_exactly-append (b ∷ body) rest = rw (read_exactly-append body rest) refl

abbrev pub parsed_append : Unicode → Text → ParsedOperation
parsed_append uni raw =
    parse_append uni (arg_or 0 (codes "?") (split raw)) (arg_or 2 (codes "INBOX") (split raw))
      (append_flags raw) (literal_size uni raw)

-- The line behind the literal is empty.
literal_read-line :
    (sha : Sha256) (uni : Unicode) (b64encode : List ℕ → Text) (cap : ℕ) (d : Draw) (raw : Text)
    (size : ℕ) (body rest : List ℕ) (w : World)
    → literal_read sha uni none b64encode cap d raw size w (some (body, 13 ∷ 10 ∷ rest))
      ≡ stage_literal sha uni none b64encode d raw (split raw) size (kept_data cap size body) rest w
unfolding read_line_bytes ends_in_literal decode rstrip_crlf
literal_read-line sha uni b64encode cap d raw size body rest w = refl

kept_data-whole :
    (cap size : ℕ) (body : List ℕ) → leb size cap ≡ true → kept_data cap size body ≡ body
kept_data-whole cap size body e = rw e refl

stage_literal-stored :
    (sha : Sha256) (uni : Unicode) (b64encode : List ℕ → Text) (d : Draw) (raw : Text) (size : ℕ)
    (body rest : List ℕ) (w : World)
    → should_suppress_append uni (arg_or 2 (codes "INBOX") (split raw)) w.session.provider_profile
      ≡ false
    → stage_literal sha uni none b64encode d raw (split raw) size body rest w
      ≡ append_outcome (arg_or 0 (codes "?") (split raw)) d.op_id rest (
          create_in_batch sha none d
            (arg_or 2 (codes "INBOX") (split raw))
            (append_request uni b64encode
              (parse_append uni
                (arg_or 0 (codes "?") (split raw))
                (arg_or 2 (codes "INBOX") (split raw))
                (append_flags raw)
                size)
              body
              w)
            w)
unfolding stage_literal
stage_literal-stored sha uni b64encode d raw size body rest w stored = simp stored refl

handle_append-append_outcome :
    (sha : Sha256) (uni : Unicode) (b64encode : List ℕ → Text) (cap : ℕ) (d : Draw) (raw : Text)
    (body rest : List ℕ) (w : World)
    → literal_size uni raw ≡ length body
    → length body ≤ cap
    → should_suppress_append uni (arg_or 2 (codes "INBOX") (split raw)) w.session.provider_profile
      ≡ false
    → handle_append sha uni none b64encode cap d raw (body ++ 13 ∷ 10 ∷ rest) w
      ≡ append_outcome (arg_or 0 (codes "?") (split raw)) d.op_id rest (
          create_in_batch sha none d
            (arg_or 2 (codes "INBOX") (split raw))
            (append_request uni b64encode (parsed_append uni raw) body w)
            w)
unfolding handle_append
handle_append-append_outcome sha uni b64encode cap d raw body rest w size fits stored =
    ap (literal_read sha uni none b64encode cap d raw (literal_size uni raw) w) (
      ap (λ n. read_exactly n (body ++ 13 ∷ 10 ∷ rest)) size
      ∙ read_exactly-append body (13 ∷ 10 ∷ rest))
    ∙ literal_read-line sha uni b64encode cap d raw (literal_size uni raw) body rest w
    ∙ ap
        (λ kept.
          stage_literal sha uni none b64encode d raw (split raw) (literal_size uni raw) kept rest w)
        (kept_data-whole cap (literal_size uni raw) body
          (ap (λ n. leb n cap) size ∙ le→leb (length body) cap fits))
    ∙ stage_literal-stored sha uni b64encode d raw (literal_size uni raw) body rest w stored

-- The row that an APPEND adds.
pub record IsAppended (uni : Unicode) (d : Draw) (raw body64 : Text) (w : World) (r : Operation)
    : Type 0 where
  pub id : r.id ≡ d.op_id
  pub is_pending : r.status ≡ pending
  pub op_type : r.request.op_type ≡ codes "append"
  pub agent : r.request.agent_id ≡ some w.session.agent_id
  pub message : r.request.append_message ≡ some body64
  pub folder : r.request.folder_to ≡ some (unquote_mailbox (arg_or 2 (codes "INBOX") (split raw)))

abbrev request_for : Unicode → (List ℕ → Text) → Text → List ℕ → World → Request
request_for uni b64encode raw body w = append_request uni b64encode (parsed_append uni raw) body w

abbrev batched : Draw → Text → World → List Batch × Text
batched d folder w =
    get_or_create_batch d.batch_id d.monotonic
      (record { folder = folder; protocol = codes "imap"; agent_id = some w.session.agent_id }) 30
      w.batches

abbrev row_for : Unicode → (List ℕ → Text) → Draw → Text → List ℕ → World → Operation
row_for uni b64encode d raw body w =
    staged_row d.now d.op_id (record (request_for uni b64encode raw body w) {
      batch_id = some (batched d (arg_or 2 (codes "INBOX") (split raw)) w).1;
    })

row_for-IsAppended :
    (uni : Unicode) (b64encode : List ℕ → Text) (d : Draw) (raw : Text) (b : ℕ) (body : List ℕ)
    (w : World)
    → IsAppended uni d raw (b64encode (b ∷ body)) w (row_for uni b64encode d raw (b ∷ body) w)
unfolding staged_row append_request parse_append
row_for-IsAppended uni b64encode d raw b body w = record {
  id = refl;
  is_pending = refl;
  op_type = refl;
  agent = refl;
  message = refl;
  folder = refl;
}

create_in_batch-row :
    (sha : Sha256) (d : Draw) (folder : Text) (r : Request) (w : World)
    → get_row d.op_id w.state.operations ≡ none
    → (create_in_batch sha none d folder r w).0.state.operations
      ≡ w.state.operations
        ++ staged_row d.now d.op_id (record r { batch_id = some (batched d folder w).1 }) ∷ []
unfolding create_in_batch create_operation staged_row stage_row audit
create_in_batch-row sha d folder r w fresh =
    let (batches, id) = batched d folder w in
    let row = staged_row d.now d.op_id (record r { batch_id = some id }) in
    ap (λ made. (created_or_same (record w { batches = batches }) made).state.operations)
      (create_if-none sha d.now d.attempt row (get_row d.op_id w.state.operations) w.state fresh)

-- An APPEND whose literal is not empty, has the announced length, fits the cap and ends the command, in
-- a folder where the provider does not store sent messages itself, adds one pending operation of the
-- agent with exactly the bytes of the literal, in base64, as its message; and the input goes on behind
-- the literal and the line that ends it, with the session open. The id must be new, and no
-- operation is approved automatically.
pub handle_append_lem :
    (sha : Sha256) (uni : Unicode) (b64encode : List ℕ → Text) (cap : ℕ) (d : Draw) (raw : Text)
    (b : ℕ) (body rest : List ℕ) (w : World)
    → literal_size uni raw ≡ length (b ∷ body)
    → length (b ∷ body) ≤ cap
    → should_suppress_append uni (arg_or 2 (codes "INBOX") (split raw)) w.session.provider_profile
      ≡ false
    → get_row d.op_id w.state.operations ≡ none
    → (r : Operation) × ((handle_append sha uni none b64encode cap d raw
          ((b ∷ body) ++ 13 ∷ 10 ∷ rest)
          w).world.state.operations
        ≡ w.state.operations ++ r ∷ [])
      × IsAppended uni d raw (b64encode (b ∷ body)) w r
      × ((handle_append sha uni none b64encode cap d raw ((b ∷ body) ++ 13 ∷ 10 ∷ rest) w).input
          ≡ rest)
      × ((handle_append sha uni none b64encode cap d raw ((b ∷ body) ++ 13 ∷ 10 ∷ rest) w).is_open
          ≡ true)
handle_append_lem sha uni b64encode cap d raw b body rest w size fits stored fresh =
    let done =
      handle_append-append_outcome sha uni b64encode cap d raw (b ∷ body) rest w size fits stored in
    (
      row_for uni b64encode d raw (b ∷ body) w,
      ap (λ (o : Outcome). o.world.state.operations) done
          ∙ create_in_batch-row sha d (arg_or 2 (codes "INBOX") (split raw))
              (request_for uni b64encode raw (b ∷ body) w) w fresh,
      row_for-IsAppended uni b64encode d raw b body w,
      ap (λ (o : Outcome). o.input) done,
      ap (λ (o : Outcome). o.is_open) done,
    )
