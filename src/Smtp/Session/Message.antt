-- ===== src/Smtp/Session/Message.antt =====
-- The message that follows a DATA command, against the operation that is staged for it.
use nuvrail.Prelude.{
  ℕ, ◌≡◌, refl, ap, ◌∙◌, Bool, true, false, List, [], ◌∷◌, ◌++◌, Option, none, some, All,
}
use nuvrail.Prelude.Text.{Text, codes, same, decode}
use nuvrail.Prelude.Text.Edit.{text_or_empty}
use nuvrail.Staging.Store.{pending, Operation, State, get_row, audit}
use nuvrail.Staging.Create.{create_operation, create_if, staged_row, stage_row}
use nuvrail.Staging.Lifecycle.Reject.{create_if-none}
use nuvrail.Smtp.{joined_bytes}
use nuvrail.Smtp.Session.{Draw, Env, Conn, send, drain, answer_text}
use nuvrail.Smtp.Session.Command.{
  is_terminator, read_body, send_request, agent_id_of, staged, reset, transaction_dropped,
  handle_data,
}

-- A line of a message: not the end of the input, and not the terminator.
abbrev pub IsBodyLine : List ℕ → Type 0
IsBodyLine [] = ⊥
IsBodyLine (c ∷ l) = is_terminator (c ∷ l) ≡ false

-- `.` and the end of a line
abbrev pub terminator : List ℕ
terminator = codes "." ++ 13 ∷ 10 ∷ []

read_body-terminator :
    (body rest : List (List ℕ))
    → All IsBodyLine body
    → read_body (body ++ terminator ∷ rest) ≡ (body, rest)
unfolding read_body
read_body-terminator [] rest h = unfold is_terminator same in refl
read_body-terminator ([] ∷ body) rest (h, k) = absurd h
read_body-terminator ((c ∷ l) ∷ body) rest (h, k) = rw (h, read_body-terminator body rest k) refl

-- The row that DATA adds.
pub record IsMessage (c : Conn) (env : Env) (d : Draw) (body : List (List ℕ)) (r : Operation)
    : Type 0 where
  pub id : r.id ≡ d.op_id
  pub is_pending : r.status ≡ pending
  pub agent : r.request.agent_id ≡ agent_id_of c.credential
  pub envelope :
      (subject : Text) × (r.request.smtp_envelope
        ≡ some (record {
          sender = text_or_empty c.sender;
          recipients = c.recipients;
          subject = subject;
          body = decode env.uni (joined_bytes body);
        }))

abbrev pub row_of : Env → Draw → Conn → List (List ℕ) → Operation
row_of env d c body = staged_row d.now d.op_id (send_request env c body)

row_of-IsMessage :
    (env : Env) (d : Draw) (c : Conn) (body : List (List ℕ))
    → IsMessage c env d body (row_of env d c body)
unfolding staged_row send_request
row_of-IsMessage env d c body = record {
  id = refl;
  is_pending = refl;
  agent = refl;
  envelope = (_, refl);
}

-- `handle_data` once the message is read and `create_operation` has returned.
abbrev data_done : Env → Draw → Conn → List (List ℕ) → Option (State × Bool) → Conn
data_done env d c rest made = transaction_dropped env (
    staged env d.op_id made (
      answer_text env (codes "354 Start mail input; end with <CRLF>.<CRLF>")
        (record c { input = rest })))

abbrev stored : Env → Draw → Conn → List (List ℕ) → State
stored env d c body = stage_row env.sha d.now d.op_id (row_of env d c body) c.state

handle_data-done :
    (env : Env) (d : Draw) (c : Conn) (body rest : List (List ℕ))
    → env.provider ≡ none
    → get_row d.op_id c.state.operations ≡ none
    → read_body c.input ≡ (body, rest)
    → handle_data env d c ≡ data_done env d c rest (some (stored env d c body, true))
unfolding handle_data create_operation staged_row
handle_data-done env d c body rest open_core fresh b =
    ap
      (λ (r : List (List ℕ) × List (List ℕ)). data_done env d c r.1 (
        create_operation env.sha env.provider d.now d.op_id (send_request env c r.0) d.attempt
          c.state))
      b
    ∙ ap
        (λ p. data_done env d c rest (
          create_if env.sha p d.now d.attempt (row_of env d c body)
            (get_row d.op_id c.state.operations) c.state))
        open_core
    ∙ ap (data_done env d c rest) (
        create_if-none env.sha d.now d.attempt (row_of env d c body)
          (get_row d.op_id c.state.operations) c.state fresh)

-- A message that the agent sends, up to its terminator, is what is staged: DATA adds one pending
-- operation of the agent, whose envelope has the sender, the recipients and, as its body, the lines of
-- the message in their order; the input goes on behind the terminator; the mail server is sent RSET and
-- nothing else; and neither a sender nor a recipient is left over for the next message. The id must be
-- new, and no operation is approved automatically.
pub handle_data-IsMessage :
    (env : Env) (d : Draw) (c : Conn) (body rest : List (List ℕ))
    → env.provider ≡ none
    → get_row d.op_id c.state.operations ≡ none
    → All IsBodyLine body
    → c.input ≡ body ++ terminator ∷ rest
    → (r : Operation) × ((handle_data env d c).state.operations ≡ c.state.operations ++ r ∷ [])
      × IsMessage c env d body r
      × ((handle_data env d c).input ≡ rest)
      × ((handle_data env d c).sent ≡ c.sent ++ reset ∷ [])
      × ((handle_data env d c).sender ≡ none)
      × ((handle_data env d c).recipients ≡ [])
unfolding stage_row audit send drain
handle_data-IsMessage env d c body rest open_core fresh h e =
    let b : read_body c.input ≡ (body, rest) = ap read_body e ∙ read_body-terminator body rest h in
    let done = handle_data-done env d c body rest open_core fresh b in
    (
      row_of env d c body,
      ap (λ (t : Conn). t.state.operations) done,
      row_of-IsMessage env d c body,
      ap (λ (t : Conn). t.input) done,
      ap (λ (t : Conn). t.sent) done,
      ap (λ (t : Conn). t.sender) done,
      ap (λ (t : Conn). t.recipients) done,
    )
