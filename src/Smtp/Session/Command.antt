-- ===== src/Smtp/Session/Command.antt =====
-- gateway/smtp_proxy.py: the other commands of an agent, and the loop.
use nuvrail.Prelude.{
  ℕ, zero, suc, ◌+◌, ◌==◌, leb, Bool, true, false, ◌&&◌, ◌||◌, List, [], ◌∷◌, ◌++◌, Option, none,
  some, if◌then◌else◌,
}
use nuvrail.Prelude.Text.{
  Text, codes, same, one_of, upper, split, strip, decode, encode, rstrip_crlf,
}
use nuvrail.Prelude.Text.Edit.{is_blank, or_option, text_or_empty, strip_set}
use nuvrail.Staging.Store.{Request, State}
use nuvrail.Staging.Create.{create_operation}
use nuvrail.Intent.Send.{extract_message_ids, derive_send_intent}
use nuvrail.Agent.{AgentCredential}
use nuvrail.Imap.Proxy.{has_bare_cr_or_nul}
use nuvrail.Smtp.{
  Headers, Original, push_line, joined_bytes, extract_send_headers, build_send_description,
  search_address,
}
use nuvrail.Smtp.Session.{
  Mirrored, Draw, Env, Conn, Flow, again, closed, answer, answer_text, send, drain, relay_response,
  crlf,
}
use nuvrail.Smtp.Session.Auth.{handle_auth}

-- `_SMTP_PASSTHROUGH_COMMANDS`
abbrev pub passthrough_commands : List Text
passthrough_commands = codes "NOOP" ∷ codes "RSET" ∷ codes "HELP" ∷ codes "VRFY" ∷ []

unfoldable pub is_terminator : List ℕ → Bool
unfolding same
is_terminator l = same l (codes "." ++ 13 ∷ 10 ∷ []) || same l (codes "." ++ 10 ∷ [])

-- The lines of the message, and the input behind the terminator. An empty line is the end of the input.
unfoldable pub read_body : List (List ℕ) → List (List ℕ) × List (List ℕ)
unfolding is_terminator
read_body [] = ([], [])
read_body ([] ∷ lines) = ([], lines)
read_body ((c ∷ l) ∷ lines) =
    let more = push_line (c ∷ l) (read_body lines) in
    if is_terminator (c ∷ l) then ([], lines) else more

abbrev is_id : Text → Option Text → Bool
unfolding same
is_id t none = false
is_id t (some id) = same t id || same (b'<' ∷ (t ++ b'>' ∷ [])) id

abbrev newest : Mirrored → Option Mirrored → Option Mirrored
newest m none = some m
newest m (some n) = if leb n.last_updated m.last_updated then some m else some n

unfoldable pub newest_of : Text → ℕ → List Mirrored → Option Mirrored
unfolding is_id
newest_of bare user [] = none
newest_of bare user (m ∷ ms) =
    let rest = newest_of bare user ms in
    if m.user_id == user && is_id bare m.message_id then newest m rest else rest

-- `find_message_by_message_id`
unfoldable pub find_message_by_message_id : Text → ℕ → List Mirrored → Option Mirrored
unfolding newest_of strip
find_message_by_message_id id user ms =
    let bare = strip_set (codes "<>") (strip id) in
    if is_blank bare then none else newest_of bare user ms

abbrev last_of : List Text → Option Text
last_of [] = none
last_of (x ∷ []) = some x
last_of (x ∷ y ∷ xs) = last_of (y ∷ xs)

abbrev or_ids : List Text → List Text → List Text
or_ids [] b = b
or_ids (x ∷ a) b = x ∷ a

abbrev original_of : Option Mirrored → Option Original
original_of none = none
original_of (some m) = some (m.subject, m.sender)

abbrev looked_up : Env → Option Text → Option AgentCredential → Option Original
looked_up env none a = none
looked_up env (some id) none = none
looked_up env (some id) (some a) = original_of (find_message_by_message_id id a.user_id env.mirror)

-- The message that the headers name, if the mirror has it.
unfoldable pub find_original : Env → Headers → Option AgentCredential → Option Original
unfolding extract_message_ids find_message_by_message_id
find_original env h a =
    looked_up env
      (last_of (
        or_ids (extract_message_ids (text_or_empty h.in_reply_to))
          (extract_message_ids (text_or_empty h.references))))
      a

abbrev is_found : Option Original → Bool
is_found none = false
is_found (some o) = true

abbrev pub agent_id_of : Option AgentCredential → Option ℕ
agent_id_of none = none
agent_id_of (some a) = some a.id

-- The arguments of `create_operation` for a message.
unfoldable pub send_request : Env → Conn → List (List ℕ) → Request
unfolding derive_send_intent build_send_description extract_send_headers find_original
send_request env c body =
    let h = extract_send_headers env.uni body in
    let subject = text_or_empty (or_option h.subject (some (codes "<no subject>"))) in
    let original = find_original env h c.credential in
    let (intent, conf) =
      derive_send_intent env.uni subject h.in_reply_to h.references (is_found original) in
    record {
      op_type = codes "smtp_send";
      protocol = codes "smtp";
      description = build_send_description env.uni intent subject c.recipients original;
      agent_id = agent_id_of c.credential;
      imap_command = none;
      smtp_envelope = some (record {
        sender = text_or_empty c.sender;
        recipients = c.recipients;
        subject = subject;
        body = decode env.uni (joined_bytes body);
      });
      message_ids = none;
      folder_from = none;
      folder_to = none;
      flags_add = none;
      flags_remove = none;
      snapshot = none;
      is_urgent = none;
      batch_id = none;
      append_message = none;
      intent_label = intent;
      intent_confidence = conf;
    }

abbrev staged_text : Text → Text
staged_text id = codes "250 OK [STAGED] Send queued for approval — ID: " ++ id

-- An error is only logged, and answered in the same words.
abbrev pub staged : Env → Text → Option (State × Bool) → Conn → Conn
staged env id none c = answer_text env (staged_text (codes "pending")) c
staged env id (some (s, notified)) c = answer_text env (staged_text id) (record c { state = s })

abbrev pub reset : List ℕ
reset = codes "RSET" ++ crlf

-- The transaction at the mail server is dropped, and the envelope with it.
abbrev pub transaction_dropped : Env → Conn → Conn
transaction_dropped env c = record (drain (send env reset c)) { sender = none; recipients = [] }

-- `elif cmd == "DATA"`
unfoldable pub handle_data : Env → Draw → Conn → Conn
unfolding create_operation send_request send drain
handle_data env d c =
    let (body, rest) = read_body c.input in
    let c' =
      answer_text env (codes "354 Start mail input; end with <CRLF>.<CRLF>")
        (record c { input = rest }) in
    transaction_dropped env (
      staged env d.op_id
        (create_operation env.sha env.provider d.now d.op_id (send_request env c body) d.attempt
          c.state)
        c')

abbrev pub relayed : Env → List ℕ → Conn → Conn
relayed env line c = relay_response (send env line c)

abbrev mail_line : Env → List ℕ → Option AgentCredential → List ℕ
mail_line env line none = line
mail_line env line (some a) =
    encode env.uni (codes "MAIL FROM:<" ++ (a.upstream_user ++ codes ">")) ++ crlf

abbrev pub from_line : Env → List ℕ → Option AgentCredential → List ℕ
from_line env line a = mail_line env line a

abbrev pub added : Option Text → List Text → List Text
added none rs = rs
added (some r) rs = rs ++ r ∷ []

abbrev pub or_old : Option Text → Option Text → Option Text
or_old none old = old
or_old (some a) old = some a

-- `if cmd == "MAIL"`
unfoldable pub handle_mail : Env → List ℕ → Text → Conn → Conn
unfolding search_address send relay_response
handle_mail env line text c =
    relayed env (from_line env line c.credential)
      (record c { sender = or_old (search_address (codes "mail from:") text) c.sender })

-- `elif cmd == "RCPT"`
unfoldable pub handle_rcpt : Env → List ℕ → Text → Conn → Conn
unfolding search_address send relay_response
handle_rcpt env line text c =
    relayed env line
      (record c { recipients = added (search_address (codes "rcpt to:") text) c.recipients })

abbrev or_empty_command : Text → Text
or_empty_command [] = codes "empty command"
or_empty_command (c ∷ s) = c ∷ s

-- Behind the login
unfoldable pub envelope_command : Env → Draw → List ℕ → Text → Text → Conn → Flow
unfolding same one_of handle_mail handle_rcpt handle_data send relay_response
envelope_command env d line text cmd c =
    if same cmd (codes "MAIL")
    then again (handle_mail env line text c)
    else if same cmd (codes "RCPT")
    then again (handle_rcpt env line text c)
    else if same cmd (codes "DATA")
    then again (handle_data env d c)
    else if same cmd (codes "QUIT")
    then closed (relayed env line c)
    else if one_of cmd passthrough_commands
    then again (relayed env line c)
    else again (
        answer_text env
          (codes "502 5.5.1 Nuvrail: "
            ++ (or_empty_command cmd ++ codes " is not permitted for agents"))
          c)

abbrev greeting_lines : List ℕ
greeting_lines =
    codes "250-Nuvrail proxy"
    ++ (crlf
        ++ (codes "250-AUTH PLAIN LOGIN"
            ++ (crlf ++ (codes "250-SIZE 52428800" ++ (crlf ++ (codes "250 8BITMIME" ++ crlf))))))

abbrev first_word : List Text → Text
first_word [] = []
first_word (w ∷ ws) = w

-- line.split()[0].upper()
unfoldable pub verb_of : Env → List ℕ → Text
unfolding upper split decode
verb_of env line = upper env.uni (first_word (split (rstrip_crlf (decode env.uni line))))

abbrev pub with_verb : Env → Draw → List ℕ → Text → Conn → Flow
with_verb env d line cmd c =
    if has_bare_cr_or_nul line
    then again (answer (codes "500 5.5.2 Nuvrail: bare CR or NUL in command line" ++ crlf) c)
    else if one_of cmd (codes "EHLO" ∷ codes "HELO" ∷ [])
    then again (answer greeting_lines c)
    else if same cmd (codes "AUTH")
    then handle_auth env d.now (split (rstrip_crlf (decode env.uni line))) c
    else if c.is_connected
    then envelope_command env d line (rstrip_crlf (decode env.uni line)) cmd c
    else again (answer_text env (codes "530 5.7.0 Authentication required") c)

-- One round of the loop, the line taken from the input.
unfoldable pub handle_command : Env → Draw → List ℕ → Conn → Flow
unfolding has_bare_cr_or_nul one_of same handle_auth envelope_command verb_of split decode
handle_command env d line c = with_verb env d line (verb_of env line) c

abbrev pub next_round : (Conn → Conn) → Flow → Conn
next_round f (again c) = f c
next_round f (closed c) = c

abbrev pub ticked : List (List ℕ) → Conn → Conn
ticked rest c = record c { input = rest; ticks = c.ticks + 1 }

-- `while True`; the fuel bounds the number of commands.
unfoldable pub run_lines : (Conn → Conn) → Env → List (List ℕ) → Conn → Conn
unfolding handle_command
run_lines go_on env [] c = c
run_lines go_on env ([] ∷ rest) c = record c { input = rest }
run_lines go_on env ((b ∷ line) ∷ rest) c =
    next_round go_on (handle_command env (env.draw c.ticks) (b ∷ line) (ticked rest c))

unfoldable pub run : Env → ℕ → Conn → Conn
unfolding run_lines
run env zero c = c
run env (suc n) c = run_lines (run env n) env c.input c
