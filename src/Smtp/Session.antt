-- ===== src/Smtp/Session.antt =====
-- gateway/smtp_proxy.py, `handle_smtp_client`: one connection of an agent, command by command. The
-- lines that the client sends are a list, whose end is the end of the stream; so are the lines that the
-- mail server sends. A write that fails is not modelled.
pub mod Auth
pub mod Command
pub mod Kept
pub mod Sent
pub mod Message
use nuvrail.Prelude.{ℕ, Bool, List, ◌++◌, Option, [], ◌∷◌}
use nuvrail.Prelude.Text.{Text, Unicode, codes, encode}
use nuvrail.Audit.Record.{Sha256}
use nuvrail.Staging.Store.{State}
use nuvrail.Staging.Execute.{Attempt}
use nuvrail.Staging.Create.{Provider}
use nuvrail.AuthAbuse.{Limits, Protector}
use nuvrail.Agent.{Accounts, AgentCredential}
use nuvrail.Smtp.{joined_bytes, read_smtp_response}

-- A row of `messages` joined to its folder, as `find_message_by_message_id` reads it.
pub record Mirrored : Type 0 where
  pub message_id : Option Text
  pub user_id : ℕ
  pub subject : Option Text
  pub sender : Option Text
  pub last_updated : ℕ

-- The clock, the id that is drawn, and the attempt of an automatic rule, for one command.
pub record Draw : Type 0 where
  pub now : ℕ
  pub op_id : Text
  pub attempt : Attempt

-- What the connection runs in. `is_reachable` says whether the mail server accepts the connection, and
-- `accepts_tls` whether the TLS handshake succeeds; `respond` is what the server sends once all of its
-- argument has been written to it.
pub record Env : Type 0 where
  pub sha : Sha256
  pub uni : Unicode
  pub provider : Provider
  pub b64decode : List ℕ → Option (List ℕ)
  pub b64encode : List ℕ → Text
  pub verify_password : Text → Text → Bool
  pub xoauth2_string : ℕ → Option Text
  pub fetch_credential : Option Text → Text
  pub db : Accounts
  pub mirror : List Mirrored
  pub limits : Limits
  pub ip : Text
  pub is_reachable : Text → ℕ → Bool
  pub accepts_tls : Bool
  pub respond : List (List ℕ) → List (List ℕ)
  pub draw : ℕ → Draw

-- `sent` and `answers` are what was written to the mail server and to the client; `incoming` is what
-- the server sent and was not read yet; `ticks` counts the commands; `notified` is the column
-- `rejection_notified`.
pub record Conn : Type 0 where
  pub input : List (List ℕ)
  pub ticks : ℕ
  pub is_connected : Bool
  pub credential : Option AgentCredential
  pub sender : Option Text
  pub recipients : List Text
  pub protector : Protector
  pub state : State
  pub notified : List Text
  pub sent : List (List ℕ)
  pub incoming : List (List ℕ)
  pub answers : List (List ℕ)

abbrev pub crlf : List ℕ
crlf = 13 ∷ 10 ∷ []

-- client_writer.write
abbrev pub answer : List ℕ → Conn → Conn
answer line c = record c { answers = c.answers ++ line ∷ [] }

abbrev pub answer_text : Env → Text → Conn → Conn
answer_text env t c = answer (encode env.uni t ++ crlf) c

-- upstream_writer.write
unfoldable pub send : Env → List ℕ → Conn → Conn
send env line c = record c {
  sent = c.sent ++ line ∷ [];
  incoming = c.incoming ++ env.respond (c.sent ++ line ∷ []);
}

-- `_read_smtp_response`, its lines dropped
unfoldable pub drain : Conn → Conn
drain c = record c { incoming = (read_smtp_response c.incoming).1 }

-- The response is passed on as it came.
unfoldable pub relay_response : Conn → Conn
relay_response c = record c {
  incoming = (read_smtp_response c.incoming).1;
  answers = c.answers ++ joined_bytes (read_smtp_response c.incoming).0 ∷ [];
}

-- client_reader.readline(); an empty line at the end of the stream
abbrev pub line_of : List (List ℕ) → List ℕ
line_of [] = []
line_of (l ∷ ls) = l

abbrev pub lines_behind : List (List ℕ) → List (List ℕ)
lines_behind [] = []
lines_behind (l ∷ ls) = ls

-- Whether the loop goes on after a command.
pub data Flow : Type 0 where
  again : Conn → Flow
  closed : Conn → Flow

abbrev pub conn_of : Flow → Conn
conn_of (again c) = c
conn_of (closed c) = c
