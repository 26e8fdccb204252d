-- ===== src/Smtp/Examples.antt =====
-- An agent that logs in with AUTH PLAIN and sends one message, with maps in place of base64 and bcrypt.
use nuvrail.Prelude.{ℕ, ◌≡◌, refl, true, false, List, [], ◌∷◌, ◌++◌, none, some}
use nuvrail.Prelude.Text.{Text, codes, same}
use nuvrail.Audit.Examples.{shifted}
use nuvrail.Staging.Store.{Operation, get_row}
use nuvrail.Staging.Examples.{goes_well}
use nuvrail.AuthAbuse.{Limits, Protector}
use nuvrail.Agent.{AgentCredential}
use nuvrail.Imap.Examples.{ascii}
use nuvrail.Imap.Write.Examples.{start}
use nuvrail.Smtp.Session.{Env, Conn, Draw}
use nuvrail.Smtp.Session.Command.{handle_data, reset, is_terminator}
use nuvrail.Smtp.Session.Message.{IsMessage, terminator, handle_data-IsMessage}
use nuvrail.Intent.Send.{match_prefix, strip_subject_prefixes, reply_words, forward_words}
use nuvrail.Intent.Send.Stripped.{match_prefix-strip_subject_prefixes}

abbrev agent : AgentCredential
agent = record {
  id = 3;
  user_id = 7;
  agent_username = codes "bot";
  hashed_token = codes "secret";
  revoked_at = none;
  upstream_host = codes "mail.example.com";
  upstream_smtp_host = none;
  upstream_smtp_port = 587;
  upstream_user = codes "ann@example.com";
  upstream_password = some (codes "pw");
  oauth2_provider = none;
}

abbrev line : Text → List ℕ
line t = t ++ 13 ∷ 10 ∷ []

abbrev limits : Limits
limits = record {
  attempt_window_seconds = 60;
  max_attempts_per_ip_window = 20;
  max_attempts_per_account_window = 10;
  failure_window_seconds = 900;
  max_failures_before_lockout = 5;
  base_lockout_seconds = 60;
  max_lockout_seconds = 3600;
}

abbrev protector : Protector
protector = record {
  attempts_by_ip = λ k. [];
  attempts_by_account = λ k. [];
  failures_by_ip = λ k. [];
  failures_by_account = λ k. [];
  lockout_until = λ k. 0;
  lockout_count = λ k. 0;
}

abbrev draw : ℕ → Draw
draw n = record { now = 100; op_id = codes "op"; attempt = goes_well }

abbrev env : Env
env = record {
  sha = shifted;
  uni = ascii;
  provider = none;
  b64decode = λ t. some (0 ∷ (codes "bot" ++ 0 ∷ t));
  b64encode = λ t. t;
  verify_password = same;
  xoauth2_string = λ id. none;
  fetch_credential = λ p. codes "pw";
  db = record {
    agents = agent ∷ [];
    users = (record { id = 7; suspended_at = none; deleted_at = none }) ∷ [];
  };
  mirror = [];
  limits = limits;
  ip = codes "10.0.0.1";
  is_reachable = λ h p. true;
  accepts_tls = true;
  respond = λ sent. line (codes "235 ok") ∷ [];
  draw = draw;
}

abbrev message : List (List ℕ)
message = line (codes "Subject: hi") ∷ line [] ∷ line (codes "..hello") ∷ []

abbrev dialogue : List (List ℕ)
dialogue =
    line (codes "AUTH PLAIN secret")
    ∷ line (codes "MAIL FROM:<bot@x>")
    ∷ line (codes "RCPT TO:<bob@x>")
    ∷ line (codes "DATA")
    ∷ (message ++ terminator ∷ line (codes "QUIT") ∷ [])

abbrev fresh : List (List ℕ) → Conn
fresh input = record {
  input = input;
  ticks = 0;
  is_connected = false;
  credential = none;
  sender = none;
  recipients = [];
  protector = protector;
  state = start;
  notified = [];
  sent = [];
  incoming = [];
  answers = [];
}

handle_data-IsMessage_example :
    (r : Operation) × ((handle_data env
        (draw 0)
        (fresh (message ++ terminator ∷ []))).state.operations
      ≡ [] ++ r ∷ [])
    × IsMessage (fresh (message ++ terminator ∷ [])) env (draw 0) message r
    × ((handle_data env (draw 0) (fresh (message ++ terminator ∷ []))).input ≡ [])
    × ((handle_data env (draw 0) (fresh (message ++ terminator ∷ []))).sent ≡ [] ++ reset ∷ [])
    × ((handle_data env (draw 0) (fresh (message ++ terminator ∷ []))).sender ≡ none)
    × ((handle_data env (draw 0) (fresh (message ++ terminator ∷ []))).recipients ≡ [])
unfolding get_row is_terminator same
handle_data-IsMessage_example =
    handle_data-IsMessage env (draw 0) (fresh (message ++ terminator ∷ [])) message [] refl refl
      (refl, (refl, (refl, tt))) refl

match_prefix-strip_subject_prefixes_example :
    match_prefix ascii
      (reply_words ++ forward_words)
      (strip_subject_prefixes ascii (codes "Re: Fwd: Invoice"))
    ≡ none
match_prefix-strip_subject_prefixes_example =
    match_prefix-strip_subject_prefixes ascii (codes "Re: Fwd: Invoice")
