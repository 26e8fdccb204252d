-- ===== src/Smtp/Session/Auth.antt =====
-- gateway/smtp_proxy.py: the AUTH command, the login at the mail server, and the notices behind it.
use nuvrail.Prelude.{
  take, ℕ, ◌==◌, leb, Bool, true, false, not, ◌&&◌, List, [], ◌∷◌, ◌++◌, map, Option, none, some,
  if◌then◌else◌,
}
use nuvrail.Prelude.Text.{Text, Unicode, codes, same, one_of, upper, decode, encode, starts_with}
use nuvrail.Prelude.Text.Edit.{or_option, text_or_empty}
use nuvrail.Audit.Record.{decimal}
use nuvrail.Staging.Store.{rejected, Status, Operation}
use nuvrail.AuthAbuse.{AuthDecision, Protector, start_attempt, record_success, record_failure}
use nuvrail.Agent.{AgentCredential, decode_sasl_plain, verify_agent_login}
use nuvrail.Smtp.{read_smtp_response, strip_bytes}
use nuvrail.Smtp.Session.{
  Env, Conn, Flow, again, closed, answer, answer_text, send, drain, line_of, lines_behind, crlf,
}

-- The base64 of `Username:` and `Password:`
abbrev username_challenge : Text
username_challenge = codes "334 VXNlcm5hbWU6"

abbrev password_challenge : Text
password_challenge = codes "334 UGFzc3dvcmQ6"

abbrev pub or_blank : Option (Text × Text) → Text × Text
or_blank none = ([], [])
or_blank (some p) = p

-- Challenge and answer of AUTH PLAIN without credentials
abbrev pub plain_prompted : Env → Conn → (Text × Text) × Conn
plain_prompted env c = (
  or_blank (decode_sasl_plain env.uni env.b64decode (strip_bytes (line_of c.input))),
  answer (codes "334 " ++ crlf) (record c { input = lines_behind c.input }),
)

abbrev decoded : Unicode → Option (List ℕ) → Option (List ℕ) → Text × Text
decoded uni none pass = ([], [])
decoded uni (some user) none = ([], [])
decoded uni (some user) (some pass) = (decode uni user, decode uni pass)

-- AUTH LOGIN
abbrev pub login_prompted : Env → Conn → (Text × Text) × Conn
login_prompted env c = (
  decoded env.uni (env.b64decode (strip_bytes (line_of c.input)))
      (env.b64decode (strip_bytes (line_of (lines_behind c.input)))),
  answer (password_challenge ++ crlf) (
      answer (username_challenge ++ crlf)
        (record c { input = lines_behind (lines_behind c.input) })),
)

-- parts[2:] of the line for AUTH PLAIN, and the verb of the mechanism; `none` is a mechanism that is
-- not supported
unfoldable pub credentials : Env → List Text → Conn → Option ((Text × Text) × Conn)
unfolding same upper
credentials env (auth ∷ mech ∷ initial ∷ more) c =
    if same (upper env.uni mech) (codes "PLAIN")
    then some (or_blank (decode_sasl_plain env.uni env.b64decode initial), c)
    else if same (upper env.uni mech) (codes "LOGIN")
    then some (login_prompted env c)
    else none
credentials env (auth ∷ mech ∷ []) c =
    if same (upper env.uni mech) (codes "PLAIN")
    then some (plain_prompted env c)
    else if same (upper env.uni mech) (codes "LOGIN")
    then some (login_prompted env c)
    else none
credentials env _ c = none

unfoldable pub starts_235 : List (List ℕ) → Bool
unfolding starts_with
starts_235 [] = false
starts_235 (l ∷ ls) = starts_with l (codes "235")

abbrev starts_220 : List (List ℕ) → Bool
unfolding starts_with
starts_220 [] = false
starts_220 (l ∷ ls) = starts_with l (codes "220")

abbrev pub hello : List ℕ
hello = codes "EHLO nuvrail-proxy" ++ crlf

abbrev pub starttls : List ℕ
starttls = codes "STARTTLS" ++ crlf

-- A new connection: what it sends first is the greeting.
abbrev pub opened : Env → Conn → Conn
opened env c = record c { incoming = env.respond [] }

-- Behind the response to STARTTLS; the test says that it was accepted.
abbrev pub tls_started : Env → Bool → Conn → Conn × Bool
tls_started env false c = (drain c, false)
tls_started env true c =
    if env.accepts_tls then (send env hello (drain c), true) else (drain c, false)

-- `_connect_upstream_starttls`
unfoldable pub connect_upstream_starttls : Env → Text → ℕ → Conn → Conn × Bool
unfolding starts_220
connect_upstream_starttls env host port c =
    let c' = send env starttls (drain (send env hello (drain (opened env c)))) in
    let started = tls_started env (starts_220 (read_smtp_response c'.incoming).0) c' in
    if env.is_reachable host port then started else (c, false)

abbrev pub smtp_host_of : AgentCredential → Text
smtp_host_of a = text_or_empty (or_option a.upstream_smtp_host (some a.upstream_host))

abbrev is_oauth2 : Option Text → Bool
is_oauth2 none = false
is_oauth2 (some []) = false
is_oauth2 (some (c ∷ s)) = true

-- The bytes of `\0user\0password`.
abbrev plain_bytes : Env → AgentCredential → List ℕ
plain_bytes env a =
    encode env.uni (0 ∷ (a.upstream_user ++ 0 ∷ env.fetch_credential a.upstream_password))

abbrev pub auth_xoauth2 : Env → Text → List ℕ
auth_xoauth2 env token = encode env.uni (codes "AUTH XOAUTH2 " ++ token) ++ crlf

abbrev pub auth_plain : Env → AgentCredential → List ℕ
auth_plain env a = encode env.uni (codes "AUTH PLAIN " ++ env.b64encode (plain_bytes env a)) ++ crlf

-- The line that logs in at the mail server; `none` is an OAuth2Error.
abbrev pub upstream_login : Env → AgentCredential → Option (List ℕ)
upstream_login env a =
    if is_oauth2 a.oauth2_provider
    then elim (env.xoauth2_string a.id) [ none ↦ none | some token ↦ some (auth_xoauth2 env token) ]
    else some (auth_plain env a)

abbrev is_agent : ℕ → Option ℕ → Bool
is_agent id none = false
is_agent id (some agent) = agent == id

abbrev is_rejected : Status → Bool
is_rejected rejected = true
is_rejected _ = false

-- The WHERE clause of the notices
abbrev is_unnotified : ℕ → List Text → Operation → Bool
unfolding same one_of
is_unnotified agent notified r =
    same r.request.protocol (codes "smtp")
    && (is_rejected r.status && (is_agent agent r.request.agent_id && not (one_of r.id notified)))

-- ORDER BY decided_at, a NULL first
abbrev decided_before : Option ℕ → Option ℕ → Bool
decided_before none t = true
decided_before (some d) none = false
decided_before (some d) (some t) = leb d t

unfoldable pub insert_decided : Operation → List Operation → List Operation
insert_decided r [] = r ∷ []
insert_decided r (q ∷ rows) =
    let rest = insert_decided r rows in
    if decided_before r.decided_at q.decided_at then r ∷ q ∷ rows else q ∷ rest

unfoldable pub unnotified : ℕ → List Text → List Operation → List Operation
unfolding is_unnotified insert_decided
unnotified agent notified [] = []
unnotified agent notified (r ∷ rows) =
    let rest = unnotified agent notified rows in
    if is_unnotified agent notified r then insert_decided r rest else rest

abbrev pub notice : Env → Operation → List ℕ
notice env r =
    encode env.uni
      (codes "214 [NUVRAIL] REJECTED " ++ (r.id ++ (codes ": " ++ r.request.description)))
    ++ crlf

-- `_send_smtp_rejection_notices`
unfoldable pub send_rejection_notices : Env → ℕ → Conn → Conn
unfolding unnotified
send_rejection_notices env agent c =
    let rows = take 10 (unnotified agent c.notified c.state.operations) in
    record c {
      answers = c.answers ++ map (notice env) rows;
      notified = c.notified ++ map (λ r. r.id) rows;
    }

abbrev pub logged_in : Env → AgentCredential → Bool → Conn → Flow
logged_in env a false c =
    closed (answer_text env (codes "535 5.7.8 Upstream authentication failed") (drain c))
logged_in env a true c = again (
    send_rejection_notices env a.id (
      answer_text env (codes "235 2.7.0 Authentication succeeded")
        (record (drain c) { credential = some a })))

abbrev pub login_upstream : Env → AgentCredential → Option (List ℕ) → Conn → Flow
login_upstream env a none c =
    closed (answer_text env (codes "535 5.7.8 Upstream OAuth2 authentication failed") c)
login_upstream env a (some line) c =
    let c' = send env line c in logged_in env a (starts_235 (read_smtp_response c'.incoming).0) c'

abbrev unreachable_text : AgentCredential → Text
unreachable_text a =
    codes "421 4.4.1 Upstream SMTP server temporarily unreachable ("
    ++ (smtp_host_of a
        ++ (codes ":" ++ (decimal a.upstream_smtp_port ++ codes ") — try again later")))

abbrev pub when_connected : Env → AgentCredential → Conn × Bool → Flow
when_connected env a (c, false) = closed (answer_text env (unreachable_text a) c)
when_connected env a (c, true) =
    login_upstream env a (upstream_login env a) (record (drain c) { is_connected = true })

-- Behind `verify_agent_login`
unfoldable pub open_upstream : Env → Option AgentCredential → Conn → Flow
unfolding send drain connect_upstream_starttls starts_235 send_rejection_notices
open_upstream env none c =
    closed (answer_text env (codes "535 5.7.8 Authentication credentials invalid") c)
open_upstream env (some a) c =
    when_connected env a (connect_upstream_starttls env (smtp_host_of a) a.upstream_smtp_port c)

abbrev pub or_unknown : Text → Text
or_unknown [] = codes "<unknown>"
or_unknown (c ∷ s) = c ∷ s

unfoldable pub noted : Env → ℕ → Text → Option AgentCredential → Protector → Protector
unfolding record_success record_failure
noted env now account none p = (record_failure env.uni env.limits now env.ip account p).0
noted env now account (some a) p = record_success env.uni env.ip account p

abbrev pub decided : Env → ℕ → Text × Text → Protector × AuthDecision → Conn → Flow
decided env now (user, token) (p, d) c =
    let found = verify_agent_login env.verify_password user token env.db in
    if d.is_allowed
    then open_upstream env found (record c { protector = noted env now (or_unknown user) found p })
    else closed (
        answer_text env
          (codes "454 4.7.0 Too many auth attempts. Retry in "
            ++ (decimal d.retry_after_seconds ++ codes "s"))
          (record c { protector = p }))

unfoldable pub authenticate : Env → ℕ → Option ((Text × Text) × Conn) → Conn → Flow
unfolding start_attempt
authenticate env now none c =
    again (
      answer_text env (codes "504 5.5.4 Authentication mechanism not supported — try AUTH PLAIN") c)
authenticate env now (some (login, c')) c =
    decided env now login
      (start_attempt env.uni env.limits now env.ip (or_unknown login.0) c'.protector) c'

-- `if cmd == "AUTH"`
unfoldable pub handle_auth : Env → ℕ → List Text → Conn → Flow
unfolding credentials authenticate
handle_auth env now parts c = authenticate env now (credentials env parts c) c
