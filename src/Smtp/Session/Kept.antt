-- ===== src/Smtp/Session/Kept.antt =====
-- What the login of an agent sends to the mail server, and what a connection may send at all.
use nuvrail.Prelude.{
  ℕ, ◌≡◌, refl, Bool, true, false, List, [], ◌∷◌, Option, none, some, All, All-append,
  if◌then◌else◌, if_cases,
}
use nuvrail.Prelude.Text.{Text, codes, same, one_of, upper}
use nuvrail.Staging.Store.{State}
use nuvrail.Staging.Lifecycle.Pending.{OnlyStages}
use nuvrail.AuthAbuse.{Protector, AuthDecision, start_attempt}
use nuvrail.Agent.{AgentCredential, verify_agent_login, decode_sasl_plain}
use nuvrail.Imap.Proxy.{has_bare_cr_or_nul}
use nuvrail.Smtp.Session.{Env, Conn, Flow, again, closed, send, drain, relay_response}
use nuvrail.Smtp.Session.Auth.{
  hello, starttls, opened, tls_started, connect_upstream_starttls, upstream_login, smtp_host_of,
  logged_in, login_upstream, when_connected, open_upstream, decided, authenticate, credentials,
  or_blank, or_unknown, handle_auth, send_rejection_notices, plain_prompted, login_prompted,
}
use nuvrail.Smtp.Session.Command.{reset, relayed, from_line, verb_of}

-- The agent gave the name and the token of the credential, which is active.
abbrev pub IsVerified : Env → AgentCredential → Type 0
IsVerified env a =
    (user : Text) × (token : Text) × (verify_agent_login env.verify_password user token env.db
      ≡ some a)

-- The verbs whose line goes to the mail server as the agent wrote it.
abbrev pub relayed_verbs : List Text
relayed_verbs =
    codes "RCPT" ∷ codes "QUIT" ∷ codes "NOOP" ∷ codes "RSET" ∷ codes "HELP" ∷ codes "VRFY" ∷ []

-- A line that the mail server may see before an approval.
pub data IsSession (env : Env) (line : List ℕ) : Type 0 where
  greets : line ≡ hello → IsSession env line
  starts_tls : line ≡ starttls → IsSession env line
  logs_in :
      (a : AgentCredential)
      → IsVerified env a
      → upstream_login env a ≡ some line
      → IsSession env line
  mails_from :
      (a : AgentCredential)
      → IsVerified env a
      → line ≡ from_line env line (some a)
      → IsSession env line
  resets : line ≡ reset → IsSession env line
  is_relayed :
      has_bare_cr_or_nul line ≡ false
      → one_of (verb_of env line) relayed_verbs ≡ true
      → IsSession env line

pub record IsKept (env : Env) (s : State) (sent : List (List ℕ)) (t : State) : Type 0 where
  pub lines : All (IsSession env) sent
  pub stages : OnlyStages s t

abbrev pub Kept : Env → State → Conn → Type 0
Kept env s c = IsKept env s c.sent c.state

-- Once the mail server is connected, an agent is logged in.
abbrev pub IsLoggedIn : Env → Bool → Option AgentCredential → Type 0
IsLoggedIn env connected o =
    connected ≡ true → (a : AgentCredential) × (o ≡ some a) × IsVerified env a

abbrev pub Ready : Env → State → Conn → Type 0
Ready env s c = Kept env s c × IsLoggedIn env c.is_connected c.credential

abbrev pub FlowKept : Env → State → Flow → Type 0
FlowKept env s (again c) = Ready env s c
FlowKept env s (closed c) = Kept env s c

module _ (env : Env) (s : State) where
  pub send-Kept :
      (line : List ℕ) (c : Conn) → IsSession env line → Kept env s c → Kept env s (send env line c)
  unfolding send
  send-Kept line c l k = record {
    lines = All-append (IsSession env) c.sent (line ∷ []) k.lines (l, tt);
    stages = k.stages;
  }

  drain-Kept : (c : Conn) → Kept env s c → Kept env s (drain c)
  unfolding drain
  drain-Kept c k = k

  pub relayed-Kept :
      (line : List ℕ) (c : Conn)
      → IsSession env line
      → Kept env s c
      → Kept env s (relayed env line c)
  unfolding relay_response
  relayed-Kept line c l k = send-Kept line c l k

  tls_started-Kept : (b : Bool) (c : Conn) → Kept env s c → Kept env s (tls_started env b c).0
  tls_started-Kept false c k = drain-Kept c k
  tls_started-Kept true c k =
      if_cases (λ (r : Conn × Bool). Kept env s r.0) env.accepts_tls _ _
        (λ e. send-Kept hello (drain c) (greets refl) (drain-Kept c k)) (λ e. drain-Kept c k)

  connect-Kept :
      (host : Text) (port : ℕ) (c : Conn)
      → Kept env s c
      → Kept env s (connect_upstream_starttls env host port c).0
  unfolding connect_upstream_starttls
  connect-Kept host port c k =
      let c1 = drain (send env hello (drain (opened env c))) in
      let k1 =
        drain-Kept _
          (send-Kept hello (drain (opened env c)) (greets refl) (drain-Kept (opened env c) k)) in
      let k2 = send-Kept starttls c1 (starts_tls refl) k1 in
      if_cases (λ (r : Conn × Bool). Kept env s r.0) (env.is_reachable host port) _ _
        (λ e. tls_started-Kept _ (send env starttls c1) k2) (λ e. k)

  notices-Ready :
      (agent : ℕ) (c : Conn) → Ready env s c → Ready env s (send_rejection_notices env agent c)
  unfolding send_rejection_notices
  notices-Ready agent c r = r

  logged_in-Kept :
      (a : AgentCredential) (b : Bool) (c : Conn)
      → IsVerified env a
      → Kept env s c
      → FlowKept env s (logged_in env a b c)
  logged_in-Kept a false c v k = drain-Kept c k
  logged_in-Kept a true c v k = notices-Ready a.id _ (drain-Kept c k, λ e. (a, refl, v))

  login_upstream-Kept :
      (a : AgentCredential) (o : Option (List ℕ)) (c : Conn)
      → upstream_login env a ≡ o
      → IsVerified env a
      → Kept env s c
      → FlowKept env s (login_upstream env a o c)
  login_upstream-Kept a none c e v k = k
  login_upstream-Kept a (some line) c e v k =
      logged_in-Kept a _ (send env line c) v (send-Kept line c (logs_in a v e) k)

  when_connected-Kept :
      (a : AgentCredential) (r : Conn × Bool)
      → IsVerified env a
      → Kept env s r.0
      → FlowKept env s (when_connected env a r)
  when_connected-Kept a (c, false) v k = k
  when_connected-Kept a (c, true) v k =
      login_upstream-Kept a (upstream_login env a) _ refl v (drain-Kept c k)

  open_upstream-Kept :
      (o : Option AgentCredential) (c : Conn)
      → ((a : AgentCredential) → o ≡ some a → IsVerified env a)
      → Kept env s c
      → FlowKept env s (open_upstream env o c)
  unfolding open_upstream
  open_upstream-Kept none c v k = k
  open_upstream-Kept (some a) c v k =
      when_connected-Kept a _ (v a refl) (connect-Kept (smtp_host_of a) a.upstream_smtp_port c k)

  decided-Kept :
      (now : ℕ) (login : Text × Text) (r : Protector × AuthDecision) (c : Conn)
      → Kept env s c
      → FlowKept env s (decided env now login r c)
  decided-Kept now (user, token) (p, d) c k =
      if_cases (FlowKept env s) d.is_allowed _ _
        (λ e.
          open_upstream-Kept (verify_agent_login env.verify_password user token env.db) _
            (λ a f. (user, token, f)) k)
        (λ e. k)

  abbrev CredentialsKept : Option ((Text × Text) × Conn) → Type 0
  CredentialsKept none = Unit
  CredentialsKept (some (login, c)) = Kept env s c

  mechanism-Kept :
      (plain login : Bool) (p q : (Text × Text) × Conn)
      → Kept env s p.1
      → Kept env s q.1
      → CredentialsKept (if plain then some p else if login then some q else none)
  mechanism-Kept true login p q k l = k
  mechanism-Kept false true p q k l = l
  mechanism-Kept false false p q k l = tt

  credentials-Kept :
      (parts : List Text) (c : Conn) → Kept env s c → CredentialsKept (credentials env parts c)
  unfolding credentials
  credentials-Kept [] c k = tt
  credentials-Kept (auth ∷ []) c k = tt
  credentials-Kept (auth ∷ mech ∷ []) c k =
      mechanism-Kept (same (upper env.uni mech) (codes "PLAIN"))
        (same (upper env.uni mech) (codes "LOGIN")) (plain_prompted env c) (login_prompted env c) k
        k
  credentials-Kept (auth ∷ mech ∷ initial ∷ more) c k =
      mechanism-Kept (same (upper env.uni mech) (codes "PLAIN"))
        (same (upper env.uni mech) (codes "LOGIN"))
        (or_blank (decode_sasl_plain env.uni env.b64decode initial), c) (login_prompted env c) k k

  authenticate-Kept :
      (now : ℕ) (o : Option ((Text × Text) × Conn)) (c : Conn)
      → CredentialsKept o
      → Ready env s c
      → FlowKept env s (authenticate env now o c)
  unfolding authenticate
  authenticate-Kept now none c k r = r
  authenticate-Kept now (some (login, c')) c k r =
      decided-Kept now login
        (start_attempt env.uni env.limits now env.ip (or_unknown login.0) c'.protector) c' k

  pub handle_auth-Kept :
      (now : ℕ) (parts : List Text) (c : Conn)
      → Ready env s c
      → FlowKept env s (handle_auth env now parts c)
  unfolding handle_auth
  handle_auth-Kept now parts c r = authenticate-Kept now _ c (credentials-Kept parts c r.0) r
