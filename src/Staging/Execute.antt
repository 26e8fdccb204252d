-- ===== src/Staging/Execute.antt =====
-- `execute_operation` of gateway/execution.py: the errors before a send, the limiter, the states and
-- audit rows that are written. What the credential store and the mail server answer is an argument,
-- `Attempt`; building the message and decrypting the password are left to it.
use nuvrail.Prelude.{
  ℕ, Bool, true, false, ◌&&◌, ◌||◌, List, [], ◌∷◌, ◌++◌, Option, none, some, length, if◌then◌else◌,
}
use nuvrail.Prelude.Text.{Text, codes, same}
use nuvrail.Audit.Record.{Sha256, decimal}
use nuvrail.Staging.Store.{
  executed, failed, Operation, State, Envelope, get_row, update_where, update_operation_status,
  agent_text, audit,
}
use nuvrail.SendRate.{
  SendRateConfig, RecipientCount, AgentOwner, Verdict, allowed, unreadable, exceeded,
  enforce_send_rate,
}

-- The answer of the mail server: done, with the audit detail of an IMAP replay and whether the
-- trash destination was given up; or an error, with the audit detail that reports it.
pub data Upstream : Type 0 where
  done : Option Text → Bool → Upstream
  broken : Text → Text → Upstream

-- What `get_agent_credential` finds: the row of an agent that is not revoked.
pub record Credential : Type 0 where
  pub is_oauth2 : Bool
  pub upstream_password : Option Text

-- `report` gives the message of `SendRateLimitExceeded` (or of the database error) and the audit
-- detail.
pub record Attempt : Type 0 where
  pub credential : Option Credential
  -- NUVRAIL_TEST_SMTP_HOST
  pub test_smtp_host : Text
  pub recipient_count : RecipientCount
  pub owner : AgentOwner
  pub config : SendRateConfig
  -- whether the audit log can be read for the count
  pub is_readable : Bool
  pub report : Verdict → Text × Text
  pub upstream : Upstream

-- An `ExecutionError`, or the `executed_at` that is returned.
pub data Executed : Type 0 where
  ok : Option ℕ → Executed
  error : Text → Executed

abbrev pub recipients_of : Option Envelope → List Text
recipients_of none = []
recipients_of (some e) = e.recipients

-- json.dumps({"recipient_count": n})
unfoldable pub sent_detail : ℕ → Text
sent_detail n = codes "{\"recipient_count\": " ++ (decimal n ++ codes "}")

-- `_record_execution_failure`
unfoldable pub record_execution_failure :
    Sha256 → ℕ → Text → Operation → Text → Text → State → State
record_execution_failure sha now id row message detail s =
    audit sha now (codes "execution_failed") (codes "system") id row (some detail)
      (update_operation_status now id failed (codes "human") (some message) s)

-- `_clear_folder_to`
unfoldable pub clear_folder_to : Text → State → State
clear_folder_to id s = record s {
  operations =
      update_where id (λ r. record r { request = record r.request { folder_to = none } })
        s.operations;
}

abbrev clear_if : Bool → Text → State → State
clear_if true id s = clear_folder_to id s
clear_if false id s = s

abbrev executed_at_of : Option Operation → Executed
executed_at_of none = ok none
executed_at_of (some r) = ok r.executed_at

-- The mail server has carried the operation out.
abbrev replayed : Text → State → State
replayed id s = record s { upstream = s.upstream ++ id ∷ [] }

-- The execution has succeeded: the status, then the audit row under the actor's name.
unfoldable pub mark_executed :
    Sha256 → ℕ → Text → Operation → Text → Option Text → State → State × Executed
mark_executed sha now id row actor detail s =
    let s' =
      audit sha now (codes "executed") actor id row detail
        (update_operation_status now id executed (codes "human") none s) in
    (s', executed_at_of (get_row id s'.operations))

abbrev relay_error : Bool → Text → Text
relay_error true message = codes "SMTP relay failed: " ++ message
relay_error false message = codes "IMAP execution failed: " ++ message

-- The call of the mail server; the flag is `protocol == "smtp"`.
unfoldable pub replay :
    Sha256 → ℕ → Text → Operation → Text → Bool → Upstream → State → State × Executed
replay sha now id row actor smtp (broken message detail) s =
    (record_execution_failure sha now id row message detail s, error (relay_error smtp message))
replay sha now id row actor true (done detail cleared) s =
    mark_executed sha now id row actor
      (some (sent_detail (length (recipients_of row.request.smtp_envelope)))) (replayed id s)
replay sha now id row actor false (done detail cleared) s =
    mark_executed sha now id row actor detail (replayed id (clear_if cleared id s))

unfoldable pub send_limited :
    Sha256
    → ℕ
    → Text
    → Operation
    → Text
    → (Verdict → Text × Text)
    → Verdict
    → Upstream
    → State
    → State × Executed
send_limited sha now id row actor report allowed up s = replay sha now id row actor true up s
send_limited sha now id row actor report unreadable up s = (s, error (report unreadable).0)
send_limited sha now id row actor report (exceeded scope used requested cap window) up s =
    let (message, detail) = report (exceeded scope used requested cap window) in
    (
      audit sha now (codes "send_rate_exceeded") (codes "system") id row (some detail)
          (update_operation_status now id failed (codes "human") (some message) s),
      error message,
    )

abbrev quoted_id : Text → Text → Text → Text
quoted_id before id behind = before ++ (id ++ behind)

abbrev need_recipients : Text → List Text → Option Text
need_recipients id [] =
    some (quoted_id (codes "Operation ") id (codes " has no recipients in the staged envelope."))
need_recipients id (r ∷ rs) = none

abbrev has_password : Option Text → Bool
has_password none = false
has_password (some []) = false
has_password (some (c ∷ s)) = true

-- The credential, and the fallback of an operation that has no agent.
abbrev pub need_credential : Text → Option ℕ → Option Credential → Text → List Text → Option Text
need_credential id agent (some cred) host to =
    if cred.is_oauth2 || has_password cred.upstream_password
    then need_recipients id to
    else some (
        quoted_id (codes "Agent for operation ") id
          (codes " has no upstream_password. Re-add the agent credentials."))
need_credential id (some agent) none host to = some (
    codes "Agent "
    ++ (decimal agent
        ++ quoted_id (codes " for operation ") id
            (codes " is revoked or its account is suspended — refusing to execute.")))
need_credential id none none host to =
    if same host []
    then some
        (quoted_id (codes "Operation ") id (codes " has no agent_id and no fallback env vars set"))
    else need_recipients id to

-- The message of an `ExecutionError` that is raised before the limiter is asked.
abbrev pub preflight : Text → Operation → Attempt → Option Text
preflight id row a =
    need_credential id row.request.agent_id a.credential a.test_smtp_host
      (recipients_of row.request.smtp_envelope)

abbrev pub send_rate : ℕ → Operation → Attempt → State → Verdict
send_rate now row a s =
    enforce_send_rate a.recipient_count a.owner a.config (agent_text row.request.agent_id)
      (length (recipients_of row.request.smtp_envelope)) now
      (if a.is_readable then some s.log.rows else none)

-- A preflight refusal writes nothing.
unfoldable pub send_checked :
    Sha256 → ℕ → Text → Operation → Text → Attempt → Option Text → State → State × Executed
send_checked sha now id row actor a (some message) s = (s, error message)
send_checked sha now id row actor a none s =
    send_limited sha now id row actor a.report (send_rate now row a s) a.upstream s

abbrev pub is_blank : Option Text → Bool
is_blank none = true
is_blank (some []) = true
is_blank (some (c ∷ s)) = false

-- An APPEND whose message was not stored: `_execute_imap_upstream` returns before it asks for
-- credentials or a connection.
abbrev pub is_bodyless : Operation → Bool
is_bodyless row = same row.request.op_type (codes "append") && is_blank row.request.append_message

unfoldable pub execute_operation :
    Sha256 → ℕ → Text → Operation → Text → Attempt → State → State × Executed
execute_operation sha now id row actor a s =
    if same row.request.protocol (codes "smtp")
    then send_checked sha now id row actor a (preflight id row a) s
    else if is_bodyless row
    then mark_executed sha now id row actor none s
    else replay sha now id row actor false a.upstream s
