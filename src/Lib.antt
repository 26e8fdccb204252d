-- ===== src/Lib.antt =====
-- Nuvrail: a gateway between an AI agent and a user's mail server. The agent speaks IMAP and SMTP to
-- the gateway; reads pass through, writes and messages are staged as operations that the user
-- approves, rejects or undoes, and every step is written to a hash-chained audit log.
--
-- The parts, and where they are modelled:
--
-- - Imap: the path of one command line. Line is gateway/imap_parser.py (`parse_line`,
--   `_tokenize_args`, `_skip_n_tokens`), Router is gateway/command_router.py (the verb tables,
--   `classify`, the capability and ENABLE filters), Proxy is the reading loop `_client_to_upstream` of
--   gateway/proxy.py: `handle_line` takes one line and gives the new session and what is done with the
--   line (ignored, answered, forwarded, staged). The loops over an index of the tokenizer are one pass
--   over the characters, with the loop that runs as a mode. Write is the write branch of
--   `_client_to_upstream`: Write itself has its tests and `_build_parsed_op`, Write.Stage the held
--   COPY, the snapshot and the optimistic updates, `_resolve_trash_folder` and the staging, with
--   `handle_write` for the whole branch. Append is the literal of an APPEND, and
--   `_discard_nonsync_literals`.
-- - Smtp: gateway/smtp_proxy.py. Smtp has the readers of responses, headers and addresses and
--   `_build_send_description`; Session has the state of a connection, Session.Auth the AUTH command,
--   `_connect_upstream_starttls` and `_send_smtp_rejection_notices`, Session.Command the other
--   commands and `run`, the loop of `handle_smtp_client`.
-- - Agent: gateway/agent_auth.py, the login of an agent.
-- - Operation: gateway/operation_parser.py (Describe is `build_rich_description`).
-- - Intent: gateway/intent.py (Send has the outgoing messages), and Profile is
--   gateway/provider_profiles.py.
-- - Batching: gateway/batching.py, the registry of open batches.
-- - Invite: the invite codes of gateway/state_db.py.
-- - Retention: gateway/retention.py, the purge of deleted accounts.
-- - Audit: gateway/audit.py. Record has the rows, the payload and its hash (`_compute_entry_hash`),
--   Chain has `insert_audit_event`, `get_chain_head` and `verify_audit_chain`, Anchor has the
--   append-only sink outside the database.
-- - Staging: the life of a staged operation. Store has the tables that the code shares and their SQL
--   updates (gateway/state_db.py, `update_operation_status`, `record_audit_event`), Execute is
--   `execute_operation` of gateway/execution.py, Create is `create_operation` of gateway/staging.py
--   with the automatic decision, Decide is api/routes/operations.py and the checks of gateway/undo.py,
--   of which Destination is `_load_move_destination`. Loops is one run of gateway/expiry.py and of
--   gateway/scheduler.py. Lifecycle puts them together as commands that run one after the other.
-- - Mailbox: the UID sets, the snapshot and the optimistic updates of gateway/state_db.py; Folders
--   has its table of folders.
-- - SendRate: gateway/send_rate_limiter.py; Staging.Execute asks it before a send.
-- - AuthAbuse: `AuthAbuseProtector` of gateway/security_controls.py, which both proxies and the API ask
--   at a login.
--
-- State is passed explicitly: a handler is a function from the state to the new state and its reply. An
-- error of Python is a value (`Option`, `Executed`, `Reply`). A request or a loop run is carried to its
-- end before the next begins; the steps inside are in the order of the code, but two requests that
-- interleave are not modelled. Texts are lists of code points and bytes are natural numbers; Unicode's
-- tables and UTF-8 beyond ASCII are the parameter `Unicode`. Times and ids are natural numbers, where a
-- subtraction that would be negative meets a comparison that it leaves unchanged.
--
-- Parameters: SHA-256 (`Sha256`: no collision, digests of hexadecimal digits), the rules engine
-- (`Provider`, a plug-in that the open core does not have), the table of agents (`Owner`,
-- `AgentOwner`), SQLite's JSON functions (`RecipientCount`), what the mail server, the relay and the
-- credential store answer (`Attempt`, `Inverse`), `json.loads` of an audit detail (`Loads`), and what an SMTP connection runs in (`Env`: base64,
-- bcrypt, the tables of agents and users, the OAuth2 token, and `respond`, the lines that the mail
-- server sends once something was written to it).
--
-- Loops are structural recursion, with four fuels: that of `decimal`, one more than the number, which
-- is proved to suffice by reading the digits back; that of `strip_rounds`, the length of the subject,
-- which is enough because each prefix has characters; that of `discard_nonsync_literals`, one more than
-- the input has bytes, since each round reads one at least; and that of `run`, the number of commands that a
-- client sends, over which the theorems are general.
--
-- An SMTP envelope holds what is relayed; the rendered body and the preview, which are display only,
-- and the context of the original message are left out of it.
--
-- Not modelled: sockets, TLS, timers, logging, a write to a connection that fails, the server-to-agent
-- pump, migrations, the credential store, notifications, the web client.

pub mod Prelude
pub mod Imap
pub mod Audit
pub mod Staging
pub mod Mailbox
pub mod SendRate
pub mod AuthAbuse
pub mod Operation
pub mod Intent
pub mod Batching
pub mod Agent
pub mod Smtp
pub mod Invite
pub mod Retention
