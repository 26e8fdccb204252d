-- ===== src/SendRate.antt =====
-- gateway/send_rate_limiter.py: the ceilings on what an agent and an account send, counted from the
-- audit log. SQLite's JSON functions, the table of agents and the environment are arguments.
pub mod Ceiling
pub mod Examples
use nuvrail.Prelude.{
  ℕ, ◌+◌, ◌-◌, Bool, true, false, ◌&&◌, ◌||◌, List, [], ◌∷◌, Option, none, some, max, leb, ltb,
  ◌==◌, if◌then◌else◌,
}
use nuvrail.Prelude.Text.{Text, Unicode, codes, same, strip}
use nuvrail.Audit.Record.{Row}
use nuvrail.Mailbox.{ℤ, pos, negsuc, int}

pub record SendRateConfig : Type 0 where
  pub max_per_window : ℕ
  pub window_seconds : ℕ
  pub account_max_per_window : ℕ
  pub account_max_per_day : ℕ

abbrev pub day_seconds : ℕ
day_seconds = 86400

abbrev int_or : ℕ → Option ℤ → ℕ
int_or fallback none = fallback
int_or fallback (some (pos n)) = n
int_or fallback (some (negsuc n)) = fallback

-- `_int_env`: a value that is missing, blank, no number or negative gives the default.
unfoldable pub int_env : Unicode → Option Text → ℕ → ℕ
unfolding int strip same
int_env uni none fallback = fallback
int_env uni (some raw) fallback =
    if same (strip raw) [] then fallback else int_or fallback (int uni raw)

unfoldable pub load_send_rate_config : Unicode → (Text → Option Text) → SendRateConfig
unfolding int_env
load_send_rate_config uni environ = record {
  max_per_window = int_env uni (environ (codes "NUVRAIL_SEND_MAX_PER_WINDOW")) 100;
  window_seconds = max 1 (int_env uni (environ (codes "NUVRAIL_SEND_WINDOW_SECONDS")) 3600);
  account_max_per_window = int_env uni (environ (codes "NUVRAIL_ACCOUNT_SEND_MAX_PER_WINDOW")) 300;
  account_max_per_day = int_env uni (environ (codes "NUVRAIL_ACCOUNT_SEND_MAX_PER_DAY")) 1000;
}

-- json_extract(detail, '$.recipient_count'), where the detail is valid JSON that has one
abbrev pub RecipientCount : Type 0
RecipientCount = Text → Option ℕ

abbrev pub weight : RecipientCount → Option Text → ℕ
weight json none = 1
weight json (some detail) = elim (json detail) [ none ↦ 1 | some n ↦ n ]

-- a IS b
abbrev pub is_agent : Option Text → Option Text → Bool
is_agent none none = true
is_agent (some a) (some b) = same a b
is_agent none (some b) = false
is_agent (some a) none = false

abbrev pub is_smtp_send : Option Text → Bool
is_smtp_send none = false
is_smtp_send (some t) = same t (codes "smtp_send")

abbrev pub is_send : ℕ → Row → Bool
is_send since r =
    same r.event (codes "executed") && (is_smtp_send r.op_type && leb since r.timestamp)

-- The sum over the rows that pass a test.
unfoldable pub sum_sends : RecipientCount → ℕ → (Option Text → Bool) → List Row → ℕ
unfolding same
sum_sends json since who [] = 0
sum_sends json since who (r ∷ rs) =
    (if is_send since r && who r.agent_id then weight json r.detail else 0)
    + sum_sends json since who rs

unfoldable pub count_recent_sends : RecipientCount → Option Text → ℕ → List Row → ℕ
unfolding sum_sends
count_recent_sends json agent since rows = sum_sends json since (λ a. is_agent a agent) rows

-- The `user_id` of `agent_credentials`.
abbrev pub AgentOwner : Type 0
AgentOwner = Text → Option ℕ

unfoldable pub resolve_owner_user_id : AgentOwner → Option Text → Option ℕ
resolve_owner_user_id owner none = none
resolve_owner_user_id owner (some agent) = owner agent

abbrev pub is_owner : AgentOwner → ℕ → Option Text → Bool
is_owner owner user agent = elim (resolve_owner_user_id owner agent) [
  | none ↦ false
  | some u ↦ u == user
]

-- The JOIN takes the rows of every agent of the user.
unfoldable pub count_recent_sends_for_user : RecipientCount → AgentOwner → ℕ → ℕ → List Row → ℕ
unfolding sum_sends resolve_owner_user_id
count_recent_sends_for_user json owner user since rows =
    sum_sends json since (is_owner owner user) rows

pub data Scope : Type 0 where
  agent account account_daily : Scope

-- `SendRateLimitExceeded`. A count that failed is `used = none` (the code's -1); `unreadable` is the
-- error of a database in which the owner cannot be looked up.
pub data Verdict : Type 0 where
  allowed unreadable : Verdict
  exceeded : Scope → Option ℕ → ℕ → ℕ → ℕ → Verdict

-- `_check`, then the rest; the count is `none` if its query fails.
unfoldable pub check : Scope → ℕ → ℕ → ℕ → Option ℕ → Verdict → Verdict
check scope cap window requested used rest = if cap == 0 then rest else elim used [
  | none ↦ exceeded scope none requested cap window
  | some n ↦ if ltb cap (n + requested) then exceeded scope (some n) requested cap window else rest
]

-- The query on a table that may be unreadable.
abbrev pub query : (List Row → ℕ) → Option (List Row) → Option ℕ
query q none = none
query q (some rows) = some (q rows)

abbrev pub account_checks :
    RecipientCount → AgentOwner → SendRateConfig → ℕ → ℕ → Option (List Row) → Option ℕ → Verdict
account_checks json owner cfg requested now rows none = allowed
account_checks json owner cfg requested now rows (some user) =
    check account cfg.account_max_per_window cfg.window_seconds requested
      (query (count_recent_sends_for_user json owner user (now - cfg.window_seconds)) rows)
      (check account_daily cfg.account_max_per_day day_seconds requested
        (query (count_recent_sends_for_user json owner user (now - day_seconds)) rows) allowed)

-- The account's ceilings, where one is enabled and the owner can be read and is known.
abbrev pub account_part :
    RecipientCount → AgentOwner → SendRateConfig → Option Text → ℕ → ℕ → Option (List Row) → Verdict
account_part json owner cfg who requested now none = unreadable
account_part json owner cfg who requested now (some rows) =
    account_checks json owner cfg requested now (some rows) (resolve_owner_user_id owner who)

unfoldable pub enforce_send_rate :
    RecipientCount → AgentOwner → SendRateConfig → Option Text → ℕ → ℕ → Option (List Row) → Verdict
unfolding check count_recent_sends count_recent_sends_for_user resolve_owner_user_id
enforce_send_rate json owner cfg who recipient_count now rows =
    let requested = max 1 recipient_count in
    check agent cfg.max_per_window cfg.window_seconds requested
      (query (count_recent_sends json who (now - cfg.window_seconds)) rows)
      (if cfg.account_max_per_window == 0 && cfg.account_max_per_day == 0
        then allowed
        else account_part json owner cfg who requested now rows)
