-- ===== src/Retention/Examples.antt =====
-- Two accounts with an agent and a folder each, the first of which is purged.
use nuvrail.Prelude.{ℕ, ◌+◌, refl, [], ◌∷◌, Option, none, some}
use nuvrail.Prelude.Text.{Text, codes}
use nuvrail.Staging.Store.{Operation}
use nuvrail.Staging.Create.{staged_row}
use nuvrail.Staging.Examples.{move_request}
use nuvrail.Mailbox.Examples.{inbox}
use nuvrail.Agent.{AgentCredential}
use nuvrail.Retention.{Tables, purge_user}
use nuvrail.Retention.Gone.{IsGone, purge_user-IsGone}
use nuvrail.Retention.Kept.{IsKeyed, IsKept, purge_user-IsKept}

abbrev agent : ℕ → ℕ → AgentCredential
agent id user = record {
  id = id;
  user_id = user;
  agent_username = codes "bot";
  hashed_token = codes "secret";
  revoked_at = none;
  upstream_host = codes "mail.example.com";
  upstream_smtp_host = none;
  upstream_smtp_port = 587;
  upstream_user = codes "ann@example.com";
  upstream_password = none;
  oauth2_provider = none;
}

abbrev row : Text → Operation
row id = staged_row 100 id move_request

abbrev tables : Tables
tables = record {
  users =
      (record { id = 7; suspended_at = none; deleted_at = some 10 })
      ∷ (record { id = 8; suspended_at = none; deleted_at = none })
      ∷ [];
  agents = agent 3 7 ∷ agent 4 8 ∷ [];
  state = record {
    operations = row (codes "op_a") ∷ [];
    messages = inbox;
    pending_reverts = [];
    log = record { rows = []; next_id = 1 };
    upstream = [];
  };
  rules = some 7 ∷ none ∷ [];
  subscriptions = [];
  folders = record {
    rows =
        (record { id = 1; user_id = 7; name = codes "INBOX"; special_use = none; last_synced = 0 })
        ∷ (record {
          id = 2;
          user_id = 8;
          name = codes "INBOX";
          special_use = none;
          last_synced = 0;
        })
        ∷ [];
    next_id = 3;
  };
}

purge_user-IsGone_example : IsGone 7 tables (purge_user 7 tables)
purge_user-IsGone_example = purge_user-IsGone 7 tables

-- Agent 3 is of user 7, agent 4 of user 8.
abbrev owner : ℕ → ℕ
owner agent = agent + 4

abbrev agent_of : Text → Option ℕ
agent_of id = move_request.agent_id

tables-IsKeyed : IsKeyed owner agent_of tables
unfolding staged_row
tables-IsKeyed = record { agents = (refl, (refl, tt)); operations = (refl, tt) }

purge_user-IsKept_example : IsKept owner 8 tables (purge_user 7 tables)
purge_user-IsKept_example = purge_user-IsKept owner agent_of 7 8 tables tables-IsKeyed refl
