-- ===== src/Agent.antt =====
-- gateway/agent_auth.py: how an agent logs in to a proxy. The base64 decoder and the bcrypt check are
-- arguments; a database is the list of the rows of `agent_credentials` and `users`.
use nuvrail.Prelude.{
  ℕ, ◌==◌, Bool, true, false, ◌&&◌, ◌||◌, List, [], ◌∷◌, ◌++◌, Option, none, some, if◌then◌else◌,
}
use nuvrail.Prelude.Text.{Text, Unicode, same, decode}

pub record Account : Type 0 where
  pub id : ℕ
  pub suspended_at : Option ℕ
  pub deleted_at : Option ℕ

pub record AgentCredential : Type 0 where
  pub id : ℕ
  pub user_id : ℕ
  pub agent_username : Text
  pub hashed_token : Text
  pub revoked_at : Option ℕ
  pub upstream_host : Text
  pub upstream_smtp_host : Option Text
  pub upstream_smtp_port : ℕ
  pub upstream_user : Text
  pub upstream_password : Option Text
  pub oauth2_provider : Option Text

pub record Accounts : Type 0 where
  pub agents : List AgentCredential
  pub users : List Account

abbrev is_null : Option ℕ → Bool
is_null none = true
is_null (some t) = false

-- The JOIN to `users`, neither suspended nor deleted
unfoldable pub is_open_account : ℕ → List Account → Bool
is_open_account id [] = false
is_open_account id (u ∷ users) =
    (u.id == id && (is_null u.suspended_at && is_null u.deleted_at)) || is_open_account id users

abbrev pub is_active : Accounts → AgentCredential → Bool
is_active db c = is_null c.revoked_at && is_open_account c.user_id db.users

unfoldable pub first_agent :
    (AgentCredential → Bool) → List AgentCredential → Option AgentCredential
first_agent test [] = none
first_agent test (c ∷ cs) = if test c then some c else first_agent test cs

-- `get_agent_credential`, with `require_active`
unfoldable pub get_agent_credential : Bool → Option ℕ → Accounts → Option AgentCredential
unfolding first_agent is_open_account
get_agent_credential require_active none db = none
get_agent_credential true (some id) db = first_agent (λ c. c.id == id && is_active db c) db.agents
get_agent_credential false (some id) db = first_agent (λ c. c.id == id) db.agents

abbrev verified : (Text → Text → Bool) → Text → Option AgentCredential → Option AgentCredential
verified verify_password token none = none
verified verify_password token (some c) =
    if verify_password token c.hashed_token then some c else none

unfoldable pub verify_agent_login :
    (Text → Text → Bool) → Text → Text → Accounts → Option AgentCredential
unfolding same first_agent is_open_account
verify_agent_login verify_password [] token db = none
verify_agent_login verify_password (c ∷ name) token db =
    verified verify_password token
      (first_agent (λ a. same a.agent_username (c ∷ name) && is_active db a) db.agents)

-- raw.split(b"\0"), with the part that has been read
unfoldable pub split_nul : List ℕ → List ℕ → List (List ℕ)
split_nul part [] = part ∷ []
split_nul part (b ∷ bytes) =
    let cut = part ∷ split_nul [] bytes in
    let go = split_nul (part ++ b ∷ []) bytes in if b == 0 then cut else go

abbrev second_and_third : Unicode → List (List ℕ) → Option (Text × Text)
second_and_third uni (authzid ∷ username ∷ password ∷ more) =
    some (decode uni username, decode uni password)
second_and_third uni _ = none

abbrev sasl_parts : Unicode → Option (List ℕ) → Option (Text × Text)
sasl_parts uni none = none
sasl_parts uni (some raw) = second_and_third uni (split_nul [] raw)

unfoldable pub decode_sasl_plain :
    Unicode → (List ℕ → Option (List ℕ)) → List ℕ → Option (Text × Text)
unfolding split_nul decode
decode_sasl_plain uni b64decode payload = sasl_parts uni (b64decode payload)
