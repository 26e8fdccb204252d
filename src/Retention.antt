-- ===== src/Retention.antt =====
-- gateway/retention.py: the purge of the accounts that were deleted longer ago than the retention
-- window. An error of the database is not modelled; the store of secrets is not a part of the tables.
pub mod Gone
pub mod Kept
pub mod Examples
use nuvrail.Prelude.{
  ℕ, zero, suc, ◌+◌, ◌==◌, leb, Bool, true, false, ◌&&◌, List, [], ◌∷◌, Option, none, some, any,
  length, take, map, if◌then◌else◌,
}
use nuvrail.Prelude.Text.{Text, one_of}
use nuvrail.Audit.Record.{Row}
use nuvrail.Audit.Chain.{Log}
use nuvrail.Staging.Store.{Message, Operation, Revert, State}
use nuvrail.Mailbox.Folders.{Folder, Folders}
use nuvrail.Agent.{Account, AgentCredential}

-- The tables with rows of a user; a rule and a subscription stand for the user that has them.
pub record Tables : Type 0 where
  pub users : List Account
  pub agents : List AgentCredential
  pub state : State
  pub rules : List (Option ℕ)
  pub subscriptions : List (Option ℕ)
  pub folders : Folders

abbrev pub is_user : ℕ → Option ℕ → Bool
is_user user none = false
is_user user (some u) = u == user

-- DELETE … WHERE
unfoldable pub delete_where {ℓ} : {A : Type ℓ} → (A → Bool) → List A → List A
delete_where test [] = []
delete_where test (x ∷ xs) = let rest = delete_where test xs in if test x then rest else x ∷ rest

-- SELECT id … WHERE user_id = ?
unfoldable pub agent_ids : ℕ → List AgentCredential → List ℕ
agent_ids user [] = []
agent_ids user (a ∷ agents) =
    let rest = agent_ids user agents in if a.user_id == user then a.id ∷ rest else rest

abbrev pub is_among : List ℕ → Option ℕ → Bool
is_among ids none = false
is_among ids (some a) = any (λ i. i == a) ids

unfoldable pub op_ids : List ℕ → List Operation → List Text
op_ids agents [] = []
op_ids agents (r ∷ rows) =
    let rest = op_ids agents rows in
    if is_among agents r.request.agent_id then r.id ∷ rest else rest

unfoldable pub folder_ids : ℕ → List Folder → List ℕ
folder_ids user [] = []
folder_ids user (f ∷ fs) =
    let rest = folder_ids user fs in if f.user_id == user then f.id ∷ rest else rest

abbrev pub purge_state : ℕ → List Text → List ℕ → State → State
purge_state user ops folders s = record s {
  pending_reverts = delete_where (λ (r : Revert). one_of r.operation_id ops) s.pending_reverts;
  operations = delete_where (λ (r : Operation). one_of r.id ops) s.operations;
  log = record s.log { rows = delete_where (λ (r : Row). is_user user r.user_id) s.log.rows };
  messages = delete_where (λ (m : Message). any (λ i. i == m.folder_id) folders) s.messages;
}

-- `_purge_user`
unfoldable pub purge_user : ℕ → Tables → Tables
unfolding delete_where agent_ids op_ids folder_ids one_of
purge_user user t = record {
  users = delete_where (λ (u : Account). u.id == user) t.users;
  agents = delete_where (λ (a : AgentCredential). a.user_id == user) t.agents;
  state =
      purge_state user (op_ids (agent_ids user t.agents) t.state.operations)
        (folder_ids user t.folders.rows) t.state;
  rules = delete_where (is_user user) t.rules;
  subscriptions = delete_where (is_user user) t.subscriptions;
  folders = record t.folders {
    rows = delete_where (λ (f : Folder). f.user_id == user) t.folders.rows;
  };
}

-- The deletion is as old as the window.
abbrev pub is_past : ℕ → ℕ → Option ℕ → Bool
is_past now window none = false
is_past now window (some at) = leb (at + window) now

abbrev deleted_before : Option ℕ → Option ℕ → Bool
deleted_before none t = true
deleted_before (some d) none = false
deleted_before (some d) (some t) = leb d t

-- ORDER BY deleted_at
unfoldable pub insert_deleted : Account → List Account → List Account
insert_deleted u [] = u ∷ []
insert_deleted u (v ∷ us) =
    let rest = insert_deleted u us in
    if deleted_before u.deleted_at v.deleted_at then u ∷ v ∷ us else v ∷ rest

unfoldable pub purgeable : ℕ → ℕ → List Account → List Account
unfolding insert_deleted
purgeable now window [] = []
purgeable now window (u ∷ us) =
    let rest = purgeable now window us in
    if is_past now window u.deleted_at then insert_deleted u rest else rest

-- `_BATCH_SIZE`
abbrev batch_size : ℕ
batch_size = 100

unfoldable pub find_purgeable_users : ℕ → ℕ → List Account → List ℕ
unfolding purgeable
find_purgeable_users now window users =
    map (λ (u : Account). u.id) (take batch_size (purgeable now window users))

unfoldable pub purge_all : List ℕ → Tables → Tables
unfolding purge_user
purge_all [] t = t
purge_all (u ∷ users) t = purge_all users (purge_user u t)

-- The tables, and how many accounts were purged.
unfoldable pub purge_expired_deleted_users : ℕ → ℕ → Tables → Tables × ℕ
unfolding find_purgeable_users purge_all
purge_expired_deleted_users now window t =
    let ids = find_purgeable_users now window t.users in (purge_all ids t, length ids)
