-- ===== src/Retention/Kept.antt =====
-- What a purge leaves to the accounts that are not purged.
use nuvrail.Prelude.{
  ℕ, ◌≡◌, refl, sym, ap, ◌∙◌, Bool, true, false, List, [], ◌∷◌, Option, none, some, any, All, arith,
  ◌==◌, ==_iff, if◌then◌else◌, Bool-cases, inl, inr,
}
use nuvrail.Prelude.Text.{Text, one_of, same, same_iff}
use nuvrail.Audit.Record.{Row}
use nuvrail.Staging.Store.{Operation}
use nuvrail.Mailbox.Folders.{Folder}
use nuvrail.Agent.{Account, AgentCredential}
use nuvrail.Retention.{Tables, is_user, delete_where, agent_ids, is_among, op_ids, purge_user}

-- SELECT … WHERE
unfoldable pub select_where {ℓ} : {A : Type ℓ} → (A → Bool) → List A → List A
select_where test [] = []
select_where test (x ∷ xs) = let rest = select_where test xs in if test x then x ∷ rest else rest

select-delete_where {ℓ} :
    {A : Type ℓ} (p q : A → Bool) (xs : List A)
    → All (λ x. p x ≡ true → q x ≡ false) xs
    → select_where p (delete_where q xs) ≡ select_where p xs
unfolding select_where delete_where
select-delete_where p q [] h = refl
select-delete_where p q (x ∷ xs) (e, h) = ground (arith, select-delete_where p q xs h)

All-each {ℓ κ} : {A : Type ℓ} (P : A → Type κ) → ((x : A) → P x) → (xs : List A) → All P xs
All-each P f [] = tt
All-each P f (x ∷ xs) = (f x, All-each P f xs)

-- The columns that are keys: an agent's id decides its user, and an operation's id its agent.
pub record IsKeyed (owner : ℕ → ℕ) (agent_of : Text → Option ℕ) (t : Tables) : Type 0 where
  pub agents : All (λ (a : AgentCredential). a.user_id ≡ owner a.id) t.agents
  pub operations : All (λ (r : Operation). r.request.agent_id ≡ agent_of r.id) t.state.operations

abbrev pub is_owned : (ℕ → ℕ) → ℕ → Option ℕ → Bool
is_owned owner user none = false
is_owned owner user (some a) = owner a == user

-- The rows of one account.
pub record IsKept (owner : ℕ → ℕ) (v : ℕ) (s t : Tables) : Type 0 where
  pub users :
      select_where (λ (u : Account). u.id == v) t.users
      ≡ select_where (λ (u : Account). u.id == v) s.users
  pub agents :
      select_where (λ (a : AgentCredential). a.user_id == v) t.agents
      ≡ select_where (λ (a : AgentCredential). a.user_id == v) s.agents
  pub operations :
      select_where (λ (r : Operation). is_owned owner v r.request.agent_id) t.state.operations
      ≡ select_where (λ (r : Operation). is_owned owner v r.request.agent_id) s.state.operations
  pub audit :
      select_where (λ (r : Row). is_user v r.user_id) t.state.log.rows
      ≡ select_where (λ (r : Row). is_user v r.user_id) s.state.log.rows
  pub folders :
      select_where (λ (f : Folder). f.user_id == v) t.folders.rows
      ≡ select_where (λ (f : Folder). f.user_id == v) s.folders.rows

other : (v user n : ℕ) → (v == user) ≡ false → (n == v) ≡ true → (n == user) ≡ false
other v user n h e = ground arith

other_user :
    (v user : ℕ) (o : Option ℕ) → (v == user) ≡ false → is_user v o ≡ true → is_user user o ≡ false
other_user v user none h e = refl
other_user v user (some n) h e = other v user n h e

agent_ids-owner :
    (owner : ℕ → ℕ) (user a : ℕ) (agents : List AgentCredential)
    → All (λ (c : AgentCredential). c.user_id ≡ owner c.id) agents
    → any (λ i. i == a) (agent_ids user agents) ≡ true
    → owner a ≡ user
unfolding agent_ids
agent_ids-owner owner user a [] h e = absurd (ground arith)
agent_ids-owner owner user a (c ∷ agents) (h, hs) e = elim (Bool-cases (c.user_id == user)) [
  | inl f ↦ elim (Bool-cases (c.id == a)) [
    | inl g ↦ ap owner (sym ((==_iff c.id a).0 g)) ∙ sym h ∙ (==_iff c.user_id user).0 f
    | inr g ↦ agent_ids-owner owner user a agents hs (ground arith)
  ]
  | inr f ↦ agent_ids-owner owner user a agents hs (ground arith)
]

op_ids-agent :
    (agent_of : Text → Option ℕ) (agents : List ℕ) (id : Text) (rows : List Operation)
    → All (λ (r : Operation). r.request.agent_id ≡ agent_of r.id) rows
    → one_of id (op_ids agents rows) ≡ true
    → is_among agents (agent_of id) ≡ true
unfolding op_ids one_of
op_ids-agent agent_of agents id [] h e = absurd (ground arith)
op_ids-agent agent_of agents id (r ∷ rows) (h, hs) e =
    elim (Bool-cases (is_among agents r.request.agent_id)) [
      | inl f ↦ elim (Bool-cases (same id r.id)) [
        | inl g ↦
            ap (λ t. is_among agents (agent_of t)) ((same_iff id r.id).0 g)
            ∙ ap (is_among agents) (sym h)
            ∙ f
        | inr g ↦ op_ids-agent agent_of agents id rows hs (ground arith)
      ]
      | inr f ↦ op_ids-agent agent_of agents id rows hs (ground arith)
    ]

owned-other :
    (owner : ℕ → ℕ) (v user : ℕ) (o : Option ℕ) (agents : List AgentCredential)
    → (v == user) ≡ false
    → All (λ (c : AgentCredential). c.user_id ≡ owner c.id) agents
    → is_owned owner v o ≡ true
    → is_among (agent_ids user agents) o ≡ true
    → false ≡ true
owned-other owner v user none agents n h e f = e
owned-other owner v user (some a) agents n h e f =
    ground (arith, agent_ids-owner owner user a agents h f)

kept_operations :
    (owner : ℕ → ℕ) (agent_of : Text → Option ℕ) (v user : ℕ) (agents : List AgentCredential)
    (all rows : List Operation)
    → (v == user) ≡ false
    → All (λ (c : AgentCredential). c.user_id ≡ owner c.id) agents
    → All (λ (r : Operation). r.request.agent_id ≡ agent_of r.id) all
    → All (λ (r : Operation). r.request.agent_id ≡ agent_of r.id) rows
    → All
        (λ (r : Operation).
          is_owned owner v r.request.agent_id ≡ true
          → one_of r.id (op_ids (agent_ids user agents) all) ≡ false)
        rows
kept_operations owner agent_of v user agents all [] n h ks hs = tt
kept_operations owner agent_of v user agents all (r ∷ rows) n h ks (k, hs) = (
  λ e. elim (Bool-cases (one_of r.id (op_ids (agent_ids user agents) all))) [
    | inl f ↦ absurd (
        ground (
          arith,
          owned-other owner v user r.request.agent_id agents n h e (
              ap (is_among (agent_ids user agents)) k
              ∙ op_ids-agent agent_of (agent_ids user agents) r.id all ks f),
        ))
    | inr f ↦ f
  ],
  kept_operations owner agent_of v user agents all rows n h ks hs,
)

-- The purge of one account leaves every other account what it has: its row, its agents, the operations
-- that they staged, its audit rows and its folders. The ids of agents and operations must be keys.
pub purge_user-IsKept :
    (owner : ℕ → ℕ) (agent_of : Text → Option ℕ) (user v : ℕ) (t : Tables)
    → IsKeyed owner agent_of t
    → (v == user) ≡ false
    → IsKept owner v t (purge_user user t)
unfolding purge_user
purge_user-IsKept owner agent_of user v t k n = record {
  users = select-delete_where _ _ t.users (All-each _ (λ u. other v user u.id n) t.users);
  agents = select-delete_where _ _ t.agents (All-each _ (λ a. other v user a.user_id n) t.agents);
  operations = select-delete_where _ _ t.state.operations (
      kept_operations owner agent_of v user t.agents t.state.operations t.state.operations n
        k.agents k.operations k.operations);
  audit =
      select-delete_where _ _ t.state.log.rows
        (All-each _ (λ r. other_user v user r.user_id n) t.state.log.rows);
  folders =
      select-delete_where _ _ t.folders.rows
        (All-each _ (λ f. other v user f.user_id n) t.folders.rows);
}
