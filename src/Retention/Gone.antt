-- ===== src/Retention/Gone.antt =====
-- What a purge leaves of the account, and of the others.
use nuvrail.Prelude.{
  ◌&&◌, none, Option-cases, ==_iff, ℕ, ◌≡◌, sym, ◌∙◌, some, ==_refl, Bool, true, false, List, [],
  ◌∷◌, Option, any, All, arith, ◌==◌, if_cases, Bool-cases, inl, inr,
}
use nuvrail.Prelude.Text.{Text, one_of, same, same_iff, same_refl}
use nuvrail.Audit.Record.{Row}
use nuvrail.Staging.Store.{Message, Operation, Revert}
use nuvrail.Mailbox.Folders.{Folder}
use nuvrail.Agent.{Account, AgentCredential}
use nuvrail.Retention.{
  Tables, is_user, delete_where, agent_ids, is_among, op_ids, folder_ids, purge_user,
}

module _ {ℓ} {A : Type ℓ} (test : A → Bool) where
  All-delete_where : (xs : List A) → All (λ x. test x ≡ false) (delete_where test xs)
  unfolding delete_where
  All-delete_where [] = tt
  All-delete_where (x ∷ xs) =
      if_cases (All (λ y. test y ≡ false)) (test x) (delete_where test xs)
        (x ∷ delete_where test xs) (λ e. All-delete_where xs) (λ e. (e, All-delete_where xs))

  All-subset {κ} : (P : A → Type κ) (xs : List A) → All P xs → All P (delete_where test xs)
  unfolding delete_where
  All-subset P [] h = tt
  All-subset P (x ∷ xs) (p, h) =
      if_cases (All P) (test x) (delete_where test xs) (x ∷ delete_where test xs)
        (λ e. All-subset P xs h) (λ e. (p, All-subset P xs h))

All-map {ℓ κ μ} :
    {A : Type ℓ} {P : A → Type κ} {Q : A → Type μ} (f : (x : A) → P x → Q x) (xs : List A)
    → All P xs
    → All Q xs
All-map f [] h = tt
All-map f (x ∷ xs) (p, h) = (f x p, All-map f xs h)

-- A row of one of the agents has its id in the list.
abbrev Listed : List ℕ → List Text → Operation → Type 0
Listed agents ids r = is_among agents r.request.agent_id ≡ true → one_of r.id ids ≡ true

one_of-more : (t u : Text) (ids : List Text) → one_of t ids ≡ true → one_of t (u ∷ ids) ≡ true
unfolding one_of
one_of-more t u ids h = ground arith

one_of-first : (t : Text) (ids : List Text) → one_of t (t ∷ ids) ≡ true
unfolding one_of
one_of-first t ids = ground (arith, same_refl t)

op_ids-Listed :
    (agents : List ℕ) (rows : List Operation) → All (Listed agents (op_ids agents rows)) rows
unfolding op_ids
op_ids-Listed agents [] = tt
op_ids-Listed agents (r ∷ rows) =
    let rest = op_ids-Listed agents rows in
    if_cases (λ ids. All (Listed agents ids) (r ∷ rows)) (is_among agents r.request.agent_id)
      (r.id ∷ op_ids agents rows) (op_ids agents rows)
      (λ e. (
        λ h. one_of-first r.id (op_ids agents rows),
        All-map (λ q l h. one_of-more q.id r.id (op_ids agents rows) (l h)) rows rest,
      ))
      (λ e. (λ h. absurd (ground arith), rest))

agent_ids-any :
    (user : ℕ) (agents : List AgentCredential)
    → All
        (λ (a : AgentCredential).
          (a.user_id == user) ≡ true → any (λ i. i == a.id) (agent_ids user agents) ≡ true)
        agents
unfolding agent_ids
agent_ids-any user [] = tt
agent_ids-any user (a ∷ agents) =
    if_cases
      (λ ids.
        All (λ (b : AgentCredential). (b.user_id == user) ≡ true → any (λ i. i == b.id) ids ≡ true)
          (a ∷ agents))
      (a.user_id == user) (a.id ∷ agent_ids user agents) (agent_ids user agents)
      (λ e. (
        λ h. ground (arith, ==_refl a.id),
        All-map (λ b l h. ground (arith, l h)) agents (agent_ids-any user agents),
      ))
      (λ e. (λ h. absurd (ground arith), agent_ids-any user agents))

folder_ids-any :
    (user : ℕ) (fs : List Folder)
    → All
        (λ (f : Folder).
          (f.user_id == user) ≡ true → any (λ i. i == f.id) (folder_ids user fs) ≡ true)
        fs
unfolding folder_ids
folder_ids-any user [] = tt
folder_ids-any user (f ∷ fs) =
    if_cases
      (λ ids.
        All (λ (g : Folder). (g.user_id == user) ≡ true → any (λ i. i == g.id) ids ≡ true) (f ∷ fs))
      (f.user_id == user) (f.id ∷ folder_ids user fs) (folder_ids user fs)
      (λ e. (
        λ h. ground (arith, ==_refl f.id),
        All-map (λ g l h. ground (arith, l h)) fs (folder_ids-any user fs),
      ))
      (λ e. (λ h. absurd (ground arith), folder_ids-any user fs))

-- The operation is one of the agent.
abbrev pub is_of : AgentCredential → Operation → Bool
is_of a r = elim r.request.agent_id [ none ↦ false | some i ↦ i == a.id ]

-- Nothing of the account is left in these tables: no row of it, no operation of one of the agents that
-- it had, no revert of an operation that such an agent had, and no message of a folder that it had.
pub record IsGone (user : ℕ) (s t : Tables) : Type 0 where
  pub users : All (λ (u : Account). (u.id == user) ≡ false) t.users
  pub agents : All (λ (a : AgentCredential). (a.user_id == user) ≡ false) t.agents
  pub operations :
      All
        (λ (a : AgentCredential).
          All (λ (r : Operation). (a.user_id == user && is_of a r) ≡ false) t.state.operations)
        s.agents
  pub reverts :
      All
        (λ (a : AgentCredential).
          All
            (λ (r : Operation).
              All
                (λ (v : Revert).
                  (a.user_id == user && is_of a r && same v.operation_id r.id) ≡ false)
                t.state.pending_reverts)
            s.state.operations)
        s.agents
  pub audit : All (λ (r : Row). is_user user r.user_id ≡ false) t.state.log.rows
  pub messages :
      All
        (λ (f : Folder).
          All
            (λ (m : Message). (f.user_id == user && m.folder_id == f.id) ≡ false)
            t.state.messages)
        s.folders.rows
  pub folders : All (λ (f : Folder). (f.user_id == user) ≡ false) t.folders.rows
  pub rules : All (λ (o : Option ℕ). is_user user o ≡ false) t.rules
  pub subscriptions : All (λ (o : Option ℕ). is_user user o ≡ false) t.subscriptions

unlisted :
    (agents : List ℕ) (ids : List Text) (rows : List Operation)
    → All (Listed agents ids) rows
    → All (λ (r : Operation). one_of r.id ids ≡ false) rows
    → All (λ (r : Operation). is_among agents r.request.agent_id ≡ false) rows
unlisted agents ids [] l h = tt
unlisted agents ids (r ∷ rows) (l, ls) (h, hs) = (
  elim (Bool-cases (is_among agents r.request.agent_id)) [
    | inl e ↦ absurd (ground (arith, sym h ∙ l e))
    | inr e ↦ e
  ],
  unlisted agents ids rows ls hs,
)

is_of-is_among :
    (a : AgentCredential) (r : Operation) (ids : List ℕ)
    → any (λ i. i == a.id) ids ≡ true
    → is_of a r ≡ true
    → is_among ids r.request.agent_id ≡ true
is_of-is_among a r ids h o = elim (Option-cases r.request.agent_id) [
  | inl e ↦ absurd (ground arith)
  | inr (i, e) ↦ let same_agent : i ≡ a.id = ground arith in rw e (rw same_agent h)
]

operations-gone :
    (user : ℕ) (ids : List ℕ) (a : AgentCredential) (rows : List Operation)
    → ((a.user_id == user) ≡ true → any (λ i. i == a.id) ids ≡ true)
    → All (λ (r : Operation). is_among ids r.request.agent_id ≡ false) rows
    → All (λ (r : Operation). (a.user_id == user && is_of a r) ≡ false) rows
operations-gone user ids a rows h gone =
    All-map (λ r n. ground (arith, n, h, is_of-is_among a r ids)) rows gone

reverts-gone :
    (user : ℕ) (agents : List ℕ) (a : AgentCredential) (ids : List Text) (rows : List Operation)
    (vs : List Revert)
    → ((a.user_id == user) ≡ true → any (λ i. i == a.id) agents ≡ true)
    → All (Listed agents ids) rows
    → All (λ (v : Revert). one_of v.operation_id ids ≡ false) vs
    → All
        (λ (r : Operation).
          All
            (λ (v : Revert). (a.user_id == user && is_of a r && same v.operation_id r.id) ≡ false)
            vs)
        rows
reverts-gone user agents a ids rows vs h listed gone =
    All-map
      (λ r l.
        All-map
          (λ v n.
            let same_id : same v.operation_id r.id ≡ true → one_of r.id ids ≡ false =
              λ e. rw (← (same_iff v.operation_id r.id).0 e) n in
            ground (arith, same_id, l, h, is_of-is_among a r agents))
          vs gone)
      rows listed

messages-gone :
    (user : ℕ) (ids : List ℕ) (f : Folder) (ms : List Message)
    → ((f.user_id == user) ≡ true → any (λ i. i == f.id) ids ≡ true)
    → All (λ (m : Message). any (λ i. i == m.folder_id) ids ≡ false) ms
    → All (λ (m : Message). (f.user_id == user && m.folder_id == f.id) ≡ false) ms
messages-gone user ids f ms h gone =
    All-map
      (λ m n.
        let same_folder : (m.folder_id == f.id) ≡ true → any (λ i. i == f.id) ids ≡ false =
          λ e. rw (← (==_iff m.folder_id f.id).0 e) n in
        ground (arith, same_folder, h))
      ms gone

-- After the purge of an account, nothing of it is left in the modelled tables: not its users row, its
-- agents, folders, rules or subscriptions; no operation of an agent that it had; no revert of an
-- operation that such an agent had; no message of a folder that it had; and no audit row that carries
-- its user id.
pub purge_user-IsGone : (user : ℕ) (t : Tables) → IsGone user t (purge_user user t)
unfolding purge_user
purge_user-IsGone user t =
    let agents = agent_ids user t.agents in
    let ids = op_ids agents t.state.operations in
    let listed = op_ids-Listed agents t.state.operations in
    let rows =
      unlisted agents ids (delete_where (λ (r : Operation). one_of r.id ids) t.state.operations)
        (All-subset (λ (r : Operation). one_of r.id ids) (Listed agents ids) t.state.operations
          listed)
        (All-delete_where (λ (r : Operation). one_of r.id ids) t.state.operations) in
    let kept_reverts =
      All-delete_where (λ (v : Revert). one_of v.operation_id ids) t.state.pending_reverts in
    let kept_messages =
      All-delete_where
        (λ (m : Message). any (λ i. i == m.folder_id) (folder_ids user t.folders.rows))
        t.state.messages in
    record {
      users = All-delete_where (λ (u : Account). u.id == user) t.users;
      agents = All-delete_where (λ (a : AgentCredential). a.user_id == user) t.agents;
      operations =
          All-map (λ a l. operations-gone user agents a _ l rows) t.agents
            (agent_ids-any user t.agents);
      reverts =
          All-map (λ a l. reverts-gone user agents a ids t.state.operations _ l listed kept_reverts)
            t.agents (agent_ids-any user t.agents);
      audit = All-delete_where (λ (r : Row). is_user user r.user_id) t.state.log.rows;
      messages =
          All-map (λ f l. messages-gone user (folder_ids user t.folders.rows) f _ l kept_messages)
            t.folders.rows (folder_ids-any user t.folders.rows);
      folders = All-delete_where (λ (f : Folder). f.user_id == user) t.folders.rows;
      rules = All-delete_where (is_user user) t.rules;
      subscriptions = All-delete_where (is_user user) t.subscriptions;
    }
