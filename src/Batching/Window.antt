-- ===== src/Batching/Window.antt =====
-- The registry of batches, call by call: which calls share a batch.
use nuvrail.Prelude.{
  ℕ, ◌≡◌, ◌↔◌, refl, sym, ap, ◌∙◌, true, false, List, [], ◌∷◌, Option, none, some, All, ◌≤◌, ◌+◌,
  ◌-◌, ltb, arith, if◌then◌else◌, if_cases, ==_iff, Bool-cases, inl, inr,
}
use nuvrail.Prelude.Text.{Text, same_iff, same_refl}
use nuvrail.Batching.{
  Key, Batch, same_agent, same_key, is_open, new_batch, batch_of, put_batch, open_new, get_or_open,
  get_or_create_batch,
}

same_agent_iff : (a b : Option ℕ) → (same_agent a b ≡ true) ↔ (a ≡ b)
same_agent_iff none none = ground arith
same_agent_iff none (some b) = ground arith
same_agent_iff (some a) none = ground arith
same_agent_iff (some a) (some b) = ground (arith, ==_iff a b)

same_key→eq : (a b : Key) → same_key a b ≡ true → a ≡ b
unfolding same_key
same_key→eq a b h =
    let f : a.folder ≡ b.folder = (same_iff a.folder b.folder).0 (ground arith) in
    let p : a.protocol ≡ b.protocol = (same_iff a.protocol b.protocol).0 (ground arith) in
    let g : a.agent_id ≡ b.agent_id = (same_agent_iff a.agent_id b.agent_id).0 (ground arith) in cc

same_key_refl : (a : Key) → same_key a a ≡ true
unfolding same_key
same_key_refl a =
    ground (
      arith,
      same_refl a.folder,
      same_refl a.protocol,
      (same_agent_iff a.agent_id a.agent_id).1 refl,
    )

not_same :
    (a b k : Key) → same_key a b ≡ false → same_key a k ≡ true → same_key b k ≡ true → false ≡ true
not_same a b k e f g =
    let ab : a ≡ b = same_key→eq a k f ∙ sym (same_key→eq b k g) in
    sym e ∙ ap (λ q. same_key a q) (sym ab) ∙ same_key_refl a

batch_of-put_batch :
    (k : Key) (b : Batch) (cs : List Batch)
    → batch_of k (put_batch b cs) ≡ (if same_key b.key k then some b else batch_of k cs)
unfolding batch_of put_batch
batch_of-put_batch k b [] = refl
batch_of-put_batch k b (c ∷ cs) = elim (Bool-cases (same_key c.key b.key)) [
  | inl e ↦
      let f : same_key c.key k ≡ same_key b.key k =
        ap (λ q. same_key q k) (same_key→eq c.key b.key e) in
      ground arith
  | inr e ↦ elim (Bool-cases (same_key c.key k)) [
    | inl f ↦ elim (Bool-cases (same_key b.key k)) [
      | inl g ↦ absurd (ground (arith, not_same c.key b.key k e f g))
      | inr g ↦ ground arith
    ]
    | inr f ↦ ground (arith, batch_of-put_batch k b cs)
  ]
]

get_or_open-other :
    (id : Text) (now : ℕ) (key : Key) (w : ℕ) (k : Key) (bs : List Batch) (o : Option Batch)
    → same_key key k ≡ false
    → batch_of k (get_or_open id now key w bs o).0 ≡ batch_of k bs
get_or_open-other id now key w k bs none ne =
    rw (batch_of-put_batch k (new_batch id now key w) bs, ne) refl
get_or_open-other id now key w k bs (some b) ne =
    if_cases (λ (r : List Batch × Text). batch_of k r.0 ≡ batch_of k bs) (is_open now b) (bs, b.id)
      (open_new id now key w bs) (λ e. refl)
      (λ e. rw (batch_of-put_batch k (new_batch id now key w) bs, ne) refl)

-- A call of `get_or_create_batch`: the id that it would give a new batch, the time, and its arguments.
pub record Call : Type 0 where
  pub id : Text
  pub now : ℕ
  pub key : Key
  pub window_seconds : ℕ

abbrev pub call_all : List Call → List Batch → List Batch
call_all [] bs = bs
call_all (c ∷ cs) bs = call_all cs (get_or_create_batch c.id c.now c.key c.window_seconds bs).0

call_all-other :
    (k : Key) (cs : List Call) (bs : List Batch)
    → All (λ (c : Call). same_key c.key k ≡ false) cs
    → batch_of k (call_all cs bs) ≡ batch_of k bs
unfolding get_or_create_batch
call_all-other k [] bs h = refl
call_all-other k (c ∷ cs) bs h =
    call_all-other k cs _ h.1
    ∙ get_or_open-other c.id c.now c.key c.window_seconds k bs (batch_of c.key bs) h.0

opened-batch_of :
    (id : Text) (now : ℕ) (k : Key) (w : ℕ) (bs : List Batch)
    → batch_of k bs ≡ none
    → get_or_create_batch id now k w bs ≡ open_new id now k w bs
unfolding get_or_create_batch
opened-batch_of id now k w bs e = ap (get_or_open id now k w bs) e

get_or_open-again :
    (id other : Text) (t now : ℕ) (k : Key) (w w' : ℕ) (bs : List Batch)
    → t ≤ now
    → batch_of k bs ≡ some (new_batch id t k w)
    → (get_or_create_batch other now k w' bs).1 ≡ (if ltb now (t + w) then id else other)
unfolding get_or_create_batch
get_or_open-again id other t now k w w' bs later e =
    let same_test : ltb (now - t) w ≡ ltb now (t + w) = ground arith in
    elim (Bool-cases (ltb now (t + w))) [
      | inl h ↦ rw (e, same_test, h) refl
      | inr h ↦ rw (e, same_test, h) refl
    ]

-- Operations are batched by folder, protocol and agent for the length of a window. The first call for
-- a key that has no batch returns its new id. Whatever calls for other keys follow, the next call
-- for the key, at a time not before the first, returns the id of the first while less than the window
-- of the first has passed, and its own new id from then on.
pub get_or_create_batch_lem :
    (id other : Text) (t now : ℕ) (k : Key) (w w' : ℕ) (cs : List Call) (bs : List Batch)
    → batch_of k bs ≡ none
    → All (λ (c : Call). same_key c.key k ≡ false) cs
    → t ≤ now
    → ((get_or_create_batch id t k w bs).1 ≡ id)
      × ((get_or_create_batch other now k w' (call_all cs (get_or_create_batch id t k w bs).0)).1
          ≡ (if ltb now (t + w) then id else other))
get_or_create_batch_lem id other t now k w w' cs bs new h later =
    let opened = opened-batch_of id t k w bs new in
    let b = new_batch id t k w in
    (
      ap (λ (r : List Batch × Text). r.1) opened,
      get_or_open-again id other t now k w w' (call_all cs (get_or_create_batch id t k w bs).0)
          later
          (call_all-other k cs (get_or_create_batch id t k w bs).0 h
            ∙ ap (λ (r : List Batch × Text). batch_of k r.0) opened
            ∙ batch_of-put_batch k b bs
            ∙ rw (same_key_refl k) refl),
    )
