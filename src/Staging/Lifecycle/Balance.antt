-- ===== src/Staging/Lifecycle/Balance.antt =====
-- How often an operation was replayed on the mail server, against its status.
use nuvrail.Prelude.{
  ℕ, ◌+◌, ◌≡◌, not, ◌&&◌, All, refl, Bool, true, false, List, [], ◌∷◌, ◌++◌, Option, none, some,
  if◌then◌else◌, arith,
}
use nuvrail.Prelude.Text.{Text, codes, same, same_iff}
use nuvrail.Staging.Store.{
  Status, executed, reverted, Operation, Request, State, get_row, update_where, set_status,
}
use nuvrail.Staging.Store.Rows.{mapped, KeepsId, get_row-update_where}

abbrev pub count : Text → List Text → ℕ
count k [] = 0
count k (x ∷ xs) = (if same x k then 1 else 0) + count k xs

-- Executed once, and since then at most undone.
abbrev pub times : Status → ℕ
times executed = 1
times reverted = 1
times _ = 0

abbrev pub replays : Option Operation → ℕ
replays none = 0
replays (some r) = times r.status

abbrev pub has_no_body : Option Text → Bool
has_no_body none = true
has_no_body (some []) = true
has_no_body (some (c ∷ s)) = false

-- An APPEND over IMAP for which no message was stored: there is nothing to replay.
abbrev pub is_skipped : Request → Bool
is_skipped r =
    not (same r.protocol (codes "smtp"))
    && same r.op_type (codes "append")
    && has_no_body r.append_message

-- An operation that is skipped was never replayed, any other as often as its status says.
pub record Balanced (skip : Text → Bool) (rows : List Operation) (upstream : List Text)
    : Type 0 where
  pub times_of : (k : Text) → count k upstream ≡ (if skip k then 0 else replays (get_row k rows))

abbrev pub IsCounted : (Text → Bool) → State → Type 0
IsCounted skip s = Balanced skip s.operations s.upstream

-- `skip` says of each row whether it is skipped.
abbrev pub Flagged : (Text → Bool) → Operation → Type 0
Flagged skip r = skip r.id ≡ is_skipped r.request

-- Every operation was replayed as often as its status says, and one that is skipped never.
pub record IsBalanced (s : State) : Type 0 where
  pub skip : Text → Bool
  pub flagged : All (Flagged skip) s.operations
  pub counted : IsCounted skip s

count-append_one :
    (k x : Text) (xs : List Text)
    → count k (xs ++ x ∷ []) ≡ count k xs + (if same x k then 1 else 0)
count-append_one k x [] = omega arith
count-append_one k x (y ∷ xs) = omega (arith, count-append_one k x xs)

-- An update that leaves the number of replays as it is.
pub Balanced-update_where :
    {skip : Text → Bool} (id : Text) (f : Operation → Operation) (rows : List Operation)
    (upstream : List Text)
    → KeepsId f
    → replays (mapped f (get_row id rows)) ≡ replays (get_row id rows)
    → Balanced skip rows upstream
    → Balanced skip (update_where id f rows) upstream
Balanced-update_where id f rows upstream keep e b = record {
  times_of = λ k.
      rw (get_row-update_where id k f rows keep) (ground (arith, b.times_of k, same_iff id k, e));
}

-- One more replay of an operation that becomes executed.
pub Balanced-executed :
    {skip : Text → Bool} (id : Text) (f : Operation → Operation) (rows : List Operation)
    (upstream : List Text)
    → KeepsId f
    → skip id ≡ false
    → replays (get_row id rows) ≡ 0
    → replays (mapped f (get_row id rows)) ≡ 1
    → Balanced skip rows upstream
    → Balanced skip (update_where id f rows) (upstream ++ id ∷ [])
Balanced-executed id f rows upstream keep n e e' b = record {
  times_of = λ k.
      rw (get_row-update_where id k f rows keep, count-append_one k id upstream)
        (ground (arith, b.times_of k, same_iff id k, e, e', n));
}

-- Whatever becomes of an operation that is skipped.
pub Balanced-skipped :
    {skip : Text → Bool} (id : Text) (f : Operation → Operation) (rows : List Operation)
    (upstream : List Text)
    → KeepsId f
    → skip id ≡ true
    → Balanced skip rows upstream
    → Balanced skip (update_where id f rows) upstream
Balanced-skipped id f rows upstream keep y b = record {
  times_of = λ k.
      rw (get_row-update_where id k f rows keep) (ground (arith, b.times_of k, same_iff id k, y));
}

pub id-set_status :
    (now : ℕ) (status : Status) (by : Text) (e : Option Text) → KeepsId (set_status now status by e)
id-set_status now executed by e r = refl
id-set_status now _ by e r = refl

-- The row is there, and was never replayed.
pub record IsFresh (id : Text) (s : State) : Type 0 where
  pub row : Operation
  pub here : get_row id s.operations ≡ some row
  pub never : times row.status ≡ 0

pub replays-IsFresh : {id : Text} {s : State} → IsFresh id s → replays (get_row id s.operations) ≡ 0
replays-IsFresh f = rw f.here f.never
