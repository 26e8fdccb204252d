-- ===== src/Batching.antt =====
-- gateway/batching.py: the registry of open batches. Ids and the clock are arguments; the lock makes
-- each call one step.
pub mod Window
pub mod Examples
use nuvrail.Prelude.{
  ℕ, ◌+◌, ◌-◌, Bool, true, false, not, ◌&&◌, List, [], ◌∷◌, ◌++◌, Option, none, some, length, ltb,
  ◌==◌, if◌then◌else◌,
}
use nuvrail.Prelude.Text.{Text, same}

-- (folder, protocol, agent_id)
pub record Key : Type 0 where
  pub folder : Text
  pub protocol : Text
  pub agent_id : Option ℕ

pub record Batch : Type 0 where
  pub id : Text
  pub key : Key
  pub created_at : ℕ
  pub window_seconds : ℕ
  pub op_ids : List Text

abbrev pub same_agent : Option ℕ → Option ℕ → Bool
same_agent none none = true
same_agent (some a) (some b) = a == b
same_agent none (some b) = false
same_agent (some a) none = false

unfoldable pub same_key : Key → Key → Bool
unfolding same
same_key a b =
    same a.folder b.folder && (same a.protocol b.protocol && same_agent a.agent_id b.agent_id)

abbrev pub is_open : ℕ → Batch → Bool
is_open now b = ltb (now - b.created_at) b.window_seconds

-- _batches.get(key)
unfoldable pub batch_of : Key → List Batch → Option Batch
unfolding same_key
batch_of k [] = none
batch_of k (b ∷ bs) = if same_key b.key k then some b else batch_of k bs

-- _batches[key] = batch
unfoldable pub put_batch : Batch → List Batch → List Batch
unfolding same_key
put_batch b [] = b ∷ []
put_batch b (c ∷ cs) =
    let rest = put_batch b cs in if same_key c.key b.key then b ∷ cs else c ∷ rest

abbrev pub new_batch : Text → ℕ → Key → ℕ → Batch
new_batch id now key window_seconds = record {
  id = id;
  key = key;
  created_at = now;
  window_seconds = window_seconds;
  op_ids = [];
}

abbrev pub open_new : Text → ℕ → Key → ℕ → List Batch → List Batch × Text
open_new id now key window_seconds bs = (put_batch (new_batch id now key window_seconds) bs, id)

abbrev pub get_or_open : Text → ℕ → Key → ℕ → List Batch → Option Batch → List Batch × Text
get_or_open id now key window_seconds bs none = open_new id now key window_seconds bs
get_or_open id now key window_seconds bs (some b) =
    if is_open now b then (bs, b.id) else open_new id now key window_seconds bs

unfoldable pub get_or_create_batch : Text → ℕ → Key → ℕ → List Batch → List Batch × Text
unfolding batch_of put_batch
get_or_create_batch id now key window_seconds bs =
    get_or_open id now key window_seconds bs (batch_of key bs)

-- The first batch with the id, in the order of insertion.
unfoldable pub record_op_in_batch : Text → Text → List Batch → List Batch
unfolding same
record_op_in_batch id op [] = []
record_op_in_batch id op (b ∷ bs) =
    let rest = record_op_in_batch id op bs in
    if same b.id id then record b { op_ids = b.op_ids ++ op ∷ [] } ∷ bs else b ∷ rest

unfoldable pub get_batch_op_ids : Text → List Batch → List Text
unfolding same
get_batch_op_ids id [] = []
get_batch_op_ids id (b ∷ bs) = if same b.id id then b.op_ids else get_batch_op_ids id bs

abbrev pub open_batches : ℕ → List Batch → List Batch
open_batches now [] = []
open_batches now (b ∷ bs) =
    let rest = open_batches now bs in if is_open now b then b ∷ rest else rest

-- The registry, and how many batches were removed.
unfoldable pub purge_expired_batches : ℕ → List Batch → List Batch × ℕ
purge_expired_batches now bs = (open_batches now bs, length bs - length (open_batches now bs))
