-- ===== src/Staging/Store/Rows.antt =====
-- Lemmas on `get_row` and `update_where`.
use nuvrail.Prelude.{
  ◌≡◌, refl, Bool, true, false, List, [], ◌∷◌, ◌++◌, Option, none, some, All, if◌then◌else◌, arith,
}
use nuvrail.Prelude.Text.{Text, same, same_iff}
use nuvrail.Staging.Store.{Operation, get_row, update_where}

abbrev pub mapped : (Operation → Operation) → Option Operation → Option Operation
mapped f none = none
mapped f (some r) = some (f r)

abbrev pub KeepsId : (Operation → Operation) → Type 0
KeepsId f = (r : Operation) → (f r).id ≡ r.id

pub get_row-update_where :
    (id k : Text) (f : Operation → Operation) (rows : List Operation)
    → KeepsId f
    → get_row k (update_where id f rows)
      ≡ (if same id k then mapped f (get_row k rows) else get_row k rows)
unfolding get_row update_where
get_row-update_where id k f [] h = ground arith
get_row-update_where id k f (r ∷ rows) h = ground (
  arith,
  h r,
  get_row-update_where id k f rows h,
  same_iff r.id id,
  same_iff r.id k,
  same_iff id k,
)

abbrev pub or_row : Option Operation → Option Operation → Option Operation
or_row none o = o
or_row (some r) o = some r

pub get_row-append_one :
    (k : Text) (rows : List Operation) (r : Operation)
    → get_row k (rows ++ r ∷ []) ≡ or_row (get_row k rows) (if same r.id k then some r else none)
unfolding get_row
get_row-append_one k [] r = refl
get_row-append_one k (q ∷ rows) r = ground (arith, get_row-append_one k rows r)

pub All-update_where :
    (P : Operation → Type 0) (id : Text) (f : Operation → Operation) (rows : List Operation)
    → ((r : Operation) → P r → P (f r))
    → All P rows
    → All P (update_where id f rows)
unfolding update_where
All-update_where P id f [] keep h = tt
All-update_where P id f (r ∷ rows) keep h =
    (chosen (same r.id id), All-update_where P id f rows keep h.1)
  where
    chosen : (b : Bool) → P (if b then f r else r)
    chosen true = keep r h.0
    chosen false = h.0
