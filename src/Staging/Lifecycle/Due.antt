-- ===== src/Staging/Lifecycle/Due.antt =====
-- What holds of all operations holds of those that one run of gateway/scheduler.py finds due.
use nuvrail.Prelude.{ℕ, zero, suc, Bool, List, [], ◌∷◌, All, take, leb, if_cases}
use nuvrail.Staging.Store.{Operation}
use nuvrail.Staging.Loops.{
  insert_by, sort_by, where_rows, batch_size, deadline, is_due, find_due_scheduled,
}

All-insert_by :
    (P : Operation → Type 0) (key : Operation → ℕ) (r : Operation) (rows : List Operation)
    → P r
    → All P rows
    → All P (insert_by key r rows)
unfolding insert_by
All-insert_by P key r [] p h = (p, tt)
All-insert_by P key r (q ∷ rows) p h =
    if_cases (All P) (leb (key r) (key q)) (r ∷ q ∷ rows) (q ∷ insert_by key r rows) (λ e. (p, h))
      (λ e. (h.0, All-insert_by P key r rows p h.1))

All-sort_by :
    (P : Operation → Type 0) (key : Operation → ℕ) (rows : List Operation)
    → All P rows
    → All P (sort_by key rows)
unfolding sort_by
All-sort_by P key [] h = tt
All-sort_by P key (r ∷ rows) h =
    All-insert_by P key r (sort_by key rows) h.0 (All-sort_by P key rows h.1)

All-where_rows :
    (P : Operation → Type 0) (test : Operation → Bool) (rows : List Operation)
    → All P rows
    → All P (where_rows test rows)
unfolding where_rows
All-where_rows P test [] h = tt
All-where_rows P test (r ∷ rows) h =
    if_cases (All P) (test r) (r ∷ where_rows test rows) (where_rows test rows)
      (λ e. (h.0, All-where_rows P test rows h.1)) (λ e. All-where_rows P test rows h.1)

All-take :
    (P : Operation → Type 0) (n : ℕ) (rows : List Operation) → All P rows → All P (take n rows)
All-take P zero rows h = tt
All-take P (suc n) [] h = tt
All-take P (suc n) (r ∷ rows) h = (h.0, All-take P n rows h.1)

pub find_due_scheduled-All :
    (P : Operation → Type 0) (now : ℕ) (rows : List Operation)
    → All P rows
    → All P (find_due_scheduled now rows)
unfolding find_due_scheduled
find_due_scheduled-All P now rows h =
    All-take P batch_size (sort_by deadline (where_rows (is_due now) rows))
      (All-sort_by P deadline (where_rows (is_due now) rows) (All-where_rows P (is_due now) rows h))
