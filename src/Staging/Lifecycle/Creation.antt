-- ===== src/Staging/Lifecycle/Creation.antt =====
-- The staging of an operation, and what a rule does to it, keep the balance of `Balance`.
use nuvrail.Prelude.{
  ℕ, ◌+◌, ◌≡◌, refl, sym, ap, ◌∙◌, All, All-append, Bool, false, if◌then◌else◌, [], ◌∷◌, List,
  Option, none, some, arith, Bool-cases, inl, inr,
}
use nuvrail.Prelude.Text.{Text, codes, same, same_iff, same_refl}
use nuvrail.Audit.Record.{Sha256}
use nuvrail.Staging.Store.{
  rejected, Operation, State, get_row, update_operation_status, audit, revert_local,
}
use nuvrail.Staging.Store.Rows.{mapped, KeepsId, get_row-append_one}
use nuvrail.Staging.Execute.{Attempt}
use nuvrail.Staging.Create.{
  Provider, Decision, RuleAction, hold, other, approve_after, with_urgency, with_schedule,
  set_schedule_and_urgency, execute_row, apply_action, apply_auto_rule_decision, stage_row,
  staged_row, create_operation, create_with, run_auto_decision,
}
use nuvrail.Staging.Create
use nuvrail.Staging.Lifecycle.Balance.{
  times, replays, is_skipped, Flagged, IsCounted, Balanced-update_where, IsFresh,
}
use nuvrail.Staging.Lifecycle.Replay.{execute_operation-IsCounted}
use nuvrail.Staging.Lifecycle.Requests.{decided-Balanced}

-- The row that a look-up finds has the flag of its id.
pub get_row-Flagged :
    (skip : Text → Bool) (id : Text) (rows : List Operation) {r : Operation}
    → All (Flagged skip) rows
    → get_row id rows ≡ some r
    → skip id ≡ is_skipped r.request
unfolding get_row
get_row-Flagged skip id [] {r} g e = cc
get_row-Flagged skip id (q ∷ rows) {r} g e = elim (Bool-cases (same q.id id)) [
  | inl k ↦
      let same_row : q ≡ r = ground arith in
      ap skip (sym ((same_iff q.id id).0 k))
      ∙ g.0
      ∙ ap (λ (x : Operation). is_skipped x.request) same_row
  | inr k ↦ get_row-Flagged skip id rows {r = r} g.1 (ground arith)
]

-- The flag of an id that is drawn for a new row.
abbrev pub with_new : Text → Bool → (Text → Bool) → Text → Bool
with_new id b skip k = if same id k then b else skip k

pub with_new-IsCounted :
    {skip : Text → Bool} (id : Text) (b : Bool) (s : State)
    → get_row id s.operations ≡ none
    → IsCounted skip s
    → IsCounted (with_new id b skip) s
with_new-IsCounted id b s free c = record {
  times_of = λ k. ground (arith, c.times_of k, same_iff id k, free);
}

pub with_new-Flagged :
    (skip : Text → Bool) (id : Text) (b : Bool) (rows : List Operation)
    → get_row id rows ≡ none
    → All (Flagged skip) rows
    → All (Flagged (with_new id b skip)) rows
unfolding get_row
with_new-Flagged skip id b [] free g = tt
with_new-Flagged skip id b (r ∷ rows) free g =
    let other : same id r.id ≡ false = ground (arith, same_iff id r.id, same_refl id) in
    (rw other g.0, with_new-Flagged skip id b rows (ground arith) g.1)

-- Staging adds a row that was not replayed.
stage_row-IsCounted :
    {skip : Text → Bool} (sha : Sha256) (now : ℕ) (row : Operation) (s : State)
    → get_row row.id s.operations ≡ none
    → times row.status ≡ 0
    → IsCounted skip s
    → IsCounted skip (stage_row sha now row.id row s)
unfolding stage_row audit
stage_row-IsCounted sha now row s free never b = record {
  times_of = λ k.
      rw (get_row-append_one k s.operations row)
        (ground (arith, b.times_of k, same_iff row.id k, free, never));
}

stage_row-IsFresh :
    (sha : Sha256) (now : ℕ) (row : Operation) (s : State)
    → get_row row.id s.operations ≡ none
    → times row.status ≡ 0
    → IsFresh row.id (stage_row sha now row.id row s)
unfolding stage_row audit
stage_row-IsFresh sha now row s free never = record {
  row = row;
  here = rw (get_row-append_one row.id s.operations row, free, same_refl row.id);
  never = never;
}

scheduled-times :
    (at : Option ℕ) (urgent : Option Bool) (o : Option Operation)
    → replays (mapped (λ r. with_urgency urgent (with_schedule at r)) o) ≡ replays o
scheduled-times at urgent none = refl
scheduled-times none none (some r) = refl
scheduled-times none (some u) (some r) = refl
scheduled-times (some t) none (some r) = refl
scheduled-times (some t) (some u) (some r) = refl

scheduled-KeepsId :
    (at : Option ℕ) (urgent : Option Bool) → KeepsId (λ r. with_urgency urgent (with_schedule at r))
scheduled-KeepsId none none r = refl
scheduled-KeepsId none (some u) r = refl
scheduled-KeepsId (some t) none r = refl
scheduled-KeepsId (some t) (some u) r = refl

set_schedule_and_urgency-IsCounted :
    {skip : Text → Bool} (id : Text) (at : Option ℕ) (urgent : Option Bool) (s : State)
    → IsCounted skip s
    → IsCounted skip (set_schedule_and_urgency id at urgent s)
unfolding set_schedule_and_urgency
set_schedule_and_urgency-IsCounted id at urgent s b =
    Balanced-update_where id _ s.operations s.upstream (scheduled-KeepsId at urgent)
      (scheduled-times at urgent (get_row id s.operations)) b

module _ {skip : Text → Bool} (sha : Sha256) (now : ℕ) (id : Text) (row : Operation)
    (a : Attempt) where
  execute_row-IsCounted :
      (o : Option Operation) (s : State)
      → ((r : Operation) → o ≡ some r → skip id ≡ is_skipped r.request)
      → IsFresh id s
      → IsCounted skip s
      → IsCounted skip (execute_row sha now id a o s)
  unfolding execute_row
  execute_row-IsCounted none s kind f b = b
  execute_row-IsCounted (some r) s kind f b =
      execute_operation-IsCounted sha now id r (codes "auto_rule") a s (kind r refl) f b

  apply_action-IsCounted :
      (action : RuleAction) (urgent : Option Bool) (detail : Text) (s : State)
      → All (Flagged skip) s.operations
      → IsFresh id s
      → IsCounted skip s
      → IsCounted skip (apply_action sha now id row a action urgent detail s)
  unfolding revert_local audit update_operation_status
  apply_action-IsCounted Create.reject urgent detail s g f b =
      decided-Balanced now id rejected (codes "auto_rule") s (rw f.here (sym f.never)) b
  apply_action-IsCounted (approve_after delay) urgent detail s g f b =
      set_schedule_and_urgency-IsCounted id (some (now + delay)) urgent s b
  apply_action-IsCounted hold urgent detail s g f b =
      set_schedule_and_urgency-IsCounted id none urgent s b
  apply_action-IsCounted other urgent detail s g f b = b
  apply_action-IsCounted Create.approve urgent detail s g f b =
      let s' = audit sha now (codes "approved") (codes "auto_rule") id row (some detail) s in
      execute_row-IsCounted (get_row id s'.operations) s'
        (λ r e. get_row-Flagged skip id s'.operations g e)
        (record { row = f.row; here = f.here; never = f.never }) b

  apply_auto_rule_decision-IsCounted :
      (d : Option Decision) (s : State)
      → All (Flagged skip) s.operations
      → IsFresh id s
      → IsCounted skip s
      → IsCounted skip (apply_auto_rule_decision sha now id row a d s)
  unfolding apply_auto_rule_decision
  apply_auto_rule_decision-IsCounted none s g f b = b
  apply_auto_rule_decision-IsCounted (some d) s g f b =
      apply_action-IsCounted d.action d.is_urgent d.detail s g f b

pub create_with-IsCounted :
    {skip : Text → Bool} (sha : Sha256) (provider : Provider) (now : ℕ) (a : Attempt)
    (row : Operation) (s : State)
    → get_row row.id s.operations ≡ none
    → times row.status ≡ 0
    → Flagged skip row
    → All (Flagged skip) s.operations
    → IsCounted skip s
    → IsCounted skip (create_with sha provider now a row s).0
unfolding stage_row audit
create_with-IsCounted {skip = skip} sha provider now a row s free never new g b =
    apply_auto_rule_decision-IsCounted {skip = skip} sha now row.id row a
      (run_auto_decision provider row) (stage_row sha now row.id row s)
      (All-append (Flagged skip) s.operations (row ∷ []) g (new, tt))
      (stage_row-IsFresh sha now row s free never) (stage_row-IsCounted sha now row s free never b)
