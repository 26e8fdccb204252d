-- ===== src/Imap/Write/Stage/Pending.antt =====
-- What a write command of the agent may change, and how a rejection takes it back.
use nuvrail.Prelude.{
  ℕ, ◌≡◌, refl, sym, ap, subst, ◌∙◌, Bool, true, false, List, [], ◌∷◌, ◌++◌, Option, none, some,
  Bool-cases, inl, inr,
}
use nuvrail.Prelude.Text.{Text, Unicode, codes, same}
use nuvrail.Audit.Record.{Sha256}
use nuvrail.Staging.Store.{Operation, Request, State}
use nuvrail.Staging.Create.{create_operation}
use nuvrail.Staging.Lifecycle.Pending.{
  OnlyStages, OnlyStages-refl, OnlyStages-trans, state_or, create_operation-OnlyStages,
}
use nuvrail.Intent.Profile.{PendingCopyIntent}
use nuvrail.Operation.{ParsedOperation}
use nuvrail.Imap.Line.{ParsedCommand}
use nuvrail.Imap.Write.{
  build_parsed_op, is_archive_copy, is_store_deleted, is_unsafe_write, completes,
}
use nuvrail.Imap.Write.Stage.{
  World, Draw, no_pending, created_or_same, create_in_batch, flush_copy, flush_if, flags_mirrored,
  mirror_flags, move_mirrored, mirror_move, with_folder_id, looked_up, flag_step, move_step,
  with_trash_folder, changes_flags, stage_op, stage_generic, stage_parsed, stage_or_rewrite,
  write_command, handle_write,
}

created_or_same-state :
    (w : World) (o : Option (State × Bool)) → (created_or_same w o).state ≡ state_or w.state o
created_or_same-state w none = refl
created_or_same-state w (some (s, notified)) = refl

created_or_same-OnlyStages :
    (sha : Sha256) (d : Draw) (r : Request) (w : World)
    → OnlyStages w.state
        (created_or_same w (create_operation sha none d.now d.op_id r d.attempt w.state)).state
created_or_same-OnlyStages sha d r w =
    subst (OnlyStages w.state)
      (sym (created_or_same-state w (create_operation sha none d.now d.op_id r d.attempt w.state)))
      (create_operation-OnlyStages sha d.now d.op_id r d.attempt w.state)

create_in_batch-OnlyStages :
    (sha : Sha256) (d : Draw) (folder : Text) (r : Request) (w : World)
    → OnlyStages w.state (create_in_batch sha none d folder r w).0.state
unfolding create_in_batch
create_in_batch-OnlyStages sha d folder r w =
    created_or_same-OnlyStages sha d _ (record w { batches = _ })

-- The mirror changes leave the operations alone.
record KeepsOperations (s t : State) : Type 0 where
  operations : t.operations ≡ s.operations
  upstream : t.upstream ≡ s.upstream
  reverts : t.pending_reverts ≡ s.pending_reverts

keeps : (s : State) → KeepsOperations s s
keeps s = record { operations = refl; upstream = refl; reverts = refl }

looked_up-keeps :
    (now : ℕ) (w : World) (o : Option Text) → KeepsOperations w.state (looked_up now w o).state
looked_up-keeps now w none = keeps w.state
looked_up-keeps now w (some []) = keeps w.state
looked_up-keeps now w (some (c ∷ name)) = keeps w.state

with_folder_id-keeps :
    (now : ℕ) (w : World) (o : Option ℕ) → KeepsOperations w.state (with_folder_id now w o).state
with_folder_id-keeps now w none = looked_up-keeps now w w.session.folder
with_folder_id-keeps now w (some id) = keeps w.state

flags_mirrored-keeps :
    (uni : Unicode) (now folder : ℕ) (set : Text) (op : ParsedOperation) (w : World) (o : _)
    → KeepsOperations w.state (flags_mirrored uni now folder set op w o).0.state
flags_mirrored-keeps uni now folder set op w none = keeps w.state
flags_mirrored-keeps uni now folder set op w (some entries) = record {
  operations = refl;
  upstream = refl;
  reverts = refl;
}

mirror_flags-keeps :
    (uni : Unicode) (now : ℕ) (set : Text) (op : ParsedOperation) (w : World) (o : Option ℕ)
    → KeepsOperations w.state (mirror_flags uni now set op w o).0.state
mirror_flags-keeps uni now set op w none = keeps w.state
mirror_flags-keeps uni now set op w (some folder) = flags_mirrored-keeps uni now folder set op w _

keeps_trans : (s t u : State) → KeepsOperations s t → KeepsOperations t u → KeepsOperations s u
keeps_trans s t u f g = record {
  operations = g.operations ∙ f.operations;
  upstream = g.upstream ∙ f.upstream;
  reverts = g.reverts ∙ f.reverts;
}

flag_step-keeps :
    (uni : Unicode) (now : ℕ) (op : ParsedOperation) (b : Bool) (w : World)
    → KeepsOperations w.state (flag_step uni now op b w).0.state
flag_step-keeps uni now op false w = keeps w.state
flag_step-keeps uni now op true w =
    keeps_trans _ _ _ (with_folder_id-keeps now w w.session.folder_id)
      (mirror_flags-keeps uni now _ op (with_folder_id now w w.session.folder_id) _)

move_mirrored-keeps :
    (uni : Unicode) (folder : ℕ) (set : Text) (w : World) (o : _)
    → KeepsOperations w.state (move_mirrored uni folder set w o).0.state
move_mirrored-keeps uni folder set w none = keeps w.state
move_mirrored-keeps uni folder set w (some entries) = record {
  operations = refl;
  upstream = refl;
  reverts = refl;
}

mirror_move-keeps :
    (uni : Unicode) (set : Text) (w : World) (o : Option ℕ)
    → KeepsOperations w.state (mirror_move uni set w o).0.state
mirror_move-keeps uni set w none = keeps w.state
mirror_move-keeps uni set w (some folder) = move_mirrored-keeps uni folder set w _

move_step-keeps :
    (uni : Unicode) (op : ParsedOperation) (b : Bool) (r : World × Option _)
    → KeepsOperations r.0.state (move_step uni op b r).0.state
move_step-keeps uni op false (w, o) = keeps w.state
move_step-keeps uni op true (w, some snapshot) = keeps w.state
move_step-keeps uni op true (w, none) = mirror_move-keeps uni _ w w.session.folder_id

after_keeps : (s t u : State) → KeepsOperations s t → OnlyStages t u → OnlyStages s u
after_keeps s t u k o = record {
  added = o.added;
  operations = o.operations ∙ ap (λ (xs : List Operation). xs ++ o.added) k.operations;
  are_pending = o.are_pending;
  upstream = o.upstream ∙ k.upstream;
  reverts = o.reverts ∙ k.reverts;
}

module _ (sha : Sha256) (uni : Unicode) (d : Draw) (cmd : ParsedCommand) (raw : Text) where
  stage_op-OnlyStages :
      (op : ParsedOperation) (w : World)
      → OnlyStages w.state (stage_op sha uni none d cmd op w).0.state
  unfolding stage_op
  stage_op-OnlyStages op w =
      let flagged = flag_step uni d.now op (changes_flags uni cmd op) w in
      let op' = with_trash_folder flagged.0 op in
      let move = same op'.op_type (codes "move") in
      after_keeps _ _ _
        (keeps_trans _ _ _ (flag_step-keeps uni d.now op (changes_flags uni cmd op) w)
          (move_step-keeps uni op' move flagged))
        (create_in_batch-OnlyStages sha d _ _ (move_step uni op' move flagged).0)

  stage_parsed-OnlyStages :
      (o : Option ParsedOperation) (w : World)
      → OnlyStages w.state (stage_parsed sha uni none d cmd raw w o).0.state
  unfolding stage_generic
  stage_parsed-OnlyStages none w = created_or_same-OnlyStages sha d _ w
  stage_parsed-OnlyStages (some op) w = stage_op-OnlyStages op w

  stage_or_rewrite-OnlyStages :
      (o : Option PendingCopyIntent) (w : World)
      → OnlyStages w.state (stage_or_rewrite sha uni none d cmd raw w o).0.state
  stage_or_rewrite-OnlyStages none w = stage_parsed-OnlyStages (build_parsed_op uni cmd) w
  stage_or_rewrite-OnlyStages (some p) w = elim (Bool-cases (completes uni p cmd)) [
    | inl e ↦ rw e (stage_op-OnlyStages _ (no_pending w))
    | inr e ↦ rw e (stage_parsed-OnlyStages (build_parsed_op uni cmd) w)
  ]

  write_command-OnlyStages :
      (w : World) → OnlyStages w.state (write_command sha uni none d cmd raw w).0.state
  write_command-OnlyStages w =
      elim (Bool-cases (is_archive_copy uni w.session.provider_profile cmd)) [
        | inl e ↦ rw e (OnlyStages-refl w.state)
        | inr e ↦ elim (Bool-cases (is_unsafe_write uni cmd)) [
          | inl u ↦ rw (e, u) (OnlyStages-refl w.state)
          | inr u ↦ rw (e, u) (stage_or_rewrite-OnlyStages w.session.pending_copy_intent w)
        ]
      ]

  flush_if-OnlyStages :
      (b : Bool) (o : Option PendingCopyIntent) (w : World)
      → OnlyStages w.state (flush_if sha none d b w o).state
  unfolding flush_copy
  flush_if-OnlyStages b none w = OnlyStages-refl w.state
  flush_if-OnlyStages true (some p) w = OnlyStages-refl w.state
  flush_if-OnlyStages false (some p) w = create_in_batch-OnlyStages sha d _ _ w

-- In the open core a write command of an agent, whichever it is, only adds pending operations: the
-- operations that were there are untouched, nothing is replayed on the mail server and no revert is
-- queued.
pub handle_write-OnlyStages :
    (sha : Sha256) (uni : Unicode) (flush main : Draw) (cmd : ParsedCommand) (raw : Text)
    (w : World)
    → OnlyStages w.state (handle_write sha uni none flush main cmd raw w).0.state
unfolding handle_write
handle_write-OnlyStages sha uni flush main cmd raw w =
    OnlyStages-trans _ _ _
      (flush_if-OnlyStages sha uni flush cmd raw (is_store_deleted uni cmd)
        w.session.pending_copy_intent w)
      (write_command-OnlyStages sha uni main cmd raw _)
