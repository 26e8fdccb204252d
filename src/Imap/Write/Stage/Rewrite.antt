-- ===== src/Imap/Write/Stage/Rewrite.antt =====
-- COPY and STORE \Deleted against the one command that they stand for.
use nuvrail.Prelude.{◌≡◌, refl, sym, ap, ◌∙◌, true, false, List, ◌∷◌, arith}
use nuvrail.Prelude.Text.{Text, Unicode, codes, same, same_iff, upper, upper_char, join}
use nuvrail.Audit.Record.{Sha256}
use nuvrail.Staging.Create.{Provider}
use nuvrail.Operation.{parse_move}
use nuvrail.Operation.Describe.{build_rich_description, description_verb, folder_suffix}
use nuvrail.Intent.{derive_intent}
use nuvrail.Imap.Line.{ParsedCommand}
use nuvrail.Imap.Write.{
  build_parsed_op, copy_folder, is_archive_copy, is_store_deleted, is_unsafe_write, completes,
}
use nuvrail.Imap.Write.Stage.{
  World, Draw, no_pending, stage_op, handle_write, changes_flags, hold_copy, with_trash_folder,
  final_request,
}

-- UID MOVE with the arguments of the COPY.
abbrev pub as_move : ParsedCommand → ParsedCommand
as_move copy = record {
  tag = copy.tag;
  command = codes "MOVE";
  uid = true;
  args = copy.args;
  raw = copy.raw;
}

store-not_copy :
    (uni : Unicode) (profile : _) (cmd : ParsedCommand)
    → is_store_deleted uni cmd ≡ true
    → is_archive_copy uni profile cmd ≡ false
unfolding is_store_deleted is_archive_copy
store-not_copy uni profile cmd h =
    let e : upper uni cmd.command ≡ codes "STORE" =
      (same_iff (upper uni cmd.command) (codes "STORE")).0 (ground arith) in
    rw e (unfold same in refl)

-- The world and the answer of a MOVE command.
handle_write-move :
    (sha : Sha256) (uni : Unicode) (provider : Provider) (f d : Draw) (tag set word : Text)
    (words : List Text) (raw line : Text) (w : World)
    → handle_write sha uni provider f d
        (record {
          tag = tag;
          command = codes "MOVE";
          uid = true;
          args = set ∷ word ∷ words;
          raw = raw;
        })
        line
        (no_pending w)
      ≡ stage_op sha uni provider d
          (record {
            tag = tag;
            command = codes "MOVE";
            uid = true;
            args = set ∷ word ∷ words;
            raw = raw;
          })
          (parse_move tag set (join (codes " ") (word ∷ words)))
          (no_pending w)
unfolding handle_write is_archive_copy is_unsafe_write build_parsed_op same upper upper_char
handle_write-move sha uni provider f d tag set word words raw line w = refl

handle_write-hold :
    (sha : Sha256) (uni : Unicode) (provider : Provider) (f d : Draw) (copy : ParsedCommand)
    (line : Text) (w : World)
    → is_archive_copy uni w.session.provider_profile copy ≡ true
    → (handle_write sha uni provider f d copy line (no_pending w)).0
      ≡ (hold_copy copy (no_pending w)).0
unfolding handle_write
handle_write-hold sha uni provider f d copy line w h = rw h refl

handle_write_complete :
    (sha : Sha256) (uni : Unicode) (provider : Provider) (f d : Draw) (copy store : ParsedCommand)
    (set word : Text) (words : List Text) (line : Text) (w : World)
    → copy.args ≡ set ∷ word ∷ words
    → store.uid ≡ true
    → completes uni
        (record { tag = copy.tag; uid_set = set; destination = join (codes " ") (word ∷ words) })
        store
      ≡ true
    → handle_write sha uni provider f d store line (hold_copy copy (no_pending w)).0
      ≡ stage_op sha uni provider d store
          (parse_move store.tag set (join (codes " ") (word ∷ words)))
          (no_pending w)
unfolding handle_write copy_folder
handle_write_complete sha uni provider f d copy store set word words line w ea eu c =
    let del : is_store_deleted uni store ≡ true = unfold completes in ground arith in
    let safe : is_unsafe_write uni store ≡ false = unfold is_unsafe_write in rw eu refl in
    rw (ea, del, store-not_copy uni w.session.provider_profile store del, safe, c) refl

changes_flags-move :
    (uni : Unicode) (cmd : ParsedCommand) (tag set folder : Text)
    → changes_flags uni cmd (parse_move tag set folder) ≡ false
unfolding parse_move
changes_flags-move uni cmd tag set folder = ground arith

stage_op-move :
    (sha : Sha256) (uni : Unicode) (provider : Provider) (d : Draw) (cmd other : ParsedCommand)
    (set folder : Text) (w : World)
    → (stage_op sha uni provider d cmd (parse_move cmd.tag set folder) w).0
      ≡ (stage_op sha uni provider d other (parse_move other.tag set folder) w).0
unfolding stage_op parse_move with_trash_folder final_request derive_intent build_rich_description
    description_verb folder_suffix
stage_op-move sha uni provider d cmd other set folder w =
    rw
      (
        changes_flags-move uni cmd cmd.tag set folder,
        changes_flags-move uni other other.tag set folder,
      )
      refl

module _ (sha : Sha256) (uni : Unicode) (provider : Provider) (f d g e : Draw) (w : World) where
  -- A UID COPY that the proxy holds, and the UID STORE that adds \Deleted to the same messages, leave
  -- the session, the tables and the staged operations as the one command UID MOVE with the arguments
  -- of the COPY does, where no other COPY is held.
  pub handle_write-copy_store :
      (copy store : ParsedCommand) (set word : Text) (words : List Text)
      (line copy_line store_line : Text)
      → copy.args ≡ set ∷ word ∷ words
      → is_archive_copy uni w.session.provider_profile copy ≡ true
      → store.uid ≡ true
      → completes uni
          (record { tag = copy.tag; uid_set = set; destination = join (codes " ") (word ∷ words) })
          store
        ≡ true
      → (handle_write sha uni provider g d store store_line
          (handle_write sha uni provider f e copy copy_line (no_pending w)).0).0
        ≡ (handle_write sha uni provider f d (as_move copy) line (no_pending w)).0
  handle_write-copy_store copy store set word words line copy_line store_line ea ha eu c =
      rw (handle_write-hold sha uni provider f e copy copy_line w ha) (
        ap (λ (r : World × Text). r.0)
          (handle_write_complete sha uni provider g d copy store set word words store_line w ea eu
            c)
        ∙ stage_op-move sha uni provider d store
            (record {
              tag = copy.tag;
              command = codes "MOVE";
              uid = true;
              args = set ∷ word ∷ words;
              raw = copy.raw;
            })
            set (join (codes " ") (word ∷ words)) (no_pending w)
        ∙ sym (
            rw ea (
              ap (λ (r : World × Text). r.0)
                (handle_write-move sha uni provider f d copy.tag set word words copy.raw line w))))
