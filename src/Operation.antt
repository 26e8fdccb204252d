-- ===== src/Operation.antt =====
-- gateway/operation_parser.py: from the words of a write command to a `ParsedOperation`.
pub mod Describe
pub mod Mailbox
pub mod Examples
use nuvrail.Prelude.{
  ℕ, ◌+◌, ◌-◌, Bool, true, false, not, ◌&&◌, ◌||◌, List, [], ◌∷◌, ◌++◌, Option, none, some, map,
  any, ◌==◌, if◌then◌else◌,
}
use nuvrail.Prelude.Text.{Text, Unicode, codes, same, one_of, upper, lower, join}
use nuvrail.Prelude.Text.Edit.{replace, lstrip_of, strip_of, last_segment, ends_with, but_last}
use nuvrail.Audit.Record.{decimal}

-- A `\"` becomes `"`, then a `\\` becomes `\`.
unfoldable pub unescape : Text → Text
unfolding replace
unescape inner =
    replace (b'\\' ∷ b'\\' ∷ []) (b'\\' ∷ []) (replace (b'\\' ∷ b'"' ∷ []) (b'"' ∷ []) inner)

unfoldable pub unquote_mailbox : Text → Text
unfolding unescape ends_with
unquote_mailbox (c ∷ d ∷ s) =
    if c == b'"' && ends_with (d ∷ s) (b'"' ∷ []) then unescape (but_last (d ∷ s)) else c ∷ d ∷ s
unquote_mailbox s = s

pub record ParsedOperation : Type 0 where
  pub tag : Text
  pub op_type : Text
  pub imap_command : Text
  pub description : Text
  pub message_ids : List Text
  pub folder_from : Option Text
  pub folder_to : Option Text
  pub flags_add : List Text
  pub flags_remove : List Text
  pub verb : Option Text

-- The fields that have defaults, at their defaults.
abbrev pub operation : Text → Text → Text → Text → ParsedOperation
operation tag op_type imap_command description = record {
  tag = tag;
  op_type = op_type;
  imap_command = imap_command;
  description = description;
  message_ids = [];
  folder_from = none;
  folder_to = none;
  flags_add = [];
  flags_remove = [];
  verb = none;
}

-- f.lstrip("\\").lower()
unfoldable pub normalised : Unicode → Text → Text
unfolding lstrip_of lower
normalised uni f = lower uni (lstrip_of b'\\' f)

-- A row of `_STORE_FLAG_SEMANTICS`: the flag, and the op_type and verb of adding and of removing it.
pub record FlagSemantics : Type 0 where
  pub flag : Text
  pub add_type : Text
  pub add_verb : Text
  pub remove_type : Text
  pub remove_verb : Text

abbrev pub store_flag_semantics : List FlagSemantics
store_flag_semantics =
    (record {
      flag = codes "seen";
      add_type = codes "mark_read";
      add_verb = codes "Mark as read";
      remove_type = codes "mark_unread";
      remove_verb = codes "Mark as unread";
    })
    ∷ (record {
      flag = codes "flagged";
      add_type = codes "flag";
      add_verb = codes "Star";
      remove_type = codes "unflag";
      remove_verb = codes "Unstar";
    })
    ∷ (record {
      flag = codes "answered";
      add_type = codes "store";
      add_verb = codes "Mark as replied";
      remove_type = codes "store";
      remove_verb = codes "Unmark as replied";
    })
    ∷ []

abbrev meaning : Bool → FlagSemantics → Text × Text
meaning adding f = if adding then (f.add_type, f.add_verb) else (f.remove_type, f.remove_verb)

-- The (op_type, verb) pairs of the flags that are set, in the order of the table.
unfoldable pub recognised : List Text → Bool → List FlagSemantics → List (Text × Text)
unfolding one_of
recognised flags adding [] = []
recognised flags adding (f ∷ fs) =
    let rest = recognised flags adding fs in
    if one_of f.flag flags then meaning adding f ∷ rest else rest

abbrev lowered : Unicode → Text × Text → Text
lowered uni (t, v) = lower uni v

abbrev pub store_command : Bool → Text → Text → List Text → Text
store_command uid_mode uid_set flags_op flags =
    (if uid_mode then codes "UID " else [])
    ++ (codes "STORE "
        ++ (uid_set
            ++ (codes " " ++ (flags_op ++ (codes " (" ++ (join (codes " ") flags ++ codes ")"))))))

-- Unrecognised flags, or a replacement.
abbrev pub store_generic : Text → Text → Text → Text → Text → List Text → ParsedOperation
store_generic tag cmd uid_set flags_op op flags =
    record (operation tag (codes "store") cmd (
      codes "Flag update on "
      ++ (uid_set
          ++ (codes ": "
              ++ (flags_op ++ (codes " (" ++ (join (codes " ") flags ++ codes ")"))))))) {
                message_ids = uid_set ∷ [];
                flags_add = if same op (codes "+FLAGS") then flags else [];
                flags_remove = if same op (codes "-FLAGS") then flags else [];
              }

abbrev pub store_recognised :
    Unicode
    → Text
    → Text
    → Text
    → Bool
    → List Text
    → Text × Text
    → List (Text × Text)
    → ParsedOperation
store_recognised uni tag cmd uid_set adding flags (op_type, first) more =
    let phrase = join (codes " and ") (first ∷ map (lowered uni) more) in
    record (operation tag op_type cmd (phrase ++ (codes ": " ++ uid_set))) {
      message_ids = uid_set ∷ [];
      flags_add = if adding then flags else [];
      flags_remove = if adding then [] else flags;
      verb = some phrase;
    }

abbrev pub store_flags :
    Unicode → Text → Text → Text → Text → Text → List Text → List (Text × Text) → ParsedOperation
store_flags uni tag cmd uid_set flags_op op flags [] =
    store_generic tag cmd uid_set flags_op op flags
store_flags uni tag cmd uid_set flags_op op flags (r ∷ rs) =
    store_recognised uni tag cmd uid_set (same op (codes "+FLAGS")) flags r rs

-- flags_op.upper().replace(".SILENT", "")
unfoldable pub store_op : Unicode → Text → Text
unfolding replace upper
store_op uni flags_op = replace (codes ".SILENT") [] (upper uni flags_op)

unfoldable pub parse_store : Unicode → Text → Bool → Text → Text → List Text → ParsedOperation
unfolding normalised store_op recognised same one_of lower join
parse_store uni tag uid_mode uid_set flags_op flags =
    let names = map (normalised uni) flags in
    let op = store_op uni flags_op in
    let cmd = store_command uid_mode uid_set flags_op flags in
    let adding = same op (codes "+FLAGS") in
    if adding && one_of (codes "deleted") names
    then record (operation tag (codes "trash") cmd (codes "Move to Trash: " ++ uid_set)) {
      message_ids = uid_set ∷ [];
      flags_add = flags;
    }
    else if adding || same op (codes "-FLAGS")
    then store_flags uni tag cmd uid_set flags_op op flags
        (recognised names adding store_flag_semantics)
    else store_generic tag cmd uid_set flags_op op flags

abbrev pub to_folder : Text → Text → Text → Text → Text → ParsedOperation
to_folder tag op_type cmd description folder = record (operation tag op_type cmd description) {
  folder_to = some folder;
}

unfoldable pub parse_move : Text → Text → Text → ParsedOperation
unfolding unquote_mailbox
parse_move tag uid_set destination =
    let folder = unquote_mailbox destination in
    record (to_folder tag (codes "move") (codes "MOVE " ++ (uid_set ++ (codes " " ++ folder)))
      (codes "Move " ++ (uid_set ++ (codes " to " ++ folder))) folder) {
        message_ids = uid_set ∷ [];
      }

unfoldable pub parse_copy : Text → Text → Text → ParsedOperation
unfolding unquote_mailbox
parse_copy tag uid_set destination =
    let folder = unquote_mailbox destination in
    record (to_folder tag (codes "copy") (codes "COPY " ++ (uid_set ++ (codes " " ++ folder)))
      (codes "Copy " ++ (uid_set ++ (codes " to " ++ folder))) folder) {
        message_ids = uid_set ∷ [];
      }

-- `_is_drafts_append`
unfoldable pub is_drafts_append : Unicode → Text → List Text → Bool
unfolding normalised strip_of last_segment same one_of lower
is_drafts_append uni folder flags =
    any (λ f. same (normalised uni f) (codes "draft")) flags
    || one_of (last_segment b'.' (last_segment b'/' (lower uni (strip_of b'"' folder))))
        (codes "drafts" ∷ codes "draft" ∷ [])

unfoldable pub parse_append : Unicode → Text → Text → List Text → ℕ → ParsedOperation
unfolding unquote_mailbox is_drafts_append join decimal
parse_append uni tag name flags message_size =
    let folder = unquote_mailbox name in
    let size = codes " (" ++ (decimal message_size ++ codes " bytes)") in
    record (to_folder tag (codes "append")
      (codes "APPEND "
        ++ (folder
            ++ (codes " ("
                ++ (join (codes " ") flags
                    ++ (codes ") {" ++ (decimal message_size ++ codes "}"))))))
      (if is_drafts_append uni folder flags
        then codes "Save draft to " ++ (folder ++ size)
        else codes "Add message to " ++ (folder ++ size))
      folder) { flags_add = flags }
