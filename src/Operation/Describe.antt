-- ===== src/Operation/Describe.antt =====
-- gateway/operation_parser.py, `build_rich_description`: what the user reads before approving.
use nuvrail.Prelude.{
  ℕ, ◌-◌, Bool, true, false, not, ◌&&◌, ◌||◌, List, [], ◌∷◌, ◌++◌, Option, none, some, length,
  if◌then◌else◌,
}
use nuvrail.Prelude.Text.{Text, Unicode, codes, same, one_of, upper, join}
use nuvrail.Prelude.Text.Edit.{
  replace, strip_of, capitalize, is_blank, is_missing, text_or_empty, or_option,
}
use nuvrail.Audit.Record.{decimal}
use nuvrail.Operation.{ParsedOperation}

-- A dict of texts: the first pair with the key.
unfoldable pub find : Text → List (Text × Text) → Option Text
unfolding same
find key [] = none
find key ((k, v) ∷ rest) = if same k key then some v else find key rest

abbrev pub op_verb : List (Text × Text)
op_verb =
    (codes "move", codes "Move")
    ∷ (codes "copy", codes "Copy")
    ∷ (codes "trash", codes "Move to Trash")
    ∷ (codes "mark_read", codes "Mark as read")
    ∷ (codes "mark_unread", codes "Mark as unread")
    ∷ (codes "flag", codes "Star")
    ∷ (codes "unflag", codes "Unstar")
    ∷ (codes "store", codes "Update flags on")
    ∷ (codes "append", codes "Save draft")
    ∷ (codes "create", codes "Create folder")
    ∷ (codes "rename", codes "Rename folder")
    ∷ (codes "smtp_send", codes "Send email")
    ∷ []

abbrev pub intent_verbs : List (Text × Text)
intent_verbs =
    (codes "archive", codes "Archive")
    ∷ (codes "delete", codes "Move to Trash")
    ∷ (codes "mark_spam", codes "Mark as spam")
    ∷ (codes "not_spam", codes "Not spam — move to Inbox")
    ∷ (codes "restore_from_trash", codes "Restore from Trash")
    ∷ (codes "unarchive", codes "Move back to Inbox")
    ∷ (codes "mark_answered", codes "Mark as replied")
    ∷ (codes "save_draft", codes "Save draft")
    ∷ (codes "import_message", codes "Add message")
    ∷ []

abbrev pub trash_fallback_verb : Text
trash_fallback_verb = codes "Mark deleted (no Trash folder found)"

abbrev pub intent_implies_dest : List Text
intent_implies_dest =
    codes "archive" ∷ codes "delete" ∷ codes "mark_spam" ∷ codes "not_spam" ∷ codes "unarchive" ∷ []

-- A row of the metadata: its sender and its subject.
pub record Metadata : Type 0 where
  pub uid : ℕ
  pub sender : Option Text
  pub subject : Option Text

abbrev or_text : Option Text → Text → Text
or_text none b = b
or_text (some []) b = b
or_text (some (c ∷ s)) b = c ∷ s

abbrev found_or : Option Text → Text → Text
found_or none b = b
found_or (some v) b = v

abbrev pub is_trash_without_folder : ParsedOperation → Bool
is_trash_without_folder op = same op.op_type (codes "trash") && is_missing op.folder_to

unfoldable pub description_verb : Unicode → ParsedOperation → Option Text → Text
unfolding find replace capitalize same
description_verb uni op intent =
    if is_trash_without_folder op
    then trash_fallback_verb
    else or_text (or_option (find (text_or_empty intent) intent_verbs) op.verb) (
        found_or (find op.op_type op_verb)
          (capitalize uni (replace (codes "_") (codes " ") op.op_type)))

abbrev is_intent : Option Text → Text → Bool
is_intent none label = false
is_intent (some i) label = same i label

abbrev implies_dest : Option Text → Bool
implies_dest none = false
implies_dest (some i) = one_of i intent_implies_dest

-- The " to X" of a move or copy.
unfoldable pub folder_suffix : Unicode → ParsedOperation → Option Text → Text
unfolding one_of same strip_of upper
folder_suffix uni op intent =
    let folder = text_or_empty op.folder_to in
    if not (one_of op.op_type (codes "move" ∷ codes "copy" ∷ [])) || is_blank folder
    then []
    else if implies_dest intent
        || (is_intent intent (codes "restore_from_trash")
            && same (upper uni (strip_of b'"' folder)) (codes "INBOX"))
    then []
    else codes " to " ++ folder

abbrev has_intent_verb : Option Text → Bool
has_intent_verb none = false
has_intent_verb (some i) = elim (find i intent_verbs) [ none ↦ false | some v ↦ true ]

abbrev first_of : List Text → Text
first_of [] = []
first_of (x ∷ xs) = x

-- Without metadata that helps.
abbrev pub plain_description : ParsedOperation → Option Text → Text → Text → Text
plain_description op intent verb suffix =
    if has_intent_verb intent
    then verb ++ (codes ": " ++ (first_of op.message_ids ++ suffix))
    else op.description

abbrev quoted : Text → List Text
quoted subject = if is_blank subject then [] else (codes "\"" ++ (subject ++ codes "\"")) ∷ []

abbrev from_sender : Text → List Text
from_sender sender = if is_blank sender then [] else (codes "from " ++ sender) ∷ []

abbrev one_message : ParsedOperation → Option Text → Text → Text → List Text → Text
one_message op intent verb suffix [] = plain_description op intent verb suffix
one_message op intent verb suffix (p ∷ parts) =
    verb ++ (codes ": " ++ (join (codes " ") (p ∷ parts) ++ suffix))

-- {m.get("sender") for m in metadata} without the missing ones
unfoldable pub senders : List Metadata → List Text
unfolding one_of
senders [] = []
senders (m ∷ ms) =
    let rest = senders ms in
    let s = text_or_empty m.sender in if is_blank s || one_of s rest then rest else s ∷ rest

abbrev many_messages : Text → Text → Metadata → ℕ → List Text → Text
many_messages verb suffix first total (sender ∷ []) =
    verb ++ (codes " " ++ (decimal total ++ (codes " messages from " ++ (sender ++ suffix))))
many_messages verb suffix first total _ =
    let subject = text_or_empty first.subject in
    if is_blank subject
    then verb ++ (codes " " ++ (decimal total ++ (codes " messages" ++ suffix)))
    else verb
      ++ (codes " \""
          ++ (subject ++ (codes "\" and " ++ (decimal (total - 1) ++ (codes " more" ++ suffix)))))

abbrev described : ParsedOperation → Option Text → Text → Text → List Metadata → Text
described op intent verb suffix [] = plain_description op intent verb suffix
described op intent verb suffix (m ∷ []) =
    one_message op intent verb suffix
      (quoted (text_or_empty m.subject) ++ from_sender (text_or_empty m.sender))
described op intent verb suffix (m ∷ n ∷ ms) =
    many_messages verb suffix m (length (m ∷ n ∷ ms)) (senders (m ∷ n ∷ ms))

unfoldable pub build_rich_description :
    Unicode → ParsedOperation → List Metadata → Option Text → Text
unfolding one_of description_verb folder_suffix senders find join decimal
build_rich_description uni op metadata intent =
    if one_of op.op_type (codes "append" ∷ codes "create" ∷ codes "rename" ∷ codes "smtp_send" ∷ [])
    then op.description
    else described op intent (description_verb uni op intent) (folder_suffix uni op intent) metadata
