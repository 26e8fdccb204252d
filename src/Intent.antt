-- ===== src/Intent.antt =====
-- gateway/intent.py and gateway/provider_profiles.py: what a staged operation means, from its folders
-- and flags. Confidences are in hundredths.
pub mod Profile
pub mod Send
use nuvrail.Prelude.{
  ℕ, Bool, true, false, not, ◌&&◌, ◌||◌, List, [], ◌∷◌, ◌++◌, Option, none, some, map, every, min,
  if◌then◌else◌,
}
use nuvrail.Prelude.Text.{Text, Unicode, codes, same, one_of, strip, lower}
use nuvrail.Prelude.Text.Edit.{
  strip_of, last_segment, is_blank, is_missing, text_or_empty, or_option,
}
use nuvrail.Operation.{ParsedOperation, normalised}
use nuvrail.Operation.Describe.{find}
use nuvrail.Intent.Profile.{ProviderProfile}

-- A role, or an intent label, with its confidence.
abbrev pub Labelled : Type 0
Labelled = Option Text × ℕ

abbrev pub certain : Text → Labelled
certain t = (some t, 100)

abbrev pub unknown : Labelled
unknown = (none, 0)

abbrev pub special_use_to_role : List (Text × Text)
special_use_to_role =
    (codes "\\archive", codes "archive")
    ∷ (codes "\\all", codes "archive")
    ∷ (codes "\\trash", codes "trash")
    ∷ (codes "\\junk", codes "junk")
    ∷ (codes "\\drafts", codes "drafts")
    ∷ (codes "\\sent", codes "sent")
    ∷ []

unfoldable pub role_from_list_attributes : Unicode → List Text → Option Text
unfolding find lower
role_from_list_attributes uni [] = none
role_from_list_attributes uni (a ∷ attributes) =
    let rest = role_from_list_attributes uni attributes in
    elim (find (lower uni a) special_use_to_role) [ none ↦ rest | some role ↦ some role ]

abbrev pub name_roles : List (Text × List Text)
name_roles =
    (codes "archive", codes "archive" ∷ codes "archives" ∷ codes "all mail" ∷ [])
    ∷ (
      codes "trash",
      codes "trash"
          ∷ codes "deleted items"
          ∷ codes "deleted messages"
          ∷ codes "deleted"
          ∷ codes "bin"
          ∷ codes "wastebasket"
          ∷ [],
    )
    ∷ (
      codes "junk",
      codes "junk"
          ∷ codes "junk email"
          ∷ codes "junk e-mail"
          ∷ codes "spam"
          ∷ codes "bulk mail"
          ∷ [],
    )
    ∷ (codes "drafts", codes "drafts" ∷ codes "draft" ∷ [])
    ∷ []

unfoldable pub role_of_name : Text → List (Text × List Text) → Option Text
unfolding one_of
role_of_name name [] = none
role_of_name name ((role, names) ∷ rest) =
    if one_of name names then some role else role_of_name name rest

-- The first candidate that has a role.
unfoldable pub heuristic : List Text → Labelled
unfolding role_of_name
heuristic [] = unknown
heuristic (c ∷ cs) =
    let rest = heuristic cs in
    elim (role_of_name c name_roles) [ none ↦ rest | some role ↦ (some role, 80) ]

abbrev is_folder : Unicode → Text → Option Text → Bool
is_folder uni name none = false
is_folder uni name (some []) = false
is_folder uni name (some (c ∷ s)) = same name (lower uni (c ∷ s))

abbrev by_name : Text → Labelled
by_name name = heuristic (name ∷ last_segment b'/' name ∷ last_segment b'.' name ∷ [])

abbrev by_profile : Unicode → Text → Option ProviderProfile → Labelled
by_profile uni name none = by_name name
by_profile uni name (some p) =
    if is_folder uni name p.archive_folder
    then certain (codes "archive")
    else if is_folder uni name p.trash_folder
    then certain (codes "trash")
    else if is_folder uni name p.junk_folder
    then certain (codes "junk")
    else by_name name

abbrev by_special_use : Unicode → Text → Option ProviderProfile → Option Text → Labelled
by_special_use uni name profile none = by_profile uni name profile
by_special_use uni name profile (some []) = by_profile uni name profile
by_special_use uni name profile (some (c ∷ role)) = certain (c ∷ role)

-- `special_use` maps lower-cased names to roles.
unfoldable pub classify_folder :
    Unicode → Option Text → Option ProviderProfile → List (Text × Text) → Labelled
unfolding lower strip strip_of same find heuristic last_segment
classify_folder uni folder profile special_use =
    let name = lower uni (strip_of b'"' (strip (text_or_empty folder))) in
    if is_blank name
    then unknown
    else if same name (codes "inbox")
    then certain (codes "inbox")
    else by_special_use uni name profile (find name special_use)

abbrev has_role : Text → Labelled → Bool
has_role role (none, conf) = false
has_role role (some r, conf) = same r role

-- {…} == {"answered"}
abbrev only_answered : List Text → Bool
only_answered [] = false
only_answered (f ∷ fs) = every (λ g. same g (codes "answered")) (f ∷ fs)

abbrev pub move_intent : Labelled → Labelled → Option Text × Option ℕ
move_intent dest src =
    if has_role (codes "archive") dest
    then (some (codes "archive"), some dest.1)
    else if has_role (codes "trash") dest
    then (some (codes "delete"), some dest.1)
    else if has_role (codes "junk") dest
    then (some (codes "mark_spam"), some dest.1)
    else if has_role (codes "junk") src && has_role (codes "inbox") dest
    then (some (codes "not_spam"), some (min src.1 dest.1))
    else if has_role (codes "trash") src
    then (some (codes "restore_from_trash"), some src.1)
    else if has_role (codes "archive") src && has_role (codes "inbox") dest
    then (some (codes "unarchive"), some (min src.1 dest.1))
    else (none, none)

abbrev append_intent : Labelled → Option Text × Option ℕ
append_intent role =
    if has_role (codes "drafts") role
    then (some (codes "save_draft"), some role.1)
    else (some (codes "import_message"), some 100)

abbrev no_flags : List Text → Bool
no_flags [] = true
no_flags (f ∷ fs) = false

unfoldable pub derive_intent :
    Unicode
    → ParsedOperation
    → Option ProviderProfile
    → Option Text
    → List (Text × Text)
    → Option Text × Option ℕ
unfolding same one_of normalised classify_folder
derive_intent uni op profile folder_from special_use =
    let added = map (normalised uni) op.flags_add in
    if same op.op_type (codes "trash")
    then (some (codes "delete"), some 100)
    else if same op.op_type (codes "append")
    then if one_of (codes "draft") added
      then (some (codes "save_draft"), some 100)
      else append_intent (classify_folder uni op.folder_to profile special_use)
    else if same op.op_type (codes "store")
    then if only_answered added && no_flags op.flags_remove
      then (some (codes "mark_answered"), some 100)
      else (none, none)
    else if same op.op_type (codes "move")
    then move_intent (classify_folder uni op.folder_to profile special_use)
        (classify_folder uni (or_option folder_from op.folder_from) profile special_use)
    else (none, none)
