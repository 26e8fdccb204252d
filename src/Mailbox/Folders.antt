-- ===== src/Mailbox/Folders.antt =====
-- gateway/state_db.py: the table of folders, one namespace for each user.
pub mod Scope
pub mod Examples
use nuvrail.Prelude.{
  ℕ, ◌+◌, Bool, true, false, ◌&&◌, List, [], ◌∷◌, ◌++◌, Option, none, some, ◌==◌, if◌then◌else◌,
}
use nuvrail.Prelude.Text.{Text, Unicode, codes, same, lower}
use nuvrail.Mailbox.{text_leb}

pub record Folder : Type 0 where
  pub id : ℕ
  pub user_id : ℕ
  pub name : Text
  pub special_use : Option Text
  pub last_synced : ℕ

-- The table, and the id that AUTOINCREMENT gives next.
pub record Folders : Type 0 where
  pub rows : List Folder
  pub next_id : ℕ

-- SELECT id FROM folders WHERE user_id IS ? AND name = ?
unfoldable pub folder_of : ℕ → Text → List Folder → Option Folder
unfolding same
folder_of user name [] = none
folder_of user name (f ∷ fs) =
    if f.user_id == user && same f.name name then some f else folder_of user name fs

abbrev pub insert_folder : ℕ → ℕ → Text → Option Text → Folders → Folders
insert_folder now user name role t = record {
  rows =
      t.rows
      ++ (record {
        id = t.next_id;
        user_id = user;
        name = name;
        special_use = role;
        last_synced = now;
      })
        ∷ [];
  next_id = t.next_id + 1;
}

abbrev pub found_or_new : ℕ → ℕ → Text → Folders → Option Folder → Folders × ℕ
found_or_new now user name t none = (insert_folder now user name none t, t.next_id)
found_or_new now user name t (some f) = (t, f.id)

unfoldable pub get_or_create_folder : ℕ → ℕ → Text → Folders → Folders × ℕ
unfolding folder_of
get_or_create_folder now user name t = found_or_new now user name t (folder_of user name t.rows)

-- {name.lower(): special_use}, for the rows that have a role
unfoldable pub get_special_use_folders : Unicode → ℕ → List Folder → List (Text × Text)
unfolding lower
get_special_use_folders uni user [] = []
get_special_use_folders uni user (f ∷ fs) =
    let rest = get_special_use_folders uni user fs in
    if f.user_id == user
    then elim f.special_use [ none ↦ rest | some role ↦ (lower uni f.name, role) ∷ rest ]
    else rest

abbrev pub is_trash : ℕ → Folder → Bool
is_trash user f =
    f.user_id == user && elim f.special_use [ none ↦ false | some r ↦ same r (codes "trash") ]

abbrev lower_name : Text → Option Text → Option Text
lower_name name none = some name
lower_name name (some other) = if text_leb name other then some name else some other

-- ORDER BY name LIMIT 1
unfoldable pub get_trash_folder : ℕ → List Folder → Option Text
unfolding same text_leb
get_trash_folder user [] = none
get_trash_folder user (f ∷ fs) =
    let rest = get_trash_folder user fs in if is_trash user f then lower_name f.name rest else rest
