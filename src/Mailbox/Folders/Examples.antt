-- ===== src/Mailbox/Folders/Examples.antt =====
-- Two users with a folder each, of the same name.
use nuvrail.Prelude.{◌≡◌, refl, [], ◌∷◌, none}
use nuvrail.Prelude.Text.{codes}
use nuvrail.Mailbox.Folders.{Folders, folder_of, get_or_create_folder}
use nuvrail.Mailbox.Folders.Scope.{get_or_create_folder_lem}

abbrev table : Folders
table = record {
  rows =
      (record { id = 1; user_id = 7; name = codes "INBOX"; special_use = none; last_synced = 0 })
      ∷ (record {
        id = 2;
        user_id = 8;
        name = codes "Archive";
        special_use = none;
        last_synced = 0;
      })
      ∷ [];
  next_id = 3;
}

get_or_create_folder_lem_example :
    (get_or_create_folder 9 7 (codes "Archive") (get_or_create_folder 5 7 (codes "Archive") table).0
      ≡ get_or_create_folder 5 7 (codes "Archive") table)
    × (folder_of 8 (codes "Archive") (get_or_create_folder 5 7 (codes "Archive") table).0.rows
        ≡ folder_of 8 (codes "Archive") table.rows)
get_or_create_folder_lem_example =
    get_or_create_folder_lem 5 9 7 8 (codes "Archive") (codes "Archive") table refl
