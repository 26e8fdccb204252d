-- ===== src/Mailbox/Folders/Scope.antt =====
-- The folders of one user, against those of the others.
use nuvrail.Prelude.{
  ℕ, ◌≡◌, refl, Bool, false, ◌&&◌, List, [], ◌∷◌, ◌++◌, Option, none, some, arith, ◌==◌,
  if◌then◌else◌, ==_refl, Option-cases, inl, inr,
}
use nuvrail.Prelude.Text.{Text, same, same_refl}
use nuvrail.Mailbox.Folders.{Folder, Folders, folder_of, found_or_new, get_or_create_folder}

-- The first of the two that there is.
abbrev or_row : Option Folder → Option Folder → Option Folder
or_row none o = o
or_row (some f) o = some f

folder_of-append_one :
    (user : ℕ) (name : Text) (fs : List Folder) (f : Folder)
    → folder_of user name (fs ++ f ∷ [])
      ≡ or_row
          (folder_of user name fs)
          (if f.user_id == user && same f.name name then some f else none)
unfolding folder_of
folder_of-append_one user name [] f = refl
folder_of-append_one user name (g ∷ fs) f = ground (arith, folder_of-append_one user name fs f)

abbrev pub is_same : ℕ → Text → ℕ → Text → Bool
is_same user name other other_name = user == other && same name other_name

found-again :
    (now later user : ℕ) (name : Text) (t : Folders) (o : Option Folder)
    → folder_of user name t.rows ≡ o
    → get_or_create_folder later user name (found_or_new now user name t o).0
      ≡ found_or_new now user name t o
unfolding get_or_create_folder
found-again now later user name t (some f) e = rw e refl
found-again now later user name t none e =
    rw
      (
        folder_of-append_one user name t.rows (record {
          id = t.next_id;
          user_id = user;
          name = name;
          special_use = none;
          last_synced = now;
        }),
        e,
        ==_refl user,
        same_refl name,
      )
      refl

found-others :
    (now user other : ℕ) (name other_name : Text) (t : Folders) (o : Option Folder)
    → is_same user name other other_name ≡ false
    → folder_of other other_name (found_or_new now user name t o).0.rows
      ≡ folder_of other other_name t.rows
found-others now user other name other_name t (some f) h = refl
found-others now user other name other_name t none h =
    elim (Option-cases (folder_of other other_name t.rows)) [
      | inl e ↦
          rw
            (
              folder_of-append_one other other_name t.rows (record {
                id = t.next_id;
                user_id = user;
                name = name;
                special_use = none;
                last_synced = now;
              }),
              h,
              e,
            )
            refl
      | inr (f, e) ↦
          rw
            (
              folder_of-append_one other other_name t.rows (record {
                id = t.next_id;
                user_id = user;
                name = name;
                special_use = none;
                last_synced = now;
              }),
              h,
              e,
            )
            refl
    ]

-- A second look-up of a user's folder, at any time, returns the id of the first and changes nothing; and
-- what every other user has, and every other folder of the same user, is left alone by a look-up.
pub get_or_create_folder_lem :
    (now later user other : ℕ) (name other_name : Text) (t : Folders)
    → is_same user name other other_name ≡ false
    → (get_or_create_folder later user name (get_or_create_folder now user name t).0
        ≡ get_or_create_folder now user name t)
      × (folder_of other other_name (get_or_create_folder now user name t).0.rows
          ≡ folder_of other other_name t.rows)
get_or_create_folder_lem now later user other name other_name t h = (
  unfold get_or_create_folder in
      found-again now later user name t (folder_of user name t.rows) refl,
  unfold get_or_create_folder in
      found-others now user other name other_name t (folder_of user name t.rows) h,
)
