-- ===== src/Mailbox/Restore/Staged.antt =====
-- The two optimistic changes that the proxy makes when it stages an operation, taken back.
use nuvrail.Prelude.{
  ℕ, ◌≡◌, refl, ◌∙◌, true, false, ◌&&◌, List, [], ◌∷◌, Option, none, some, map, ◌⊎◌, any, All, ◌==◌,
  if◌then◌else◌, arith, Bool-cases, Option-cases, inl, inr,
}
use nuvrail.Prelude.Text.{Text, Unicode}
use nuvrail.Staging.Store.{Message, SnapEntry, restore_entries, is_at}
use nuvrail.Mailbox.{
  entry_of, is_target, rows_of, get_messages_by_uid_set, snapshot_messages, update_flags,
  update_all, apply_optimistic_flag_update, delete_rows, remove_messages_from_folder,
  expand_uid_set, folder_uids,
}
use nuvrail.Mailbox.Restore.{
  lookup, Unique, seen, Near, returned_row, at_key, restore_lem, restore_gone_lem, folder-rows_of,
}

lookup-update_flags :
    (now f u folder : ℕ) (add remove : List Text) (row : Message) (ms : List Message)
    → ((folder == f && row.uid == u) ≡ false)
    → lookup f u (update_flags now folder add remove row ms) ≡ lookup f u ms
unfolding lookup update_flags
lookup-update_flags now f u folder add remove row [] h = refl
lookup-update_flags now f u folder add remove row (m ∷ ms) h =
    ground (arith, lookup-update_flags now f u folder add remove row ms)

Near-update_flags :
    (now f u folder : ℕ) (add remove : List Text) (row m0 : Message) (ms : List Message)
    → Near m0 (lookup f u ms)
    → Near m0 (lookup f u (update_flags now folder add remove row ms))
unfolding lookup update_flags
Near-update_flags now f u folder add remove row m0 [] h = h
Near-update_flags now f u folder add remove row m0 (m ∷ ms) h =
    elim (Bool-cases (m.folder_id == folder && m.uid == row.uid)) [
      | inl e ↦ elim (Bool-cases (is_at f u m)) [
        | inl k ↦ rw (e, k) (rw k at h)
        | inr k ↦ rw (e, k) (Near-update_flags now f u folder add remove row m0 ms (rw k at h))
      ]
      | inr e ↦ elim (Bool-cases (is_at f u m)) [
        | inl k ↦ rw (e, k) (rw k at h)
        | inr k ↦ rw (e, k) (Near-update_flags now f u folder add remove row m0 ms (rw k at h))
      ]
    ]

lookup-update_all :
    (now f u folder : ℕ) (add remove : List Text) (rows ms : List Message)
    → All (λ (m : Message). m.folder_id ≡ folder) rows
    → any (is_at f u) rows ≡ false
    → lookup f u (update_all now folder add remove rows ms) ≡ lookup f u ms
unfolding update_all
lookup-update_all now f u folder add remove [] ms h a = refl
lookup-update_all now f u folder add remove (row ∷ rows) ms h a =
    lookup-update_all now f u folder add remove rows _ h.1 (ground arith)
    ∙ lookup-update_flags now f u folder add remove row ms (rw (← h.0) (ground arith))

Near-update_all :
    (now f u folder : ℕ) (add remove : List Text) (m0 : Message) (rows ms : List Message)
    → Near m0 (lookup f u ms)
    → Near m0 (lookup f u (update_all now folder add remove rows ms))
unfolding update_all
Near-update_all now f u folder add remove m0 [] ms h = h
Near-update_all now f u folder add remove m0 (row ∷ rows) ms h =
    Near-update_all now f u folder add remove m0 rows _
      (Near-update_flags now f u folder add remove row m0 ms h)

Near-refl : (m0 : Message) (o : Option Message) → o ≡ some m0 → Near m0 o
Near-refl m0 none h = absurd (ground arith)
Near-refl m0 (some m) h = ground arith

restore-update_all :
    (t now f u folder : ℕ) (uids : List ℕ) (add remove : List Text) (ms : List Message)
    → Unique ms
    → seen (
        lookup f u (
          restore_entries now
            (map entry_of (rows_of folder uids ms))
            (update_all t folder add remove (rows_of folder uids ms) ms)))
      ≡ seen (lookup f u ms)
restore-update_all t now f u folder uids add remove ms un =
    restore_lem now f u folder uids ms _ un
      (lookup-update_all t f u folder add remove (rows_of folder uids ms) ms
        (folder-rows_of folder uids ms))
      (λ m0 e.
        Near-update_all t f u folder add remove m0 (rows_of folder uids ms) ms
          (Near-refl m0 (lookup f u ms) e))

lookup-delete_rows :
    (f u folder : ℕ) (uids : List ℕ) (ms : List Message)
    → lookup f u (delete_rows folder uids ms)
      ≡ (if f == folder && any (λ v. v == u) uids then none else lookup f u ms)
unfolding lookup delete_rows
lookup-delete_rows f u folder uids [] = ground arith
lookup-delete_rows f u folder uids (m ∷ ms) = elim (Bool-cases (is_at f u m)) [
  | inr k ↦ elim (Bool-cases (is_target folder uids m)) [
    | inl e ↦ rw (e, k) (lookup-delete_rows f u folder uids ms)
    | inr e ↦ rw (e, k) (lookup-delete_rows f u folder uids ms)
  ]
  | inl k ↦
      let mf : m.folder_id ≡ f = ground arith in
      let mu : m.uid ≡ u = ground arith in
      let same_test : is_target folder uids m ≡ (f == folder && any (λ v. v == u) uids) =
        rw (mf, mu) refl in
      elim (Bool-cases (f == folder && any (λ v. v == u) uids)) [
        | inl e ↦ rw (same_test, e) (lookup-delete_rows f u folder uids ms ∙ rw e refl)
        | inr e ↦ rw (same_test, e, k) refl
      ]
]

uids_none :
    (f u folder : ℕ) (rows : List Message)
    → All (λ (m : Message). m.folder_id ≡ folder) rows
    → any (is_at f u) rows ≡ false
    → (f == folder && any (λ v. v == u) (map (λ (m : Message). m.uid) rows)) ≡ false
uids_none f u folder [] h a = ground arith
uids_none f u folder (m ∷ rows) h a = ground (arith, uids_none f u folder rows h.1, h.0)

uids_some :
    (f u folder : ℕ) (rows : List Message)
    → All (λ (m : Message). m.folder_id ≡ folder) rows
    → any (is_at f u) rows ≡ true
    → (f == folder && any (λ v. v == u) (map (λ (m : Message). m.uid) rows)) ≡ true
uids_some f u folder [] h a = cc
uids_some f u folder (m ∷ rows) h a = ground (arith, uids_some f u folder rows h.1, h.0)

restore-delete_rows :
    (now f u folder : ℕ) (uids : List ℕ) (ms : List Message)
    → Unique ms
    → lookup f u (
        restore_entries now
          (map entry_of (rows_of folder uids ms))
          (delete_rows folder (map (λ (m : Message). m.uid) (rows_of folder uids ms)) ms))
      ≡ (if any (at_key f u) (map entry_of (rows_of folder uids ms))
          then returned_row now (lookup f u ms)
          else lookup f u ms)
restore-delete_rows now f u folder uids ms un =
    let rows = rows_of folder uids ms in
    let gone = map (λ (m : Message). m.uid) rows in
    restore_gone_lem now f u folder uids ms (delete_rows folder gone ms) un
      (λ miss.
        rw
          (
            lookup-delete_rows f u folder gone ms,
            uids_none f u folder rows (folder-rows_of folder uids ms) miss,
          )
          refl)
      (λ hit.
        rw
          (
            lookup-delete_rows f u folder gone ms,
            uids_some f u folder rows (folder-rows_of folder uids ms) hit,
          )
          refl)

rows_of-get_messages :
    (uni : Unicode) (folder : ℕ) (set : Text) (ms : List Message)
    → (get_messages_by_uid_set uni folder set ms ≡ none)
      ⊎ ((uids : List ℕ) × (get_messages_by_uid_set uni folder set ms
            ≡ some (rows_of folder uids ms)))
unfolding get_messages_by_uid_set
rows_of-get_messages uni folder set ms =
    elim (Option-cases (expand_uid_set uni set (folder_uids folder ms))) [
      | inl e ↦ inl (rw e refl)
      | inr (uids, e) ↦ inr (uids, rw e refl)
    ]

module _ (uni : Unicode) (now f u folder : ℕ) (set : Text) (ms changed : List Message)
    (es : List SnapEntry) (un : Unique ms)
    (taken : snapshot_messages uni folder set ms ≡ some es) where
  -- A flag change that was applied and then rejected leaves every message as it was: the snapshot
  -- that was taken first gives back the flags of each row, whichever flags were added and removed,
  -- and no other row is touched. (A row is compared without the time of its last update.)
  pub restore-apply_optimistic_flag_update :
      (t : ℕ) (add remove : List Text)
      → apply_optimistic_flag_update uni t folder set add remove ms ≡ some changed
      → seen (lookup f u (restore_entries now es changed)) ≡ seen (lookup f u ms)
  unfolding snapshot_messages apply_optimistic_flag_update
  restore-apply_optimistic_flag_update t add remove done =
      elim (rows_of-get_messages uni folder set ms) [
        | inl e ↦ absurd (ground arith)
        | inr (uids, e) ↦
            let he : map entry_of (rows_of folder uids ms) ≡ es = ground arith in
            let hc : update_all t folder add remove (rows_of folder uids ms) ms ≡ changed =
              ground arith in
            rw (← he, ← hc) (restore-update_all t now f u folder uids add remove ms un)
      ]

  -- A move whose rows were removed from the folder and that is then rejected: every row of the
  -- snapshot is there again with its UID, flags, sequence number, sender and subject, but its message
  -- id, date and size are NULL and the time of its update is that of the rejection; and no
  -- other row is touched.
  pub restore-remove_messages_from_folder :
      remove_messages_from_folder uni folder set ms ≡ some changed
      → lookup f u (restore_entries now es changed)
        ≡ (if any (at_key f u) es then returned_row now (lookup f u ms) else lookup f u ms)
  unfolding snapshot_messages remove_messages_from_folder
  restore-remove_messages_from_folder done = elim (rows_of-get_messages uni folder set ms) [
    | inl e ↦ absurd (ground arith)
    | inr (uids, e) ↦
        let he : map entry_of (rows_of folder uids ms) ≡ es = ground arith in
        let hc : delete_rows folder (map (λ (m : Message). m.uid) (rows_of folder uids ms)) ms
            ≡ changed =
          ground arith in
        rw (← he, ← hc) (restore-delete_rows now f u folder uids ms un)
  ]
