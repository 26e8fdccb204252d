-- ===== src/Mailbox/Examples.antt =====
-- A folder of two messages, in which the agent marks both as read, or moves them away.
use nuvrail.Prelude.{ℕ, any, if◌then◌else◌, ◌≡◌, refl, List, [], ◌∷◌, none, some}
use nuvrail.Prelude.Text.{
  Text, Unicode, codes, same, one_of, is_space, lstrip, rstrip, strip, digit,
}
use nuvrail.Staging.Store.{Message, SnapEntry, restore_entries}
use nuvrail.Mailbox.{
  at_most, int_digits, int, split_commas, cut_colon, highest, insert_uid, sorted_uids, filter_uids,
  part_uids, parts_uids, expand_uid_set, folder_uids, insert_message, rows_of,
  get_messages_by_uid_set, entry_of, snapshot_messages, text_leb, insert_flag, merged_flags,
  update_flags, update_all, apply_optimistic_flag_update, delete_rows, remove_messages_from_folder,
}
use nuvrail.Mailbox.Restore.{lookup, Unique, seen, returned_row, at_key}
use nuvrail.Mailbox.Restore.Staged.{
  restore-apply_optimistic_flag_update, restore-remove_messages_from_folder,
}

abbrev pub ascii : Unicode
ascii = record {
  upper_wide = λ c. c ∷ [];
  lower_wide = λ c. c ∷ [];
  digit_wide = λ c. none;
  decode_wide = λ bytes. bytes;
  encode_wide = λ c. c ∷ [];
}

abbrev pub message : ℕ → List Text → Message
message uid flags = record {
  folder_id = 1;
  uid = uid;
  sequence_num = some uid;
  flags = flags;
  sender = some (codes "ann");
  subject = some (codes "hi");
  message_id = some (codes "<m@a>");
  date_sent = some 50;
  size = some 900;
  last_updated = 0;
}

abbrev pub inbox : List Message
inbox = message 42 (codes "\\Flagged" ∷ []) ∷ message 43 [] ∷ []

abbrev pub taken : List SnapEntry
taken = entry_of (message 42 (codes "\\Flagged" ∷ [])) ∷ entry_of (message 43 []) ∷ []

abbrev was_read : Message → Message
was_read m = record m { last_updated = 5 }

abbrev marked : List Message
marked =
    was_read (message 42 (codes "\\Flagged" ∷ codes "\\Seen" ∷ []))
    ∷ was_read (message 43 (codes "\\Seen" ∷ []))
    ∷ []

pub inbox-taken : snapshot_messages ascii 1 (codes "42:*") inbox ≡ some taken
unfolding same is_space lstrip rstrip strip digit at_most int_digits int split_commas cut_colon
    highest insert_uid sorted_uids filter_uids part_uids parts_uids expand_uid_set folder_uids
    insert_message rows_of get_messages_by_uid_set snapshot_messages
inbox-taken = refl

inbox-marked :
    apply_optimistic_flag_update ascii 5 1 (codes "42:*") (codes "\\Seen" ∷ []) [] inbox
    ≡ some marked
unfolding same one_of is_space lstrip rstrip strip digit at_most int_digits int split_commas
    cut_colon highest insert_uid sorted_uids filter_uids part_uids parts_uids expand_uid_set
    folder_uids insert_message rows_of get_messages_by_uid_set apply_optimistic_flag_update text_leb
    insert_flag merged_flags update_flags update_all
inbox-marked = refl

inbox-removed : remove_messages_from_folder ascii 1 (codes "42:*") inbox ≡ some []
unfolding same is_space lstrip rstrip strip digit at_most int_digits int split_commas cut_colon
    highest insert_uid sorted_uids filter_uids part_uids parts_uids expand_uid_set folder_uids
    insert_message rows_of get_messages_by_uid_set remove_messages_from_folder delete_rows
inbox-removed = refl

pub inbox-Unique : Unique inbox
inbox-Unique = (refl, (refl, tt))

restore-apply_optimistic_flag_update_example :
    seen (lookup 1 43 (restore_entries 9 taken marked)) ≡ seen (lookup 1 43 inbox)
restore-apply_optimistic_flag_update_example =
    restore-apply_optimistic_flag_update ascii 9 1 43 1 (codes "42:*") inbox marked taken
      inbox-Unique inbox-taken 5 (codes "\\Seen" ∷ []) [] inbox-marked

restore-remove_messages_from_folder_example :
    lookup 1 43 (restore_entries 9 taken [])
    ≡ (if any (at_key 1 43) taken then returned_row 9 (lookup 1 43 inbox) else lookup 1 43 inbox)
restore-remove_messages_from_folder_example =
    restore-remove_messages_from_folder ascii 9 1 43 1 (codes "42:*") inbox [] taken inbox-Unique
      inbox-taken inbox-removed
