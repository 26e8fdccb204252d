-- ===== src/Mailbox.antt =====
-- gateway/state_db.py: UID sets over the table of messages, and the optimistic changes that the
-- proxy makes when it stages a flag change or a move.
pub mod Restore
pub mod Folders
pub mod Examples
use nuvrail.Prelude.{
  ℕ, ◌+◌, ◌*◌, zero, suc, Bool, true, false, not, ◌&&◌, ◌||◌, List, [], ◌∷◌, ◌++◌, Option, none,
  some, map, any, leb, ltb, ◌==◌, if◌then◌else◌,
}
use nuvrail.Prelude.Text.{Text, Unicode, codes, same, one_of, strip, digit}
use nuvrail.Staging.Store.{Message, SnapEntry}

-- Python's integers.
pub data ℤ : Type 0 where
  pos negsuc : ℕ → ℤ

unfoldable pub at_most : ℤ → ℤ → Bool
at_most (pos a) (pos b) = leb a b
at_most (pos a) (negsuc b) = false
at_most (negsuc a) (pos b) = true
at_most (negsuc a) (negsuc b) = leb b a

-- The digits of `int(s)`, with single underscores between them.
unfoldable pub int_digits : Unicode → ℕ → Bool → Text → Option ℕ
unfolding digit
int_digits uni acc seen [] = if seen then some acc else none
int_digits uni acc seen (c ∷ s) = elim (digit uni c) [
  | some d ↦ int_digits uni (acc * 10 + d) true s
  | none ↦ let rest = int_digits uni acc false s in if seen && c == b'_' then rest else none
]

abbrev negated : ℕ → ℤ
negated zero = pos 0
negated (suc n) = negsuc n

abbrev to_pos : Option ℕ → Option ℤ
to_pos none = none
to_pos (some n) = some (pos n)

abbrev to_neg : Option ℕ → Option ℤ
to_neg none = none
to_neg (some n) = some (negated n)

abbrev signed : Unicode → Text → Option ℤ
signed uni [] = none
signed uni (c ∷ s) =
    if c == b'-'
    then to_neg (int_digits uni 0 false s)
    else if c == b'+'
    then to_pos (int_digits uni 0 false s)
    else to_pos (int_digits uni 0 false (c ∷ s))

-- int(s); `none` is the ValueError
unfoldable pub int : Unicode → Text → Option ℤ
unfolding int_digits strip
int uni s = signed uni (strip s)

-- s.split(","), which keeps empty pieces
unfoldable pub split_commas : Text → Text → List Text
split_commas piece [] = piece ∷ []
split_commas piece (c ∷ s) =
    let cut = split_commas [] s in
    let go = split_commas (piece ++ c ∷ []) s in if c == b',' then piece ∷ cut else go

-- part.split(":", 1), where there is a colon
unfoldable pub cut_colon : Text → Text → Option (Text × Text)
cut_colon low [] = none
cut_colon low (c ∷ s) =
    let rest = cut_colon (low ++ c ∷ []) s in if c == b':' then some (low, s) else rest

-- max(known_uids)
unfoldable pub highest : List ℕ → ℕ
highest [] = 0
highest (u ∷ us) = let rest = highest us in if leb u rest then rest else u

-- sorted(set(…))
unfoldable pub insert_uid : ℕ → List ℕ → List ℕ
insert_uid u [] = u ∷ []
insert_uid u (v ∷ vs) =
    let rest = insert_uid u vs in
    if u == v then v ∷ vs else if ltb u v then u ∷ v ∷ vs else v ∷ rest

unfoldable pub sorted_uids : List ℕ → List ℕ
unfolding insert_uid
sorted_uids [] = []
sorted_uids (u ∷ us) = insert_uid u (sorted_uids us)

unfoldable pub filter_uids : (ℕ → Bool) → List ℕ → List ℕ
filter_uids p [] = []
filter_uids p (u ∷ us) = let rest = filter_uids p us in if p u then u ∷ rest else rest

abbrev endpoint : Unicode → ℕ → Text → Option ℤ
endpoint uni max_uid s = if same s (codes "*") then some (pos max_uid) else int uni s

abbrev between : ℤ → ℤ → ℕ → Bool
between low high u = at_most low (pos u) && at_most (pos u) high

-- if low > high: low, high = high, low
abbrev in_range : ℤ → ℤ → ℕ → Bool
in_range low high u = if at_most low high then between low high u else between high low u

abbrev is_uid : ℤ → ℕ → Bool
is_uid (pos n) u = u == n
is_uid (negsuc n) u = false

abbrev range : Unicode → ℕ → List ℕ → Text × Text → Option (List ℕ)
range uni max_uid known (low, high) = elim (endpoint uni max_uid low) [
  | none ↦ none
  | some a ↦ elim (endpoint uni max_uid high) [
    | none ↦ none
    | some b ↦ some (filter_uids (in_range a b) known)
  ]
]

-- The UIDs of one part of the set.
unfoldable pub part_uids : Unicode → List ℕ → Text → Option (List ℕ)
unfolding cut_colon at_most int filter_uids highest same
part_uids uni known part = elim (cut_colon [] part) [
  | some ends ↦ range uni (highest known) known ends
  | none ↦
      if same part (codes "*")
      then some (highest known ∷ [])
      else elim (int uni part) [ none ↦ none | some n ↦ some (filter_uids (is_uid n) known) ]
]

abbrev both : Option (List ℕ) → Option (List ℕ) → Option (List ℕ)
both none o = none
both (some us) none = none
both (some us) (some vs) = some (us ++ vs)

unfoldable pub parts_uids : Unicode → List ℕ → List Text → Option (List ℕ)
unfolding part_uids strip
parts_uids uni known [] = some []
parts_uids uni known (part ∷ parts) =
    both (part_uids uni known (strip part)) (parts_uids uni known parts)

abbrev sorted_result : Option (List ℕ) → Option (List ℕ)
sorted_result none = none
sorted_result (some us) = some (sorted_uids us)

-- `_expand_uid_set`. No known UID gives no result, whatever the set is; `none` is the ValueError.
unfoldable pub expand_uid_set : Unicode → Text → List ℕ → Option (List ℕ)
unfolding parts_uids split_commas sorted_uids
expand_uid_set uni set [] = some []
expand_uid_set uni set (u ∷ known) =
    sorted_result (parts_uids uni (u ∷ known) (split_commas [] set))

-- SELECT uid FROM messages WHERE folder_id = ? ORDER BY uid
unfoldable pub folder_uids : ℕ → List Message → List ℕ
unfolding insert_uid
folder_uids folder [] = []
folder_uids folder (m ∷ ms) =
    let rest = folder_uids folder ms in
    if m.folder_id == folder then insert_uid m.uid rest else rest

-- folder_id = ? AND uid IN (…)
abbrev pub is_target : ℕ → List ℕ → Message → Bool
is_target folder uids m = m.folder_id == folder && any (λ u. u == m.uid) uids

-- ORDER BY uid
unfoldable pub insert_message : Message → List Message → List Message
insert_message m [] = m ∷ []
insert_message m (n ∷ ns) =
    let rest = insert_message m ns in if leb m.uid n.uid then m ∷ n ∷ ns else n ∷ rest

unfoldable pub rows_of : ℕ → List ℕ → List Message → List Message
rows_of folder uids [] = []
rows_of folder uids (m ∷ ms) =
    let rest = rows_of folder uids ms in
    if is_target folder uids m then insert_message m rest else rest

abbrev rows_or_error : ℕ → List Message → Option (List ℕ) → Option (List Message)
rows_or_error folder ms none = none
rows_or_error folder ms (some uids) = some (rows_of folder uids ms)

unfoldable pub get_messages_by_uid_set : Unicode → ℕ → Text → List Message → Option (List Message)
unfolding expand_uid_set folder_uids rows_of
get_messages_by_uid_set uni folder set ms =
    rows_or_error folder ms (expand_uid_set uni set (folder_uids folder ms))

abbrev pub entry_of : Message → SnapEntry
entry_of m = record {
  uid = m.uid;
  flags = m.flags;
  seq_num = m.sequence_num;
  folder_id = m.folder_id;
  sender = m.sender;
  subject = m.subject;
}

abbrev pub entries : Option (List Message) → Option (List SnapEntry)
entries none = none
entries (some rows) = some (map entry_of rows)

unfoldable pub snapshot_messages : Unicode → ℕ → Text → List Message → Option (List SnapEntry)
unfolding get_messages_by_uid_set
snapshot_messages uni folder set ms = entries (get_messages_by_uid_set uni folder set ms)

-- a <= b on strings
unfoldable pub text_leb : Text → Text → Bool
text_leb [] b = true
text_leb (x ∷ a) [] = false
text_leb (x ∷ a) (y ∷ b) = let rest = text_leb a b in if x == y then rest else ltb x y

unfoldable pub insert_flag : Text → List Text → List Text
unfolding same text_leb
insert_flag f [] = f ∷ []
insert_flag f (g ∷ gs) =
    let rest = insert_flag f gs in
    if same f g then g ∷ gs else if text_leb f g then f ∷ g ∷ gs else g ∷ rest

-- sorted((current | flags_add) - flags_remove)
unfoldable pub merged_flags : List Text → List Text → List Text → List Text
unfolding one_of insert_flag
merged_flags remove [] [] = []
merged_flags remove [] (f ∷ add) =
    let rest = merged_flags remove [] add in if one_of f remove then rest else insert_flag f rest
merged_flags remove (f ∷ current) add =
    let rest = merged_flags remove current add in
    if one_of f remove then rest else insert_flag f rest

unfoldable pub update_flags : ℕ → ℕ → List Text → List Text → Message → List Message → List Message
update_flags now folder add remove row [] = []
update_flags now folder add remove row (m ∷ ms) =
    (if m.folder_id == folder && m.uid == row.uid
      then record m { flags = merged_flags remove row.flags add; last_updated = now }
      else m)
    ∷ update_flags now folder add remove row ms

unfoldable pub update_all :
    ℕ → ℕ → List Text → List Text → List Message → List Message → List Message
unfolding update_flags merged_flags
update_all now folder add remove [] ms = ms
update_all now folder add remove (row ∷ rows) ms =
    update_all now folder add remove rows (update_flags now folder add remove row ms)

abbrev pub updated :
    ℕ → ℕ → List Text → List Text → List Message → Option (List Message) → Option (List Message)
updated now folder add remove ms none = none
updated now folder add remove ms (some rows) = some (update_all now folder add remove rows ms)

unfoldable pub apply_optimistic_flag_update :
    Unicode → ℕ → ℕ → Text → List Text → List Text → List Message → Option (List Message)
unfolding update_all get_messages_by_uid_set
apply_optimistic_flag_update uni now folder set add remove ms =
    updated now folder add remove ms (get_messages_by_uid_set uni folder set ms)

-- DELETE FROM messages WHERE folder_id = ? AND uid IN (…)
unfoldable pub delete_rows : ℕ → List ℕ → List Message → List Message
delete_rows folder uids [] = []
delete_rows folder uids (m ∷ ms) =
    let rest = delete_rows folder uids ms in if is_target folder uids m then rest else m ∷ rest

abbrev uid_of : Message → ℕ
uid_of m = m.uid

abbrev pub removed : ℕ → List Message → Option (List Message) → Option (List Message)
removed folder ms none = none
removed folder ms (some rows) = some (delete_rows folder (map uid_of rows) ms)

unfoldable pub remove_messages_from_folder :
    Unicode → ℕ → Text → List Message → Option (List Message)
unfolding get_messages_by_uid_set delete_rows
remove_messages_from_folder uni folder set ms =
    removed folder ms (get_messages_by_uid_set uni folder set ms)
