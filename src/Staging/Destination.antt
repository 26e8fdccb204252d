-- ===== src/Staging/Destination.antt =====
-- gateway/undo.py: `_load_move_destination`, the destination that the audit log has for a move.
use nuvrail.Prelude.{
  ℕ, Bool, true, false, ◌&&◌, List, [], ◌∷◌, Option, none, some, ltb, ◌==◌, if◌then◌else◌,
}
use nuvrail.Prelude.Text.{Text, Unicode, codes, same, digit}
use nuvrail.Audit.Record.{Row}
use nuvrail.Mailbox.{ℤ}

-- What `json.loads` finds in the detail: `none` stands for a value that is not there or has not the
-- type str or int (and a bool is no int here).
pub record MoveDetail : Type 0 where
  pub dest_uids : Option Text
  pub dest_uidvalidity : Option ℤ

-- `json.loads`; `none` is an error, or a value that is no dict.
abbrev pub Loads : Type 0
Loads = Text → Option MoveDetail

-- How far `^\d+(:\d+)?(,\d+(:\d+)?)*$` has read: before or in the first number of a part, before
-- or in its second number, behind a last line feed, or at a character that does not fit.
pub data Scan : Type 0 where
  before_first in_first before_second in_second at_end failed_scan : Scan

abbrev at_digit : Scan → Scan
at_digit before_first = in_first
at_digit in_first = in_first
at_digit before_second = in_second
at_digit in_second = in_second
at_digit _ = failed_scan

abbrev at_colon : Scan → Scan
at_colon in_first = before_second
at_colon _ = failed_scan

abbrev behind_number : Scan → Scan → Scan
behind_number next in_first = next
behind_number next in_second = next
behind_number next _ = failed_scan

abbrev is_digit : Option ℕ → Bool
is_digit none = false
is_digit (some n) = true

abbrev scan_char : Unicode → Scan → ℕ → Scan
scan_char uni at c =
    if is_digit (digit uni c)
    then at_digit at
    else if c == b':'
    then at_colon at
    else if c == b','
    then behind_number before_first at
    else if c == 10
    then behind_number at_end at
    else failed_scan

abbrev is_matched : Scan → Bool
is_matched in_first = true
is_matched in_second = true
is_matched at_end = true
is_matched _ = false

unfoldable pub scan_uid_set : Unicode → Scan → Text → Scan
unfolding digit
scan_uid_set uni at [] = at
scan_uid_set uni at (c ∷ s) = scan_uid_set uni (scan_char uni at c) s

-- `_UID_SET_RE`
unfoldable pub is_uid_set : Unicode → Text → Bool
unfolding scan_uid_set
is_uid_set uni t = is_matched (scan_uid_set uni before_first t)

abbrev is_for : Text → Option Text → Bool
is_for id none = false
is_for id (some t) = same t id

-- ORDER BY id DESC
abbrev later : Row → Option Row → Option Row
later r none = some r
later r (some q) = if ltb r.id q.id then some q else some r

-- SELECT … WHERE operation_id = ? AND event = 'executed' ORDER BY id DESC LIMIT 1
unfoldable pub executed_row : Text → List Row → Option Row
unfolding same
executed_row id [] = none
executed_row id (r ∷ rows) =
    let rest = executed_row id rows in
    if is_for id r.operation_id && same r.event (codes "executed") then later r rest else rest

abbrev loaded : Loads → Option Text → Option MoveDetail
loaded loads none = none
loaded loads (some []) = none
loaded loads (some (c ∷ s)) = loads (c ∷ s)

abbrev detail_of : Option Row → Option Text
detail_of none = none
detail_of (some r) = r.detail

abbrev checked : Unicode → Option Text → Option ℤ → Option (Text × ℤ)
checked uni (some uids) (some validity) =
    if is_uid_set uni uids then some (uids, validity) else none
checked uni (some uids) none = none
checked uni none validity = none

abbrev destination_in : Unicode → Option MoveDetail → Option (Text × ℤ)
destination_in uni none = none
destination_in uni (some d) = checked uni d.dest_uids d.dest_uidvalidity

unfoldable pub load_move_destination : Unicode → Loads → Text → List Row → Option (Text × ℤ)
unfolding executed_row is_uid_set
load_move_destination uni loads id rows =
    destination_in uni (loaded loads (detail_of (executed_row id rows)))
