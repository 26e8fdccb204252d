-- ===== src/Smtp.antt =====
-- gateway/smtp_proxy.py: the readers and the texts of the SMTP proxy.
pub mod Session
pub mod Examples
use nuvrail.Prelude.{
  ℕ, ◌==◌, leb, Bool, true, false, not, ◌&&◌, ◌||◌, List, [], ◌∷◌, ◌++◌, Option, none, some,
  if◌then◌else◌,
}
use mathlib.Core.List.{reverse}
use nuvrail.Prelude.Text.{
  Text, Unicode, codes, same, one_of, is_space, strip, lstrip, lower, join, decode, rstrip_crlf,
}
use nuvrail.Prelude.Text.Edit.{is_blank, text_or_empty}
use nuvrail.Intent.Send.{after_word, strip_subject_prefixes}

-- len(line) >= 4 and line[3:4] == b"-"
abbrev goes_on : List ℕ → Bool
goes_on (a ∷ b ∷ c ∷ d ∷ line) = d == b'-'
goes_on _ = false

abbrev pub push_line : List ℕ → List (List ℕ) × List (List ℕ) → List (List ℕ) × List (List ℕ)
push_line line (read, rest) = (line ∷ read, rest)

-- `_read_smtp_response`: the lines of the response, and those behind it. The end of the stream is the
-- end of the list, or an empty line.
unfoldable pub read_smtp_response : List (List ℕ) → List (List ℕ) × List (List ℕ)
read_smtp_response [] = ([], [])
read_smtp_response ([] ∷ lines) = ([], lines)
read_smtp_response ((c ∷ line) ∷ lines) =
    let more = push_line (c ∷ line) (read_smtp_response lines) in
    if goes_on (c ∷ line) then more else ((c ∷ line) ∷ [], lines)

unfoldable pub joined_bytes : List (List ℕ) → List ℕ
joined_bytes [] = []
joined_bytes (l ∷ ls) = l ++ joined_bytes ls

-- The three headers, and the one that a continuation line adds to.
pub record Headers : Type 0 where
  pub subject : Option Text
  pub in_reply_to : Option Text
  pub references : Option Text

pub data HeaderKey : Type 0 where
  subject_key in_reply_to_key references_key : HeaderKey

abbrev pub no_headers : Headers
no_headers = record { subject = none; in_reply_to = none; references = none }

abbrev pub header_of : HeaderKey → Headers → Option Text
header_of subject_key h = h.subject
header_of in_reply_to_key h = h.in_reply_to
header_of references_key h = h.references

abbrev pub set_header : HeaderKey → Text → Headers → Headers
set_header subject_key v h = record h { subject = some v }
set_header in_reply_to_key v h = record h { in_reply_to = some v }
set_header references_key v h = record h { references = some v }

-- `_SEND_HEADERS`
abbrev send_header : Text → Option HeaderKey
unfolding same
send_header key =
    if same key (codes "subject")
    then some subject_key
    else if same key (codes "in-reply-to")
    then some in_reply_to_key
    else if same key (codes "references")
    then some references_key
    else none

-- line.partition(":")
unfoldable pub partition_colon : Text → Option (Text × Text)
partition_colon [] = none
partition_colon (c ∷ s) =
    let rest = partition_colon s in
    if c == b':'
    then some ([], s)
    else elim rest [ none ↦ none | some (key, value) ↦ some (c ∷ key, value) ]

abbrev continued : Text → Option HeaderKey → Headers → Headers
continued line none h = h
continued line (some k) h =
    set_header k (text_or_empty (header_of k h) ++ (codes " " ++ strip line)) h

-- The first header of a name counts.
abbrev kept_header : Text → Option HeaderKey → Headers → Headers × Option HeaderKey
kept_header value none h = (h, none)
kept_header value (some k) h = elim (header_of k h) [
  | none ↦ (set_header k (strip value) h, some k)
  | some old ↦ (h, none)
]

abbrev header_line : Unicode → Option (Text × Text) → Headers → Headers × Option HeaderKey
header_line uni none h = (h, none)
header_line uni (some (key, value)) h = kept_header value (send_header (lower uni (strip key))) h

abbrev is_folded : Text → Bool
is_folded [] = false
is_folded (c ∷ line) = c == b' ' || c == 9

unfoldable pub header_step :
    Unicode → Text → Option HeaderKey → Headers → Headers × Option HeaderKey
unfolding send_header partition_colon
header_step uni line current h =
    if is_folded line
    then (continued line current h, current)
    else header_line uni (partition_colon line) h

abbrev pub header_text : Unicode → List ℕ → Text
header_text uni raw = rstrip_crlf (decode uni raw)

-- `_extract_send_headers`
unfoldable pub extract_from : Unicode → List (List ℕ) → Option HeaderKey → Headers → Headers
unfolding header_step
extract_from uni [] current h = h
extract_from uni (raw ∷ lines) current h =
    let next = header_step uni (header_text uni raw) current h in
    let rest = extract_from uni lines next.1 next.0 in
    if is_blank (strip (header_text uni raw)) then h else rest

unfoldable pub extract_send_headers : Unicode → List (List ℕ) → Headers
unfolding extract_from
extract_send_headers uni body_lines = extract_from uni body_lines none no_headers

abbrev quoted : Text → Text
quoted t = b'"' ∷ (t ++ b'"' ∷ [])

abbrev or_text : Text → Text → Text
or_text [] b = b
or_text (c ∷ a) b = c ∷ a

abbrev or_unknown : List Text → List Text
or_unknown [] = codes "<unknown>" ∷ []
or_unknown (r ∷ rs) = r ∷ rs

abbrev quoted_or : Text → Text → List Text
quoted_or [] [] = []
quoted_or [] (c ∷ base) = quoted (c ∷ base) ∷ []
quoted_or (c ∷ t) base = quoted (c ∷ t) ∷ []

abbrev from_part : Text → List Text
from_part [] = []
from_part (c ∷ t) = (codes "from " ++ c ∷ t) ∷ []

abbrev reply_text : Text → List Text → Text
reply_text to_list [] = codes "Reply to " ++ to_list
reply_text to_list (p ∷ parts) = codes "Reply to " ++ join (codes " ") (p ∷ parts)

-- Subject and sender of the message that is answered.
abbrev pub Original : Type 0
Original = Option Text × Option Text

abbrev original_subject : Option Original → Text
original_subject none = []
original_subject (some o) = text_or_empty o.0

abbrev original_sender : Option Original → Text
original_sender none = []
original_sender (some o) = text_or_empty o.1

abbrev is_label : Text → Option Text → Bool
is_label t none = false
is_label t (some l) = same l t

-- `_build_send_description`
unfoldable pub build_send_description :
    Unicode → Option Text → Text → List Text → Option Original → Text
unfolding same join strip_subject_prefixes
build_send_description uni intent_label subject recipients original =
    let to_list = join (codes ", ") (or_unknown recipients) in
    let base = strip_subject_prefixes uni subject in
    if is_label (codes "reply") intent_label
    then reply_text to_list
        (quoted_or (original_subject original) base ++ from_part (original_sender original))
    else if is_label (codes "forward") intent_label
    then codes "Forward " ++ (quoted (or_text base subject) ++ (codes " to " ++ to_list))
    else codes "Send email to " ++ (to_list ++ (codes " — Subject: " ++ quoted subject))

-- The text up to the next `>`.
unfoldable pub up_to_gt : Text → Text → Option Text
up_to_gt seen [] = none
up_to_gt seen (c ∷ s) =
    let rest = up_to_gt (seen ++ c ∷ []) s in if c == b'>' then some seen else rest

abbrev bracketed : Text → Option Text
bracketed [] = none
bracketed (c ∷ s) = if c == b'<' then up_to_gt [] s else none

abbrev address_after : Option Text → Option Text
address_after none = none
address_after (some s) = bracketed (lstrip s)

-- `re.search` of the words, \s*, <([^>]*)>
unfoldable pub search_address : Text → Text → Option Text
unfolding after_word up_to_gt lstrip
search_address words [] = none
search_address words (c ∷ s) =
    let rest = search_address words s in
    elim (address_after (after_word words (c ∷ s))) [ none ↦ rest | some a ↦ some a ]

-- bytes.strip()
abbrev pub is_byte_space : ℕ → Bool
is_byte_space c = (leb 9 c && leb c 13) || c == 32

unfoldable pub lstrip_bytes : List ℕ → List ℕ
lstrip_bytes [] = []
lstrip_bytes (c ∷ s) = if is_byte_space c then lstrip_bytes s else c ∷ s

unfoldable pub strip_bytes : List ℕ → List ℕ
unfolding lstrip_bytes
strip_bytes s = reverse (lstrip_bytes (reverse (lstrip_bytes s)))
