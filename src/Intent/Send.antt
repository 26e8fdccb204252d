-- ===== src/Intent/Send.antt =====
-- gateway/intent.py: message ids, subject prefixes and the intent of an outgoing message.
pub mod Stripped
use nuvrail.Prelude.{
  ℕ, zero, suc, ◌+◌, ◌==◌, leb, Bool, true, false, not, ◌&&◌, ◌||◌, List, [], ◌∷◌, ◌++◌, Option,
  none, some, length, if◌then◌else◌,
}
use nuvrail.Prelude.Text.{Text, Unicode, codes, is_space, lstrip, strip, digit}
use nuvrail.Prelude.Text.Edit.{is_blank}

-- [^<>\s]
unfoldable pub is_id_char : ℕ → Bool
unfolding is_space
is_id_char c = not (c == b'<' || (c == b'>' || is_space c))

-- An `@` with a character on each side; the tests are of what was read before it.
unfoldable pub has_at : Bool → Text → Bool
has_at seen [] = false
has_at seen (c ∷ []) = false
has_at seen (c ∷ d ∷ s) = (seen && c == b'@') || has_at true (d ∷ s)

-- The characters up to the `>`, and what follows it.
unfoldable pub id_body : Text → Text → Option (Text × Text)
id_body seen [] = none
id_body seen (c ∷ s) =
    let rest = id_body (seen ++ c ∷ []) s in
    if c == b'>' then some (seen, s) else if is_id_char c then rest else none

-- <[^<>\s]+@[^<>\s]+> at the front of `<s`
abbrev id_at : Option (Text × Text) → Option Text
id_at none = none
id_at (some (b, rest)) = if has_at false b then some (b'<' ∷ (b ++ b'>' ∷ [])) else none

abbrev found_id : Option Text → List Text → List Text
found_id none ids = ids
found_id (some id) ids = id ∷ ids

-- `findall`; no id begins inside another one.
unfoldable pub extract_message_ids : Text → List Text
unfolding id_body has_at
extract_message_ids [] = []
extract_message_ids (c ∷ s) =
    found_id (if c == b'<' then id_at (id_body [] s) else none) (extract_message_ids s)

-- re.IGNORECASE on a character of a pattern in small letters; the long s folds to s.
abbrev pub is_letter : ℕ → ℕ → Bool
is_letter d c = c == d || ((leb b'a' d && (leb d b'z' && c + 32 == d)) || (d == b's' && c == 383))

-- What follows the word, if it stands at the front.
unfoldable pub after_word : Text → Text → Option Text
after_word [] s = some s
after_word (d ∷ w) [] = none
after_word (d ∷ w) (c ∷ s) = let rest = after_word w s in if is_letter d c then rest else none

-- \d+\] ; the test says that a digit was read.
unfoldable pub after_counter : Unicode → Bool → Text → Option Text
unfolding digit
after_counter uni seen [] = none
after_counter uni seen (c ∷ s) =
    let rest = after_counter uni true s in
    if seen && c == b']' then some s else elim (digit uni c) [ none ↦ none | some d ↦ rest ]

-- (\[\d+\])?
abbrev pub after_bracket : Unicode → Text → Option Text
after_bracket uni [] = some []
after_bracket uni (c ∷ s) = if c == b'[' then after_counter uni false s else some (c ∷ s)

abbrev pub after_colon : Text → Option Text
after_colon [] = none
after_colon (c ∷ s) = if c == b':' then some s else none

abbrev pub after_tail : Option Text → Option Text
after_tail none = none
after_tail (some s) = after_colon (lstrip s)

-- (\[\d+\])?\s*:
abbrev pub after_mark : Unicode → Option Text → Option Text
after_mark uni none = none
after_mark uni (some s) = after_tail (after_bracket uni s)

abbrev pub or_next : Option Text → Option Text → Option Text
or_next none o = o
or_next (some s) o = some s

-- The first word of the alternatives after which the rest of the pattern matches.
unfoldable pub after_prefix : Unicode → List Text → Text → Option Text
unfolding after_word after_counter lstrip
after_prefix uni [] s = none
after_prefix uni (w ∷ words) s =
    or_next (after_mark uni (after_word w s)) (after_prefix uni words s)

abbrev pub reply_words : List Text
reply_words = codes "re" ∷ codes "sv" ∷ codes "aw" ∷ codes "antw" ∷ []

abbrev pub forward_words : List Text
forward_words = codes "fwd" ∷ codes "fw" ∷ codes "wg" ∷ codes "vs" ∷ []

-- `_RE_REPLY_PREFIX`, `_RE_FORWARD_PREFIX`, `_RE_ANY_PREFIX`
unfoldable pub match_prefix : Unicode → List Text → Text → Option Text
unfolding after_prefix lstrip
match_prefix uni words s = after_prefix uni words (lstrip s)

abbrev pub is_match : Option Text → Bool
is_match none = false
is_match (some s) = true

abbrev pub stripped_or : (Text → Text) → Text → Option Text → Text
stripped_or again s none = s
stripped_or again s (some rest) = again (lstrip rest)

-- `while True`, as many rounds as there are characters
unfoldable pub strip_rounds : Unicode → ℕ → Text → Text
unfolding match_prefix lstrip
strip_rounds uni zero s = s
strip_rounds uni (suc n) s =
    stripped_or (strip_rounds uni n) s (match_prefix uni (reply_words ++ forward_words) s)

unfoldable pub strip_subject_prefixes : Unicode → Text → Text
unfolding strip_rounds strip
strip_subject_prefixes uni subject = strip_rounds uni (length (strip subject)) (strip subject)

abbrev confidence : Bool → ℕ
confidence true = 100
confidence false = 80

abbrev is_given : Option Text → Bool
is_given none = false
is_given (some t) = not (is_blank t)

-- The label, and the confidence in hundredths.
unfoldable pub derive_send_intent :
    Unicode → Text → Option Text → Option Text → Bool → Option Text × Option ℕ
unfolding match_prefix
derive_send_intent uni subject in_reply_to references original_found =
    if is_match (match_prefix uni forward_words subject)
    then (some (codes "forward"), some (confidence original_found))
    else if is_given in_reply_to
    then (some (codes "reply"), some (confidence original_found))
    else if is_given references && is_match (match_prefix uni reply_words subject)
    then (some (codes "reply"), some (confidence original_found))
    else (none, none)
