-- ===== src/Imap/Append.antt =====
-- gateway/proxy.py: an APPEND whose literal follows on the connection, which is a list of bytes.
pub mod Discard
pub mod Staged
pub mod Examples
use nuvrail.Prelude.{
  ℕ, zero, suc, ◌+◌, ◌==◌, leb, ltb, Bool, true, false, not, ◌&&◌, ◌||◌, List, [], ◌∷◌, ◌++◌,
  Option, none, some, length, if◌then◌else◌,
}
use mathlib.Core.List.{reverse}
use nuvrail.Prelude.Text.{Text, Unicode, codes, split, decode, rstrip_crlf}
use nuvrail.Audit.Record.{Sha256}
use nuvrail.Staging.Store.{Request}
use nuvrail.Staging.Create.{Provider}
use nuvrail.Operation.{ParsedOperation, parse_append}
use nuvrail.Intent.{derive_intent}
use nuvrail.Intent.Profile.{should_suppress_append}
use nuvrail.Imap.Proxy.{crlf, size_back, nonsync_literal_size}
use nuvrail.Imap.Write.{arg_or}
use nuvrail.Imap.Write.Stage.{World, Draw, create_in_batch, request_of}

-- readexactly(n); `none` is an IncompleteReadError
unfoldable pub read_exactly : ℕ → List ℕ → Option (List ℕ × List ℕ)
read_exactly zero input = some ([], input)
read_exactly (suc n) [] = none
read_exactly (suc n) (b ∷ input) = elim (read_exactly n input) [
  | none ↦ none
  | some (read, rest) ↦ some (b ∷ read, rest)
]

-- readline(), which is empty at the end of the input
unfoldable pub read_line_bytes : List ℕ → List ℕ × List ℕ
read_line_bytes [] = ([], [])
read_line_bytes (b ∷ input) =
    let (line, rest) = read_line_bytes input in
    if b == 10 then (b ∷ [], input) else (b ∷ line, rest)

-- \{(\d+)\+?\}$ on the line, read from its end
abbrev braced_size : Unicode → Text → Option ℕ
braced_size uni (c ∷ d ∷ s) =
    if c == b'}'
    then (if d == b'+' then size_back uni 0 1 false s else size_back uni 0 1 false (d ∷ s))
    else none
braced_size uni _ = none

abbrev or_zero : Option ℕ → ℕ
or_zero none = 0
or_zero (some n) = n

unfoldable pub literal_size : Unicode → Text → ℕ
unfolding size_back
literal_size uni raw = or_zero (braced_size uni (reverse raw))

abbrev tail_size : Unicode → Text → Option ℕ
tail_size uni (c ∷ d ∷ s) =
    if c == b'}'
    then (if d == b'+' || d == b'-'
        then size_back uni 0 1 false s
        else size_back uni 0 1 false (d ∷ s))
    else none
tail_size uni _ = none

abbrev is_size : Option ℕ → Bool
is_size none = false
is_size (some n) = true

-- `_LITERAL_TAIL_RE`
unfoldable pub ends_in_literal : Unicode → Text → Bool
unfolding size_back
ends_in_literal uni line = is_size (tail_size uni (reverse line))

-- The text up to the next `)`
unfoldable pub up_to_paren : Text → Text → Option Text
up_to_paren seen [] = none
up_to_paren seen (c ∷ s) =
    let rest = up_to_paren (seen ++ c ∷ []) s in if c == b')' then some seen else rest

abbrev words_of : Option Text → List Text
words_of none = []
words_of (some t) = split t

-- \(([^)]*)\)
unfoldable pub append_flags : Text → List Text
unfolding up_to_paren split
append_flags [] = []
append_flags (c ∷ s) =
    let rest = append_flags s in if c == b'(' then words_of (up_to_paren [] s) else rest

-- What a handler leaves: the input behind it, what was answered, and whether the session goes on.
pub record Outcome : Type 0 where
  pub world : World
  pub input : List ℕ
  pub answers : List Text
  pub is_open : Bool

-- The input behind the literals, what was answered, and the Boolean result.
pub record Discarded : Type 0 where
  pub input : List ℕ
  pub answers : List Text
  pub is_open : Bool

abbrev pub lost : Discarded
lost = record { input = []; answers = []; is_open = false }

abbrev pub next_text : Unicode → List ℕ → Text
next_text uni line = rstrip_crlf (decode uni line)

abbrev pub after_line :
    (Text → List ℕ → Option Discarded) → Unicode → List ℕ × List ℕ → Option Discarded
after_line again uni ([], rest) = some lost
after_line again uni (b ∷ line, rest) = again (next_text uni (b ∷ line)) rest

abbrev pub after_literal :
    (Text → List ℕ → Option Discarded) → Unicode → Option (List ℕ × List ℕ) → Option Discarded
after_literal again uni none = some lost
after_literal again uni (some (read, rest)) = after_line again uni (read_line_bytes rest)

abbrev too_large : List ℕ → Discarded
too_large input = record {
  input = input;
  answers = (codes "* BYE Nuvrail: literal too large" ++ crlf) ∷ [];
  is_open = false;
}

abbrev pub discard_size :
    (Text → List ℕ → Option Discarded) → Unicode → ℕ → List ℕ → Option ℕ → Option Discarded
discard_size again uni cap input none =
    some (record { input = input; answers = []; is_open = true })
discard_size again uni cap input (some size) =
    if ltb cap size
    then some (too_large input)
    else after_literal again uni (read_exactly size input)

-- `_discard_nonsync_literals`; `none` says that the fuel ran out.
unfoldable pub discard_nonsync_literals : ℕ → Unicode → ℕ → Text → List ℕ → Option Discarded
unfolding read_exactly read_line_bytes nonsync_literal_size
discard_nonsync_literals zero uni cap line input = none
discard_nonsync_literals (suc fuel) uni cap line input =
    discard_size (discard_nonsync_literals fuel uni cap) uni cap input
      (nonsync_literal_size uni line)

abbrev pub ready_text : Text
ready_text = codes "+ Ready for literal data" ++ crlf

-- `literal_data`: a body over the cap is read and dropped.
abbrev pub kept_data : ℕ → ℕ → List ℕ → List ℕ
kept_data cap size read = if leb size cap then read else []

abbrev pub encoded : (List ℕ → Text) → List ℕ → Option Text
encoded b64encode [] = none
encoded b64encode (b ∷ bytes) = some (b64encode (b ∷ bytes))

unfoldable pub append_request :
    Unicode → (List ℕ → Text) → ParsedOperation → List ℕ → World → Request
unfolding derive_intent
append_request uni b64encode op body w =
    let (intent, conf) =
      derive_intent uni op (some w.session.provider_profile) none w.session.special_use in
    record (request_of w.session op op.description) {
      folder_from = none;
      flags_add = some op.flags_add;
      append_message = encoded b64encode body;
      intent_label = intent;
      intent_confidence = conf;
    }

abbrev append_text : Text → Text → Bool → Text
append_text tag id true = tag ++ (codes " OK [STAGED] Operation queued — ID: " ++ (id ++ crlf))
append_text tag id false = tag ++ (codes " OK [STAGED] Operation queued for approval" ++ crlf)

abbrev pub append_outcome : Text → Text → List ℕ → World × Bool → Outcome
append_outcome tag id input (w, made) = record {
  world = w;
  input = input;
  answers = ready_text ∷ append_text tag id made ∷ [];
  is_open = true;
}

-- The literal was read whole.
unfoldable pub stage_literal :
    Sha256
    → Unicode
    → Provider
    → (List ℕ → Text)
    → Draw
    → Text
    → List Text
    → ℕ
    → List ℕ
    → List ℕ
    → World
    → Outcome
unfolding should_suppress_append parse_append append_request create_in_batch append_flags
stage_literal sha uni provider b64encode d raw parts size body input w =
    let tag = arg_or 0 (codes "?") parts in
    let folder = arg_or 2 (codes "INBOX") parts in
    let op = parse_append uni tag folder (append_flags raw) size in
    if should_suppress_append uni folder w.session.provider_profile
    then record {
      world = w;
      input = input;
      answers = ready_text ∷ (tag ++ (codes " OK APPEND completed" ++ crlf)) ∷ [];
      is_open = true;
    }
    else append_outcome tag d.op_id input
        (create_in_batch sha provider d folder (append_request uni b64encode op body w) w)

abbrev multi_text : Text → Text
multi_text tag =
    tag
    ++ (codes " NO [CANNOT] Nuvrail: MULTIAPPEND is not supported, append one message per command"
        ++ crlf)

abbrev session_lost : World → Outcome
session_lost w = record { world = w; input = []; answers = ready_text ∷ []; is_open = false }

abbrev multi_refused : Text → World → Option Discarded → Outcome
multi_refused tag w none = session_lost w
multi_refused tag w (some r) = record {
  world = w;
  input = r.input;
  answers = ready_text ∷ (r.answers ++ (if r.is_open then multi_text tag ∷ [] else []));
  is_open = r.is_open;
}

abbrev pub literal_read :
    Sha256
    → Unicode
    → Provider
    → (List ℕ → Text)
    → ℕ
    → Draw
    → Text
    → ℕ
    → World
    → Option (List ℕ × List ℕ)
    → Outcome
literal_read sha uni provider b64encode cap d raw size w none = session_lost w
literal_read sha uni provider b64encode cap d raw size w (some (body, input)) =
    let (line, rest) = read_line_bytes input in
    if ends_in_literal uni (next_text uni line)
    then multi_refused (arg_or 0 (codes "?") (split raw)) w
        (discard_nonsync_literals (suc (length rest)) uni cap (next_text uni line) rest)
    else stage_literal sha uni provider b64encode d raw (split raw) size (kept_data cap size body)
        rest w

-- The branch of a plain APPEND with a synchronizing literal.
unfoldable pub handle_append :
    Sha256 → Unicode → Provider → (List ℕ → Text) → ℕ → Draw → Text → List ℕ → World → Outcome
unfolding literal_size ends_in_literal discard_nonsync_literals read_exactly read_line_bytes
    stage_literal split decode
handle_append sha uni provider b64encode cap d raw input w =
    literal_read sha uni provider b64encode cap d raw (literal_size uni raw) w
      (read_exactly (literal_size uni raw) input)
