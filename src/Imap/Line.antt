-- ===== src/Imap/Line.antt =====
-- gateway/imap_parser.py: one command line, without its CRLF, to a `ParsedCommand`.
-- The tokenizer's loops over an index are one pass over the characters, with the loop that is
-- running, and what it has read, as the state.

pub mod Quoted
use nuvrail.Prelude.{
  ℕ, zero, suc, ◌+◌, ◌-◌, Bool, true, false, ◌&&◌, List, [], ◌∷◌, ◌++◌, Option, none, some, last?,
  ◌==◌, if◌then◌else◌,
}
use nuvrail.Prelude.Text.{Text, Unicode, codes, same, split, strip, upper, digit}

pub record ParsedCommand : Type 0 where
  pub tag : Text
  pub command : Text
  pub uid : Bool
  pub args : List Text
  pub raw : Text

unfoldable pub skip_spaces : Text → Text
skip_spaces [] = []
skip_spaces (c ∷ s) = if c == b' ' then skip_spaces s else c ∷ s

unfoldable pub skip_word : Text → Text
skip_word [] = []
skip_word (c ∷ s) = if c == b' ' then c ∷ s else skip_word s

-- Only SP separates words here, unlike in `split`.
unfoldable pub skip_n_tokens : Text → ℕ → Text
unfolding skip_spaces skip_word
skip_n_tokens line zero = skip_spaces line
skip_n_tokens line (suc n) = skip_n_tokens (skip_word (skip_spaces line)) n

-- Which of the tokenizer's loops runs. `escaped` is the quoted loop behind a backslash.
pub data Mode : Type 0 where
  start : Mode
  quoted escaped literal atom : Text → Mode
  paren bracket : ℕ → Text → Mode

-- One character: the loop that runs next, and the token that ended, if any.
unfoldable pub step : Mode → ℕ → Mode × List Text
step start c =
    if c == b' '
    then (start, [])
    else if c == b'"'
    then (quoted [], [])
    else if c == b'('
    then (paren 1 (c ∷ []), [])
    else if c == b'{'
    then (literal (c ∷ []), [])
    else if c == b'['
    then (bracket 1 (c ∷ []), [])
    else (atom (c ∷ []), [])
step (quoted buf) c =
    if c == b'\\'
    then (escaped buf, [])
    else if c == b'"'
    then (start, buf ∷ [])
    else (quoted (buf ++ c ∷ []), [])
step (escaped buf) c = (quoted (buf ++ c ∷ []), [])
step (paren depth buf) c =
    if c == b'('
    then (paren (depth + 1) (buf ++ c ∷ []), [])
    else if c == b')'
    then if depth == 1
      then (start, (buf ++ c ∷ []) ∷ [])
      else (paren (depth - 1) (buf ++ c ∷ []), [])
    else (paren depth (buf ++ c ∷ []), [])
step (literal buf) c =
    if c == b'}' then (start, (buf ++ c ∷ []) ∷ []) else (literal (buf ++ c ∷ []), [])
step (atom buf) c =
    if c == b' '
    then (start, buf ∷ [])
    else if c == b'['
    then (bracket 1 (buf ++ c ∷ []), [])
    else (atom (buf ++ c ∷ []), [])
step (bracket depth buf) c =
    if c == b'['
    then (bracket (depth + 1) (buf ++ c ∷ []), [])
    else if c == b']'
    then if depth == 1
      then (atom (buf ++ c ∷ []), [])
      else (bracket (depth - 1) (buf ++ c ∷ []), [])
    else (bracket depth (buf ++ c ∷ []), [])

-- The end of the line: a loop that still runs emits what it has read. A backslash with nothing
-- behind it is an ordinary character.
unfoldable pub finish : Mode → List Text
finish start = []
finish (quoted buf) = buf ∷ []
finish (escaped buf) = (buf ++ b'\\' ∷ []) ∷ []
finish (paren depth buf) = buf ∷ []
finish (literal buf) = buf ∷ []
finish (atom buf) = buf ∷ []
finish (bracket depth buf) = buf ∷ []

unfoldable pub scan : Mode → Text → List Text
unfolding step finish
scan m [] = finish m
scan m (c ∷ s) = let (next, out) = step m c in out ++ scan next s

unfoldable pub tokenize_args : Text → List Text
unfolding scan
tokenize_args s = scan start s

abbrev is_digit : Unicode → ℕ → Bool
is_digit uni c = elim (digit uni c) [ none ↦ false | some d ↦ true ]

-- The digits of `{N}` and its brace, which ends the token. The flag is that a digit was read.
unfoldable pub digits_then_brace : Unicode → Bool → Text → Bool
unfolding digit
digits_then_brace uni seen [] = false
digits_then_brace uni seen (c ∷ s) =
    let more = digits_then_brace uni true s in
    if is_digit uni c then more else seen && (c == b'}' && same s [])

abbrev braced : Unicode → Text → Bool
braced uni [] = false
braced uni (c ∷ s) = c == b'{' && digits_then_brace uni false s

-- ^~?\{\d+\}$, on a token, which holds no line ending
unfoldable pub is_sync_literal : Unicode → Text → Bool
unfolding digits_then_brace same
is_sync_literal uni [] = false
is_sync_literal uni (c ∷ s) = if c == b'~' then braced uni s else braced uni (c ∷ s)

-- `if args and _SYNC_LITERAL_RE.match(args[-1])`
unfoldable pub ends_in_sync_literal : Unicode → List Text → Bool
unfolding is_sync_literal
ends_in_sync_literal uni args = elim (last? args) [ none ↦ false | some t ↦ is_sync_literal uni t ]

abbrev pub finish_line : Unicode → ParsedCommand → Option ParsedCommand
finish_line uni cmd = if ends_in_sync_literal uni cmd.args then none else some cmd

abbrev pub plain_command : Unicode → Text → Text → Text → Option ParsedCommand
plain_command uni line tag verb = finish_line uni (record {
  tag = tag;
  command = upper uni verb;
  uid = false;
  args = tokenize_args (skip_n_tokens line 2);
  raw = line;
})

abbrev pub uid_command : Unicode → Text → Text → Text → Option ParsedCommand
uid_command uni line tag verb = finish_line uni (record {
  tag = tag;
  command = upper uni verb;
  uid = true;
  args = tokenize_args (skip_n_tokens line 3);
  raw = line;
})

abbrev pub bare_tag : Text → Option ParsedCommand
bare_tag line = some (record { tag = strip line; command = []; uid = false; args = []; raw = line })

-- The rest of `parse_line`, by the number of words.
abbrev pub of_words : Unicode → Text → List Text → Option ParsedCommand
of_words uni line [] = bare_tag line
of_words uni line (tag ∷ []) = bare_tag line
of_words uni line (tag ∷ verb ∷ []) = plain_command uni line tag verb
of_words uni line (tag ∷ verb ∷ third ∷ more) =
    if same (upper uni verb) (codes "UID")
    then uid_command uni line tag third
    else plain_command uni line tag verb

-- `none` means that the line ends in a sync literal, and the command is not complete.
unfoldable pub parse_line : Unicode → Text → Option ParsedCommand
unfolding ends_in_sync_literal tokenize_args skip_n_tokens same split strip upper
parse_line uni line = of_words uni line (split line)
