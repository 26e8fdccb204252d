-- ===== src/Imap/Proxy.antt =====
-- gateway/proxy.py, `_client_to_upstream`: what the reading loop does with one line of the agent.
-- The write branch and the APPEND literal hand the command on to staging; that hand-over is the
-- result here. The answers are the texts that the agent gets.
pub mod Wire
use nuvrail.Prelude.{
  ℕ, ◌+◌, ◌*◌, Bool, true, false, not, ◌&&◌, ◌||◌, List, [], ◌∷◌, ◌++◌, Option, none, some, any,
  last?, ◌==◌, if◌then◌else◌,
}
use mathlib.Core.List.{reverse}
use nuvrail.Prelude.Text.{
  Text, Unicode, codes, same, split, join, strip, rstrip, upper, starts_with, digit, decode, encode,
  one_of, rstrip_crlf,
}
use nuvrail.Prelude.Text.Edit.{strip_of}
use nuvrail.Intent.Profile.{ProviderProfile, PendingCopyIntent}
use nuvrail.Imap.Line.{ParsedCommand, parse_line}
use nuvrail.Imap.Router.{Class, read, write, blocked, rejected, classify, filter_enable_args}

-- The `session` dict, as `handle_client` makes it.
pub record Session : Type 0 where
  pub folder : Option Text
  pub folder_id : Option ℕ
  pub select_lines : List Text
  pub in_select : Bool
  pub revert_trigger_tag : Option Text
  pub capability_tag : Option Text
  pub search_uid_mode : Bool
  pub agent_id : ℕ
  pub user_id : ℕ
  pub provider_profile : ProviderProfile
  pub pending_copy_intent : Option PendingCopyIntent
  pub special_use : List (Text × Text)

-- What the loop does with the line. `discard` reads the bytes of a non-synchronizing literal before
-- it answers.
pub data Action : Type 0 where
  ignore : Action
  forward : List ℕ → Action
  reply discard : Text → Action
  stage : ParsedCommand → Action
  stage_append : Text → Action

-- body[:-1] if body.endswith(c) else body
abbrev pub chomp : ℕ → List ℕ → List ℕ
chomp c [] = []
chomp c (d ∷ []) = if d == c then [] else d ∷ []
chomp c (d ∷ e ∷ s) = d ∷ chomp c (e ∷ s)

-- gateway/security_controls.py
unfoldable pub has_bare_cr_or_nul : List ℕ → Bool
has_bare_cr_or_nul line_bytes = any (λ c. c == 13 || c == 0) (chomp 13 (chomp 10 line_bytes))

abbrev literal_verb : Unicode → List Text → Text
literal_verb uni [] = []
literal_verb uni (t ∷ []) = []
literal_verb uni (t ∷ v ∷ []) = upper uni v
literal_verb uni (t ∷ v ∷ x ∷ more) =
    if same (upper uni v) (codes "UID") then codes "UID " ++ upper uni x else upper uni v

unfoldable pub sync_literal_verb : Unicode → Text → Text
sync_literal_verb uni raw = literal_verb uni (split raw)

-- The size in front of the `+}` or `-}` that was read, from its last digit on.
unfoldable pub size_back : Unicode → ℕ → ℕ → Bool → Text → Option ℕ
unfolding digit
size_back uni value weight seen [] = none
size_back uni value weight seen (c ∷ s) = elim (digit uni c) [
  | some d ↦ size_back uni (value + d * weight) (weight * 10) true s
  | none ↦ if seen && c == b'{' then some value else none
]

abbrev nonsync_tail : Unicode → Text → Option ℕ
nonsync_tail uni (c ∷ d ∷ s) =
    if c == b'}' && (d == b'+' || d == b'-') then size_back uni 0 1 false s else none
nonsync_tail uni _ = none

-- ~?\{(\d+)[+-]\}$ on the stripped line, read from its end
unfoldable pub nonsync_literal_size : Unicode → Text → Option ℕ
unfolding size_back rstrip
nonsync_literal_size uni line = nonsync_tail uni (reverse (rstrip line))

-- s.split(" ", 1)[0]
abbrev first_field : Text → Text
first_field [] = []
first_field (c ∷ s) = if c == b' ' then [] else c ∷ first_field s

abbrev without_cr_nul : Text → Text
without_cr_nul [] = []
without_cr_nul (c ∷ s) = if c == 13 || c == 0 then without_cr_nul s else c ∷ without_cr_nul s

-- a or b
abbrev or_else : Text → Text → Text
or_else [] b = b
or_else (c ∷ a) b = c ∷ a

abbrev pub crlf : Text
crlf = 13 ∷ 10 ∷ []

abbrev bad_line_reply : Text → Text
bad_line_reply raw =
    or_else (without_cr_nul (first_field raw)) (codes "*")
    ++ (codes " BAD Nuvrail: bare CR or NUL in command line" ++ crlf)

-- The line ended in a sync literal.
pub incomplete : Unicode → Text → Action
incomplete uni raw =
    let parts = split raw in
    let tag : Text = elim parts [ [] ↦ codes "?" | t ∷ more ↦ t ] in
    let verb = sync_literal_verb uni raw in
    let literal8 : Bool = elim (last? parts) [
      | none ↦ false
      | some t ↦ starts_with t (codes "~")
    ] in
    let what =
      if literal8
      then codes "literal8 (~{N})"
      else codes "a literal on " ++ or_else verb (codes "this command") in
    if not (same verb (codes "APPEND")) || literal8
    then reply
        (tag ++ (codes " NO [CANNOT] Nuvrail: " ++ (what ++ (codes " is not supported" ++ crlf))))
    else stage_append raw

pub nonsync_reply : ParsedCommand → Text
nonsync_reply cmd =
    cmd.tag
    ++ (codes " NO [CANNOT] Nuvrail: non-synchronizing literals are not supported, use {N}" ++ crlf)

-- The line is blank, a verb that is not classified, or a tag alone.
pub refuse : Text → ParsedCommand → Action
refuse raw cmd =
    if same (strip raw) []
    then ignore
    else if same cmd.command []
    then reply (cmd.tag ++ (codes " BAD Nuvrail: missing command" ++ crlf))
    else reply (
        cmd.tag
        ++ (codes " NO [CANNOT] Nuvrail: "
            ++ (cmd.command ++ (codes " is not permitted for agents" ++ crlf))))

abbrev selected : Session → List Text → Session
selected s [] = s
selected s (a ∷ args) =
    let folder_name = strip_of b'"' a in
    if same folder_name [] then s else record s {
      folder = some folder_name;
      folder_id = none;
      select_lines = [];
      in_select = false;
    }

unfoldable pub track_select : Unicode → Session → ParsedCommand → Session
track_select uni s cmd =
    if one_of (upper uni cmd.command) (codes "SELECT" ∷ codes "EXAMINE" ∷ [])
    then selected s cmd.args
    else s

unfoldable pub track_revert : Unicode → Session → ParsedCommand → Session
track_revert uni s cmd =
    if one_of (upper uni cmd.command)
      (codes "SELECT" ∷ codes "EXAMINE" ∷ codes "NOOP" ∷ codes "FETCH" ∷ [])
    then record s { revert_trigger_tag = some (upper uni cmd.tag) }
    else s

unfoldable pub track_capability : Unicode → Session → ParsedCommand → Session
track_capability uni s cmd =
    if same (upper uni cmd.command) (codes "CAPABILITY")
    then record s { capability_tag = some (upper uni cmd.tag) }
    else s

unfoldable pub track_search : Unicode → Session → ParsedCommand → Session
track_search uni s cmd =
    if same (upper uni cmd.command) (codes "SEARCH")
    then record s { search_uid_mode = cmd.uid }
    else s

abbrev pub same_list : List Text → List Text → Bool
same_list [] [] = true
same_list (x ∷ xs) (y ∷ ys) = same x y && same_list xs ys
same_list [] (y ∷ ys) = false
same_list (x ∷ xs) [] = false

-- The line that goes upstream for ENABLE, or `none` when it is answered here.
pub enable_line : Unicode → List ℕ → ParsedCommand → List Text → Option (List ℕ)
enable_line uni line_bytes cmd [] = none
enable_line uni line_bytes cmd (k ∷ kept) =
    if same_list (k ∷ kept) cmd.args
    then some line_bytes
    else some (encode uni (cmd.tag ++ (codes " ENABLE " ++ (join (codes " ") (k ∷ kept) ++ crlf))))

unfoldable pub read_line : Unicode → List ℕ → ParsedCommand → Option (List ℕ)
read_line uni line_bytes cmd =
    if same (upper uni cmd.command) (codes "ENABLE")
    then enable_line uni line_bytes cmd (filter_enable_args uni cmd.args)
    else some line_bytes

abbrev enabled_reply : ParsedCommand → Text
enabled_reply cmd =
    codes "* ENABLED" ++ (crlf ++ (cmd.tag ++ (codes " OK ENABLE completed" ++ crlf)))

-- `if action == "read"`
unfoldable pub pass_through : Unicode → Session → List ℕ → ParsedCommand → Session × Action
pass_through uni s line_bytes cmd =
    let s' = track_capability uni (track_revert uni (track_select uni s cmd) cmd) cmd in
    elim (read_line uni line_bytes cmd) [
      | none ↦ (s', reply (enabled_reply cmd))
      | some out ↦ (track_search uni s' cmd, forward out)
    ]

abbrev by_class : Unicode → Session → List ℕ → Text → ParsedCommand → Class → Session × Action
by_class uni s line_bytes raw cmd rejected = (s, refuse raw cmd)
by_class uni s line_bytes raw cmd read = pass_through uni s line_bytes cmd
by_class uni s line_bytes raw cmd write = (s, stage cmd)
by_class uni s line_bytes raw cmd blocked = (s, reply (cmd.tag ++ (codes " OK Noted" ++ crlf)))

unfoldable pub dispatch :
    Unicode → Session → List ℕ → Text → Option ParsedCommand → Session × Action
dispatch uni s line_bytes raw none = (s, incomplete uni raw)
dispatch uni s line_bytes raw (some cmd) = elim (nonsync_literal_size uni raw) [
  | some size ↦ (s, discard (nonsync_reply cmd))
  | none ↦ by_class uni s line_bytes raw cmd (classify uni cmd)
]

unfoldable pub handle_line : Unicode → Session → List ℕ → Session × Action
handle_line uni s line_bytes =
    let raw = rstrip_crlf (decode uni line_bytes) in
    if has_bare_cr_or_nul line_bytes
    then (s, reply (bad_line_reply raw))
    else dispatch uni s line_bytes raw (parse_line uni raw)
