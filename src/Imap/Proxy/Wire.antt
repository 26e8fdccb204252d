-- ===== src/Imap/Proxy/Wire.antt =====
-- What the mail server reads in a line that the proxy forwards, against what the proxy classified.
use nuvrail.Prelude.{
  ℕ, ◌≡◌, refl, ap, ◌∙◌, append_assoc, Bool, true, false, not, ◌&&◌, ◌||◌, List, [], ◌∷◌, ◌++◌,
  Option, none, some, ◌⊎◌, inl, inr, every, All, arith, ◌==◌, if◌then◌else◌, Bool-cases,
}
use nuvrail.Prelude.Text.{
  Text, Unicode, codes, same, same_iff, one_of, split, split_from, is_space, is_ascii, is_crlf,
  upper, decode, encode, rstrip_crlf, join, push_word,
}
use nuvrail.Prelude.Text.Words.{
  split_from_agree, split_from-rstrip_crlf, split_from-IsWord, split_from-word, IsWord,
  split_from-every, split_from-ne, is_empty,
}
use nuvrail.Imap.Line.{ParsedCommand, parse_line, of_words, finish_line}
use nuvrail.Imap.Router.{read, classify, read_commands, filter_enable_args}
use nuvrail.Imap.Proxy.{
  Session, forward, handle_line, dispatch, pass_through, read_line, enable_line, incomplete, refuse,
  same_list, crlf, has_bare_cr_or_nul,
}

-- The grammar of RFC 3501: a line ends in CRLF, and SP stands between its words.
abbrev pub wire_sep : ℕ → Bool
wire_sep c = c == b' ' || is_crlf c

abbrev pub wire_words : List ℕ → List Text
wire_words bytes = split_from wire_sep [] bytes

-- The verb that the server reads, behind the tag and an optional UID.
abbrev pub verb_of_words : Unicode → List Text → Text
verb_of_words uni [] = []
verb_of_words uni (t ∷ []) = []
verb_of_words uni (t ∷ v ∷ []) = upper uni v
verb_of_words uni (t ∷ v ∷ x ∷ more) =
    if same (upper uni v) (codes "UID") then upper uni x else upper uni v

abbrev pub wire_verb : Unicode → List ℕ → Text
wire_verb uni bytes = verb_of_words uni (wire_words bytes)

-- ASCII, with no white space but SP and the line ending.
abbrev pub is_plain : List ℕ → Bool
is_plain bytes = every (λ c. is_ascii c && (not (is_space c) || wire_sep c)) bytes

is_plain-ascii : (bytes : List ℕ) → is_plain bytes ≡ true → every is_ascii bytes ≡ true
is_plain-ascii [] h = refl
is_plain-ascii (c ∷ s) h = ground (arith, is_plain-ascii s)

wire_sep-is_space : (c : ℕ) → wire_sep c ≡ true → is_space c ≡ true
unfolding is_space
wire_sep-is_space c h = ground arith

is_plain-agree : (bytes : List ℕ) → is_plain bytes ≡ true → All (λ c. is_space c ≡ wire_sep c) bytes
is_plain-agree [] h = tt
is_plain-agree (c ∷ s) h = (ground (arith, wire_sep-is_space c), is_plain-agree s (ground arith))

is_crlf-is_space : (c : ℕ) → is_crlf c ≡ true → is_space c ≡ true
unfolding is_space
is_crlf-is_space c h = ground arith

-- On a plain line `str.split` and the grammar see the same words.
split-wire_words :
    (uni : Unicode) (bytes : List ℕ)
    → is_plain bytes ≡ true
    → split (rstrip_crlf (decode uni bytes)) ≡ wire_words bytes
unfolding split decode
split-wire_words uni bytes h = rw (is_plain-ascii bytes h) (
    split_from-rstrip_crlf is_space [] bytes is_crlf-is_space
    ∙ split_from_agree is_space wire_sep [] bytes (is_plain-agree bytes h))

command-finish_line :
    (uni : Unicode) (c : ParsedCommand) {cmd : ParsedCommand}
    → finish_line uni c ≡ some cmd
    → (cmd.command ≡ c.command) × (cmd.tag ≡ c.tag)
command-finish_line uni c {cmd} h = ground arith

command-of_words :
    (uni : Unicode) (raw : Text) (ws : List Text) {cmd : ParsedCommand}
    → of_words uni raw ws ≡ some cmd
    → cmd.command ≡ verb_of_words uni ws
command-of_words uni raw [] h = ground arith
command-of_words uni raw (t ∷ []) h = ground arith
command-of_words uni raw (t ∷ v ∷ []) h = ground arith
command-of_words uni raw (t ∷ v ∷ x ∷ more) h = ground arith

command-parse_line :
    (uni : Unicode) (raw : Text) {cmd : ParsedCommand}
    → parse_line uni raw ≡ some cmd
    → cmd.command ≡ verb_of_words uni (split raw)
unfolding parse_line
command-parse_line uni raw h = command-of_words uni raw (split raw) h

-- `classify` answers "read" only for a verb of `READ_COMMANDS`, or for no verb.
classify-read :
    (uni : Unicode) (cmd : ParsedCommand)
    → classify uni cmd ≡ read
    → (one_of cmd.command read_commands ≡ true) ⊎ (cmd.command ≡ [])
unfolding classify
classify-read uni cmd h = ground (arith, same_iff cmd.command [])

-- The forwarded line is the agent's own, or an ENABLE under the agent's tag.
data Forwards (uni : Unicode) (cmd : ParsedCommand) (bytes out : List ℕ) : Type 0 where
  verbatim : out ≡ bytes → Forwards uni cmd bytes out
  enable :
      (args : Text)
      → same (upper uni cmd.command) (codes "ENABLE") ≡ true
      → out ≡ encode uni (cmd.tag ++ (codes " ENABLE " ++ args))
      → Forwards uni cmd bytes out

enable_line-Forwards :
    (uni : Unicode) (bytes : List ℕ) (cmd : ParsedCommand) (kept : List Text) {out : List ℕ}
    → same (upper uni cmd.command) (codes "ENABLE") ≡ true
    → enable_line uni bytes cmd kept ≡ some out
    → Forwards uni cmd bytes out
unfolding enable_line
enable_line-Forwards uni bytes cmd [] v h = cc
enable_line-Forwards uni bytes cmd (k ∷ kept) v h =
    elim (Bool-cases (same_list (k ∷ kept) cmd.args)) [
      | inl e ↦ verbatim (ground arith)
      | inr e ↦ enable (join (codes " ") (k ∷ kept) ++ crlf) v (ground arith)
    ]

read_line-Forwards :
    (uni : Unicode) (bytes : List ℕ) (cmd : ParsedCommand) {out : List ℕ}
    → read_line uni bytes cmd ≡ some out
    → Forwards uni cmd bytes out
unfolding read_line
read_line-Forwards uni bytes cmd h =
    elim (Bool-cases (same (upper uni cmd.command) (codes "ENABLE"))) [
      | inl e ↦
          enable_line-Forwards uni bytes cmd (filter_enable_args uni cmd.args) e (ground arith)
      | inr e ↦ verbatim (ground arith)
    ]

pass_through-forward :
    (uni : Unicode) (s : Session) (bytes : List ℕ) (cmd : ParsedCommand) {out : List ℕ}
    → (pass_through uni s bytes cmd).1 ≡ forward out
    → read_line uni bytes cmd ≡ some out
unfolding pass_through
pass_through-forward uni s bytes cmd h = ground arith

record WasRead (uni : Unicode) (bytes out : List ℕ) (raw : Text) : Type 0 where
  cmd : ParsedCommand
  parsed : parse_line uni raw ≡ some cmd
  is_read : classify uni cmd ≡ read
  line : read_line uni bytes cmd ≡ some out

dispatch-WasRead :
    (uni : Unicode) (s : Session) (bytes : List ℕ) (raw : Text) (o : Option ParsedCommand)
    {out : List ℕ}
    → parse_line uni raw ≡ o
    → (dispatch uni s bytes raw o).1 ≡ forward out
    → WasRead uni bytes out raw
unfolding dispatch incomplete refuse
dispatch-WasRead uni s bytes raw none p h = absurd (ground arith)
dispatch-WasRead uni s bytes raw (some cmd) {out} p h = record {
  cmd = cmd;
  parsed = p;
  is_read = ground arith;
  line = ground (arith, pass_through-forward uni s bytes cmd {out = out});
}

handle_line-WasRead :
    (uni : Unicode) (s : Session) (bytes : List ℕ) {out : List ℕ}
    → (handle_line uni s bytes).1 ≡ forward out
    → WasRead uni bytes out (rstrip_crlf (decode uni bytes))
unfolding handle_line
handle_line-WasRead uni s bytes {out} h = elim (Bool-cases (has_bare_cr_or_nul bytes)) [
  | inl e ↦ absurd (ground arith)
  | inr e ↦ dispatch-WasRead uni s bytes _ _ refl (ground arith)
]

encode-append : (uni : Unicode) (a b : Text) → encode uni (a ++ b) ≡ encode uni a ++ encode uni b
unfolding encode
encode-append uni [] b = refl
encode-append uni (c ∷ a) b = rw (encode-append uni a b, append_assoc)

encode-ascii : (uni : Unicode) (a : Text) → every is_ascii a ≡ true → encode uni a ≡ a
unfolding encode
encode-ascii uni [] h = refl
encode-ascii uni (c ∷ a) h = ground (arith, encode-ascii uni a)

-- The tag of a line that parses to a command with a verb is a word of the line.
record IsTag (t : Text) : Type 0 where
  ascii : every is_ascii t ≡ true
  word : IsWord wire_sep t
  ne : is_empty t ≡ false

tag-of_words :
    (uni : Unicode) (raw : Text) (ws : List Text) {cmd : ParsedCommand}
    → of_words uni raw ws ≡ some cmd
    → same (upper uni cmd.command) (codes "ENABLE") ≡ true
    → All (λ v. every is_ascii v ≡ true) ws
    → All (IsWord wire_sep) ws
    → All (λ v. is_empty v ≡ false) ws
    → IsTag cmd.tag
unfolding upper same
tag-of_words uni raw [] h v a w n = absurd (ground arith)
tag-of_words uni raw (t ∷ []) h v a w n = absurd (ground arith)
tag-of_words uni raw (t ∷ x ∷ []) h v a w n = record {
  ascii = ground arith;
  word = ground arith;
  ne = ground arith;
}
tag-of_words uni raw (t ∷ x ∷ y ∷ more) h v a w n = record {
  ascii = ground arith;
  word = ground arith;
  ne = ground arith;
}

verb-push_word :
    (uni : Unicode) (t v : Text) (ws : List Text)
    → is_empty t ≡ false
    → same (upper uni v) (codes "UID") ≡ false
    → verb_of_words uni (push_word t (v ∷ ws)) ≡ upper uni v
verb-push_word uni [] v ws h e = cc
verb-push_word uni (c ∷ t) v [] h e = refl
verb-push_word uni (c ∷ t) v (x ∷ ws) h e = rw e

wire_verb-enable :
    (uni : Unicode) (t args : Text)
    → IsTag t
    → wire_verb uni (encode uni (t ++ (codes " ENABLE " ++ args))) ≡ codes "ENABLE"
unfolding encode
wire_verb-enable uni t args h =
    rw (encode-append uni t (codes " ENABLE " ++ args), encode-ascii uni t h.ascii)
      (ap (verb_of_words uni) (
          split_from-word wire_sep [] t b' ' (codes "ENABLE" ++ b' ' ∷ encode uni args) h.word refl
          ∙ ap (push_word t)
              (split_from-word wire_sep [] (codes "ENABLE") b' ' (encode uni args) refl refl))
        ∙ verb-push_word uni t (codes "ENABLE") (wire_words (encode uni args)) h.ne
            (unfold upper same in refl)
        ∙ (unfold upper in refl))

of_words-wire_words :
    (uni : Unicode) (bytes : List ℕ) {cmd : ParsedCommand}
    → is_plain bytes ≡ true
    → parse_line uni (rstrip_crlf (decode uni bytes)) ≡ some cmd
    → of_words uni (rstrip_crlf (decode uni bytes)) (wire_words bytes) ≡ some cmd
unfolding parse_line
of_words-wire_words uni bytes plain h = rw (split-wire_words uni bytes plain) at h

Forwards-verb :
    (uni : Unicode) (bytes : List ℕ) {out : List ℕ}
    → is_plain bytes ≡ true
    → (r : WasRead uni bytes out (rstrip_crlf (decode uni bytes))) → Forwards uni r.cmd bytes out
    → (one_of (wire_verb uni out) read_commands ≡ true) ⊎ (wire_verb uni out ≡ [])
Forwards-verb uni bytes plain r (verbatim e) =
    rw
      (
        e,
        ← ap (verb_of_words uni) (split-wire_words uni bytes plain),
        ← command-parse_line uni _ r.parsed,
      )
      (classify-read uni r.cmd r.is_read)
Forwards-verb uni bytes plain r (enable args v e) =
    rw
      (
        e,
        wire_verb-enable uni r.cmd.tag args (
            tag-of_words uni _ (wire_words bytes) (of_words-wire_words uni bytes plain r.parsed) v
              (split_from-every is_ascii wire_sep [] bytes refl (is_plain-ascii bytes plain))
              (split_from-IsWord wire_sep [] bytes refl) (split_from-ne wire_sep [] bytes)),
      )
      (inl (unfold one_of same in refl))

-- Of a line in ASCII whose only white space is SP and the line ending, what the proxy forwards to
-- the mail server has, by the grammar of RFC 3501, a verb of `READ_COMMANDS`, or no verb.
pub handle_line-forward :
    (uni : Unicode) (s : Session) (bytes : List ℕ) {out : List ℕ}
    → is_plain bytes ≡ true
    → (handle_line uni s bytes).1 ≡ forward out
    → (one_of (wire_verb uni out) read_commands ≡ true) ⊎ (wire_verb uni out ≡ [])
handle_line-forward uni s bytes plain h =
    let r = handle_line-WasRead uni s bytes h in
    Forwards-verb uni bytes plain r (read_line-Forwards uni bytes r.cmd r.line)
