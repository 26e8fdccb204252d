-- ===== src/Imap/Examples.antt =====
-- Command lines in ASCII, with Unicode's tables left empty.
use nuvrail.Prelude.{ℕ, ◌≡◌, refl, true, false, List, [], ◌∷◌, ◌++◌, none, ◌⊎◌}
use nuvrail.Prelude.Text.{
  Unicode, codes, same, one_of, is_space, lstrip, rstrip, strip, split, split_from, upper_char,
  upper, digit, decode, rstrip_crlf,
}
use nuvrail.Intent.Profile.{gmail_profile}
use nuvrail.Imap.Line.{
  skip_spaces, skip_word, skip_n_tokens, step, finish, scan, tokenize_args, digits_then_brace,
  is_sync_literal, ends_in_sync_literal, parse_line,
}
use nuvrail.Imap.Line.Quoted.{quote_body, tokenize_args-quoted}
use nuvrail.Imap.Router.{classify, filter_atoms, read_commands}
use nuvrail.Imap.Router.Capabilities.{IsFiltered, filter_atoms-IsFiltered}
use nuvrail.Imap.Proxy.{
  Session, forward, handle_line, dispatch, pass_through, read_line, has_bare_cr_or_nul,
  nonsync_literal_size, size_back, track_select, track_revert, track_capability, track_search,
}
use nuvrail.Imap.Proxy.Wire.{wire_verb, handle_line-forward}

abbrev pub ascii : Unicode
ascii = record {
  upper_wide = λ c. c ∷ [];
  lower_wide = λ c. c ∷ [];
  digit_wide = λ c. none;
  decode_wide = λ bytes. bytes;
  encode_wide = λ c. c ∷ [];
}

abbrev pub new_session : Session
new_session = record {
  folder = none;
  folder_id = none;
  select_lines = [];
  in_select = false;
  revert_trigger_tag = none;
  capability_tag = none;
  search_uid_mode = false;
  agent_id = 3;
  user_id = 7;
  provider_profile = gmail_profile;
  pending_copy_intent = none;
  special_use = [];
}

abbrev noop_line : List ℕ
noop_line = codes "a1 noop" ++ 13 ∷ 10 ∷ []

noop-forward : (handle_line ascii new_session noop_line).1 ≡ forward noop_line
unfolding handle_line dispatch pass_through read_line has_bare_cr_or_nul nonsync_literal_size
    size_back track_select track_revert track_capability track_search same one_of is_space lstrip
    rstrip strip split split_from upper_char upper digit decode rstrip_crlf skip_spaces skip_word
    skip_n_tokens step finish scan tokenize_args digits_then_brace is_sync_literal
    ends_in_sync_literal parse_line classify
noop-forward = refl

handle_line-forward_example :
    (one_of (wire_verb ascii noop_line) read_commands ≡ true) ⊎ (wire_verb ascii noop_line ≡ [])
handle_line-forward_example =
    handle_line-forward ascii new_session noop_line (unfold is_space in refl) noop-forward

filter_atoms-IsFiltered_example :
    IsFiltered ascii
      (split (codes "IMAP4rev1 Literal+ IDLE"))
      (split (filter_atoms ascii (codes "IMAP4rev1 Literal+ IDLE")))
filter_atoms-IsFiltered_example = filter_atoms-IsFiltered ascii (codes "IMAP4rev1 Literal+ IDLE")

tokenize_args-quoted_example :
    tokenize_args (b'"' ∷ (quote_body (codes "a\"b c") ++ b'"' ∷ codes " (UID)"))
    ≡ codes "a\"b c" ∷ tokenize_args (codes " (UID)")
tokenize_args-quoted_example = tokenize_args-quoted (codes "a\"b c") (codes " (UID)")

-- A vertical tab splits words in Python and none on the wire: the line is taken for NOOP and goes out.
abbrev tab_line : List ℕ
tab_line = codes "a" ++ 11 ∷ codes "NOOP EXPUNGE" ++ 13 ∷ 10 ∷ []

tab-forward : (handle_line ascii new_session tab_line).1 ≡ forward tab_line
unfolding handle_line dispatch pass_through read_line has_bare_cr_or_nul nonsync_literal_size
    size_back track_select track_revert track_capability track_search same one_of is_space lstrip
    rstrip strip split split_from upper_char upper digit decode rstrip_crlf skip_spaces skip_word
    skip_n_tokens step finish scan tokenize_args digits_then_brace is_sync_literal
    ends_in_sync_literal parse_line classify
tab-forward = refl

tab-verb : wire_verb ascii tab_line ≡ codes "EXPUNGE"
unfolding same split_from upper upper_char
tab-verb = refl
