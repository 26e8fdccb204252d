-- ===== src/Operation/Mailbox.antt =====
-- A mailbox name and its quoted form.
use nuvrail.Prelude.{
  ℕ, ◌≡◌, refl, ap, ◌∙◌, Bool, true, false, [], ◌∷◌, ◌++◌, ◌==◌, if◌then◌else◌, arith, Bool-cases,
  inl, inr,
}
use mathlib.Core.List.{reverse-append}
use nuvrail.Prelude.Text.{Text, starts_with}
use nuvrail.Prelude.Text.Edit.{replace, replace_from, ends_with, but_last}
use nuvrail.Imap.Line.Quoted.{quote_body}
use nuvrail.Operation.{unescape, unquote_mailbox}

-- Backslashes doubled, and nothing else.
abbrev doubled : Text → Text
doubled [] = []
doubled (c ∷ s) = if c == b'\\' then b'\\' ∷ b'\\' ∷ doubled s else c ∷ doubled s

abbrev starts_bare : Text → Bool
starts_bare [] = false
starts_bare (c ∷ s) = c == b'"'

quote_body-starts_bare : (s : Text) → starts_bare (quote_body s) ≡ false
quote_body-starts_bare [] = refl
quote_body-starts_bare (c ∷ s) = ground arith

skip_backslash :
    (s : Text)
    → starts_bare s ≡ false
    → replace_from 0 (b'\\' ∷ b'"' ∷ []) (b'"' ∷ []) (b'\\' ∷ s)
      ≡ b'\\' ∷ replace_from 0 (b'\\' ∷ b'"' ∷ []) (b'"' ∷ []) s
unfolding replace_from starts_with
skip_backslash [] h = refl
skip_backslash (c ∷ s) h = ground arith

quotes-undone :
    (s : Text) → replace_from 0 (b'\\' ∷ b'"' ∷ []) (b'"' ∷ []) (quote_body s) ≡ doubled s
unfolding replace_from starts_with
quotes-undone [] = refl
quotes-undone (c ∷ s) = elim (Bool-cases (c == b'\\')) [
  | inl e ↦ ground (
    arith,
    quotes-undone s,
    skip_backslash (quote_body s) (quote_body-starts_bare s),
    skip_backslash (b'\\' ∷ quote_body s) refl,
  )
  | inr e ↦ ground (arith, quotes-undone s)
]

doubles-undone : (s : Text) → replace_from 0 (b'\\' ∷ b'\\' ∷ []) (b'\\' ∷ []) (doubled s) ≡ s
unfolding replace_from starts_with
doubles-undone [] = refl
doubles-undone (c ∷ s) = elim (Bool-cases (c == b'\\')) [
  | inl e ↦ ground (arith, doubles-undone s)
  | inr e ↦ ground (arith, doubles-undone s)
]

pub unescape-quote_body : (s : Text) → unescape (quote_body s) ≡ s
unfolding unescape replace
unescape-quote_body s =
    ap (replace_from 0 (b'\\' ∷ b'\\' ∷ []) (b'\\' ∷ [])) (quotes-undone s) ∙ doubles-undone s

but_last-append_one : (s : Text) (c : ℕ) → but_last (s ++ c ∷ []) ≡ s
but_last-append_one [] c = refl
but_last-append_one (d ∷ []) c = refl
but_last-append_one (d ∷ e ∷ s) c = ap (◌∷◌ d) (but_last-append_one (e ∷ s) c)

ends_with-append_one : (s : Text) (c : ℕ) → ends_with (s ++ c ∷ []) (c ∷ []) ≡ true
unfolding ends_with starts_with
ends_with-append_one s c = rw (reverse-append s (c ∷ [])) (ground arith)

unquote_lem : (s : Text) → unquote_mailbox (b'"' ∷ (s ++ b'"' ∷ [])) ≡ unescape s
unfolding unquote_mailbox
unquote_lem [] = refl
unquote_lem (c ∷ s) = rw (ends_with-append_one (c ∷ s) b'"', but_last-append_one (c ∷ s) b'"') refl

-- `unquote_mailbox` reads an IMAP quoted string back as the text that was quoted, whatever quotes and
-- backslashes it holds.
pub unquote_mailbox-quote_body :
    (s : Text) → unquote_mailbox (b'"' ∷ (quote_body s ++ b'"' ∷ [])) ≡ s
unquote_mailbox-quote_body s = unquote_lem (quote_body s) ∙ unescape-quote_body s
