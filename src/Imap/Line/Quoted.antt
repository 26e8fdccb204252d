-- ===== src/Imap/Line/Quoted.antt =====
-- The tokenizer of gateway/imap_parser.py on quoted strings.
use nuvrail.Prelude.{
  ℕ, ◌≡◌, refl, ◌∙◌, ◌||◌, [], ◌∷◌, ◌++◌, append_assoc, append-nil, arith, ◌==◌, if◌then◌else◌,
}
use nuvrail.Prelude.Text.{Text}
use nuvrail.Imap.Line.{start, quoted, step, scan, tokenize_args}

-- How RFC 3501 writes a text between quotes: a backslash in front of `"` and of `\`.
abbrev pub quote_char : ℕ → Text
quote_char c = if c == b'"' || c == b'\\' then b'\\' ∷ c ∷ [] else c ∷ []

abbrev pub quote_body : Text → Text
quote_body [] = []
quote_body (c ∷ s) = quote_char c ++ quote_body s

scan-quote_char :
    (buf : Text) (c : ℕ) (rest : Text)
    → scan (quoted buf) (quote_char c ++ rest) ≡ scan (quoted (buf ++ c ∷ [])) rest
unfolding scan step
scan-quote_char buf c rest = ground arith

scan-quote_body :
    (buf s rest : Text)
    → scan (quoted buf) (quote_body s ++ b'"' ∷ rest) ≡ (buf ++ s) ∷ scan start rest
scan-quote_body buf [] rest = rw append-nil (unfold scan step in refl)
scan-quote_body buf (c ∷ s) rest = rw (append_assoc (quote_char c) (quote_body s) (b'"' ∷ rest)) (
    scan-quote_char buf c (quote_body s ++ b'"' ∷ rest)
    ∙ scan-quote_body (buf ++ c ∷ []) s rest
    ∙ rw append_assoc)

-- Whatever characters an argument holds, written as a quoted string it is read back as one token,
-- and the tokens behind it are those of the rest of the line.
pub tokenize_args-quoted :
    (s rest : Text) → tokenize_args (b'"' ∷ (quote_body s ++ b'"' ∷ rest)) ≡ s ∷ tokenize_args rest
unfolding tokenize_args
tokenize_args-quoted s rest = open_quote ∙ scan-quote_body [] s rest
  where
    open_quote :
        scan start (b'"' ∷ (quote_body s ++ b'"' ∷ rest))
        ≡ scan (quoted []) (quote_body s ++ b'"' ∷ rest)
    open_quote = refl
