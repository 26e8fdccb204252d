-- ===== src/Operation/Examples.antt =====
-- A mailbox name with a quote in it.
use nuvrail.Prelude.{◌≡◌, ◌∷◌, ◌++◌, []}
use nuvrail.Prelude.Text.{codes}
use nuvrail.Operation.{unquote_mailbox}
use nuvrail.Operation.Mailbox.{unquote_mailbox-quote_body}
use nuvrail.Imap.Line.Quoted.{quote_body}

unquote_mailbox-quote_body_example :
    unquote_mailbox (b'"' ∷ (quote_body (codes "a\"b c") ++ b'"' ∷ [])) ≡ codes "a\"b c"
unquote_mailbox-quote_body_example = unquote_mailbox-quote_body (codes "a\"b c")
