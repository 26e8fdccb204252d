-- ===== src/Smtp/Session/Sent.antt =====
-- What a connection of an agent sends to the mail server, and what it stages.
use nuvrail.Prelude.{false, [], none}
use nuvrail.Prelude.Text.{Text}
use nuvrail.Smtp.Session.{Conn}
use nuvrail.Smtp.Session.Kept.{Kept}

abbrev pub no_agent : Conn → Conn
no_agent c = record c { is_connected = false; credential = none; sent = [] }
