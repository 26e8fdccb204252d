-- ===== src/SendRate/Examples.antt =====
-- A send to two recipients, by an agent that may send three messages an hour.
use nuvrail.Prelude.{[], ◌∷◌}
use nuvrail.Prelude.Text.{codes}
use nuvrail.Audit.Examples.{one_log}
use nuvrail.Staging.Store.{Operation, State}
use nuvrail.Staging.Create.{staged_row}
use nuvrail.Staging.Examples.{send_request}

abbrev send_row : Operation
send_row = staged_row 100 (codes "op_b") send_request

abbrev one_logged : State
one_logged = record {
  operations = send_row ∷ [];
  messages = [];
  pending_reverts = [];
  log = one_log;
  upstream = [];
}
