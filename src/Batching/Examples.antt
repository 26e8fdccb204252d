-- ===== src/Batching/Examples.antt =====
-- Two folders of one agent, each with its own batch.
use nuvrail.Prelude.{◌≡◌, ◌+◌, refl, ltb, if◌then◌else◌, [], ◌∷◌, some, arith}
use nuvrail.Prelude.Text.{codes, same}
use nuvrail.Batching.{Key, same_key, batch_of, get_or_create_batch}
use nuvrail.Batching.Window.{Call, call_all, get_or_create_batch_lem}

abbrev inbox : Key
inbox = record { folder = codes "INBOX"; protocol = codes "imap"; agent_id = some 3 }

abbrev sent : Key
sent = record { folder = codes "Sent"; protocol = codes "imap"; agent_id = some 3 }

abbrev sent_call : Call
sent_call = record { id = codes "b2"; now = 120; key = sent; window_seconds = 30 }

get_or_create_batch_lem_example :
    ((get_or_create_batch (codes "b1") 100 inbox 30 []).1 ≡ codes "b1")
    × ((get_or_create_batch
          (codes "b3")
          125
          inbox
          30
          (call_all (sent_call ∷ []) (get_or_create_batch (codes "b1") 100 inbox 30 []).0)).1
        ≡ (if ltb 125 (100 + 30) then codes "b1" else codes "b3"))
unfolding same_key same batch_of
get_or_create_batch_lem_example =
    get_or_create_batch_lem (codes "b1") (codes "b3") 100 125 inbox 30 30 (sent_call ∷ []) [] refl
      (refl, tt) (omega arith)
