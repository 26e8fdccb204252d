-- ===== src/Imap/Append/Examples.antt =====
-- A message that is appended to a folder of the agent.
use nuvrail.Prelude.{ℕ, ◌≡◌, refl, List, [], ◌∷◌, ◌++◌, true, none, some, arith}
use nuvrail.Prelude.Text.{Text, codes, split, split_from, is_space, same, lower, lower_char}
use nuvrail.Audit.Examples.{shifted}
use nuvrail.Staging.Store.{Operation, get_row}
use nuvrail.Intent.Profile.{should_suppress_append}
use nuvrail.Imap.Examples.{ascii}
use nuvrail.Imap.Proxy.{size_back}
use nuvrail.Imap.Write.Examples.{selected, draw}
use nuvrail.Imap.Append.{Discarded, literal_size, handle_append, discard_nonsync_literals}
use nuvrail.Imap.Append.Discard.{discard_nonsync_literals-returns}
use nuvrail.Imap.Append.Staged.{IsAppended, handle_append_lem}

abbrev plain : List ℕ → Text
plain t = t

abbrev raw : Text
raw = codes "a1 APPEND Notes (\\Seen) {5}"

abbrev input : List ℕ
input = codes "hello" ++ 13 ∷ 10 ∷ codes "a2 NOOP"

handle_append_lem_example :
    (r : Operation) × ((handle_append shifted ascii none plain 100
        (draw (codes "op_a"))
        raw
        input
        selected).world.state.operations
      ≡ selected.state.operations ++ r ∷ [])
    × IsAppended ascii (draw (codes "op_a")) raw (codes "hello") selected r
    × ((handle_append shifted ascii none plain 100 (draw (codes "op_a")) raw input selected).input
        ≡ codes "a2 NOOP")
    × ((handle_append shifted ascii none plain 100 (draw (codes "op_a")) raw input selected).is_open
        ≡ true)
unfolding literal_size size_back should_suppress_append same split split_from is_space lower
    lower_char get_row
handle_append_lem_example =
    handle_append_lem shifted ascii plain 100 (draw (codes "op_a")) raw b'h' (codes "ello")
      (codes "a2 NOOP") selected refl (omega arith) refl refl

discard_nonsync_literals-returns_example :
    (r : Discarded) × (discard_nonsync_literals 9 ascii 100
        (codes "a1 REPLACE 4 INBOX {3+}")
        (codes "abc" ++ 13 ∷ 10 ∷ [])
      ≡ some r)
discard_nonsync_literals-returns_example =
    discard_nonsync_literals-returns 9 ascii 100 (codes "a1 REPLACE 4 INBOX {3+}")
      (codes "abc" ++ 13 ∷ 10 ∷ []) (omega arith)
