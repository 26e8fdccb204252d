-- ===== src/Audit/Examples.antt =====
-- The audit log on two rows, with an injective map in place of SHA-256.
use nuvrail.Prelude.{ℕ, ◌+◌, ◌≡◌, ◌≢◌, refl, ap, true, false, List, [], ◌∷◌, none, some, map, arith}
use nuvrail.Prelude.Text.{Text, codes, same, join}
use nuvrail.Audit.Record.{
  Row, Sha256, is_free, fields, payload, decimal, decimal_within, shown_number, compute_entry_hash,
}
use nuvrail.Audit.Record.Payload.{IsFree, payload-injective}
use nuvrail.Audit.Chain.{Log, Event, hashed, get_chain_head, verify_audit_chain, walk, new_row}
use nuvrail.Audit.Chain.Append.{IsChained, finished_row, insert_all, verify-insert_all}
use nuvrail.Audit.Chain.Tamper.{verify-edited, Agree, get_chain_head-Agree, verify-segment}
use nuvrail.Audit.Anchor.{
  anchor_chain_head, verify_against_anchor, verify_against_anchor-insert_all,
  verify_against_anchor-truncated,
}

abbrev pub shift : Text → Text
shift t = map (λ c. c + 32) t

pub shift-injective : (s t : Text) → shift s ≡ shift t → s ≡ t
shift-injective [] [] h = refl
shift-injective [] (d ∷ t) h = absurd (ground arith)
shift-injective (c ∷ s) [] h = absurd (ground arith)
shift-injective (c ∷ s) (d ∷ t) h = ground (arith, shift-injective s t)

pub shift-free : (t : Text) → is_free (shift t) ≡ true
shift-free [] = refl
shift-free (c ∷ t) = ground (arith, shift-free t)

abbrev pub shifted : Sha256
shifted = record { digest = shift; collision_free = shift-injective; digest_free = shift-free }

abbrev pub event_of : ℕ → Text → Event
event_of now e = record {
  timestamp = now;
  event = e;
  actor = some (codes "human");
  operation_id = some (codes "op_a1");
  agent_id = some (codes "3");
  op_type = some (codes "move");
  detail = none;
  user_id = none;
  intent_label = none;
}

abbrev pub staged : Event
staged = event_of 100 (codes "staged")

abbrev pub approved : Event
approved = event_of 160 (codes "approved")

abbrev pub empty_log : Log
empty_log = record { rows = []; next_id = 1 }

abbrev pub first_row : Row
first_row = finished_row shifted empty_log staged

abbrev pub one_log : Log
one_log = record { rows = first_row ∷ []; next_id = 2 }

abbrev second_row : Row
second_row = finished_row shifted one_log approved

pub empty_log-IsChained : IsChained shifted empty_log
unfolding verify_audit_chain hashed
empty_log-IsChained = record { ids = tt; verified = refl }

two_rows-verified : (verify_audit_chain shifted (first_row ∷ second_row ∷ [])).0 ≡ true
unfolding verify_audit_chain hashed walk same compute_entry_hash payload join decimal decimal_within
    shown_number get_chain_head
two_rows-verified = refl

one_row-verified : (verify_audit_chain shifted (first_row ∷ [])).0 ≡ true
unfolding verify_audit_chain hashed walk same compute_entry_hash payload join decimal decimal_within
    shown_number get_chain_head
one_row-verified = refl

pub one_log-IsChained : IsChained shifted one_log
unfolding verify_audit_chain hashed walk same compute_entry_hash payload join decimal decimal_within
    shown_number get_chain_head
one_log-IsChained = record { ids = (omega arith, tt); verified = refl }

first_row-IsFree : IsFree first_row
unfolding get_chain_head hashed
first_row-IsFree = record {
  operation_id = refl;
  event = refl;
  actor = refl;
  agent_id = refl;
  op_type = refl;
  detail = refl;
  prev_hash = refl;
}

abbrev edited_row : Row
edited_row = record first_row { event = codes "spoiled" }

abbrev labelled_row : Row
labelled_row = record first_row { intent_label = some (codes "archive") }

edited_row-IsFree : IsFree edited_row
unfolding get_chain_head hashed
edited_row-IsFree = record {
  operation_id = refl;
  event = refl;
  actor = refl;
  agent_id = refl;
  op_type = refl;
  detail = refl;
  prev_hash = refl;
}

labelled_row-IsFree : IsFree labelled_row
unfolding get_chain_head hashed
labelled_row-IsFree = record {
  operation_id = refl;
  event = refl;
  actor = refl;
  agent_id = refl;
  op_type = refl;
  detail = refl;
  prev_hash = refl;
}

verify-insert_all_example :
    verify_audit_chain shifted (insert_all shifted empty_log (staged ∷ approved ∷ [])).rows
    ≡ (true, [])
verify-insert_all_example =
    verify-insert_all shifted empty_log (staged ∷ approved ∷ []) empty_log-IsChained

payload-injective_example : fields first_row ≡ fields labelled_row
payload-injective_example =
    payload-injective first_row labelled_row first_row-IsFree labelled_row-IsFree
      (unfold payload in refl)

event_in : List Text → Text
event_in (a ∷ b ∷ c ∷ d ∷ e ∷ more) = e
event_in _ = []

edited-differs : fields first_row ≢ fields edited_row
unfolding event_in
edited-differs h = let e : codes "staged" ≡ codes "spoiled" = ap event_in h in absurd (ground arith)

verify-edited_example : (verify_audit_chain shifted (edited_row ∷ second_row ∷ [])).0 ≡ false
verify-edited_example =
    verify-edited shifted [] first_row edited_row
      (compute_entry_hash shifted (new_row empty_log staged)) (second_row ∷ []) two_rows-verified
      refl refl first_row-IsFree edited_row-IsFree edited-differs

get_chain_head-Agree_example : Agree (hashed (first_row ∷ [])) (hashed (labelled_row ∷ []))
get_chain_head-Agree_example =
    get_chain_head-Agree shifted (first_row ∷ []) (labelled_row ∷ []) (unfold hashed in refl)
      one_row-verified
      (unfold verify_audit_chain hashed walk same compute_entry_hash payload join decimal
          decimal_within shown_number get_chain_head in
        refl)
      (unfold hashed in (first_row-IsFree, tt)) (unfold hashed in (labelled_row-IsFree, tt))
      (unfold get_chain_head hashed in refl)

verify-segment_example : (verify_audit_chain shifted (second_row ∷ [])).0 ≡ true
verify-segment_example =
    verify-segment shifted (first_row ∷ []) (second_row ∷ []) [] two_rows-verified

verify_against_anchor-insert_all_example :
    verify_against_anchor
      (insert_all shifted one_log (approved ∷ [])).rows
      (some (anchor_chain_head 200 one_log.rows []).0)
    ≡ (true, none)
verify_against_anchor-insert_all_example =
    verify_against_anchor-insert_all shifted 200 one_log [] (approved ∷ [])
      (compute_entry_hash shifted (new_row empty_log staged)) one_log-IsChained
      (unfold get_chain_head hashed in refl)

verify_against_anchor-truncated_example :
    verify_against_anchor
      (first_row ∷ [])
      (some (anchor_chain_head 200 (first_row ∷ second_row ∷ []) []).0)
    ≡ (false, some (compute_entry_hash shifted (new_row one_log approved)))
verify_against_anchor-truncated_example =
    verify_against_anchor-truncated shifted 200 (first_row ∷ []) [] second_row
      (compute_entry_hash shifted (new_row one_log approved)) [] two_rows-verified refl
      (omega arith, tt) ((unfold get_chain_head hashed in refl), tt)
      (unfold get_chain_head hashed compute_entry_hash payload join decimal decimal_within
          shown_number in
        refl)
