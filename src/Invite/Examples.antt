-- ===== src/Invite/Examples.antt =====
-- One code that two registrations try to spend, and that is revoked too late.
use nuvrail.Prelude.{◌≤◌, List, [], ◌∷◌, none}
use nuvrail.Prelude.Text.{codes}
use nuvrail.Invite.Once.{Call, mint, redeem, kill, redemptions, redemptions_lem}

abbrev calls : List Call
calls =
    mint 10 (codes "aa") none none
    ∷ redeem 20 (codes "aa") (codes "ann@example.com")
    ∷ redeem 20 (codes "aa") (codes "bob@example.com")
    ∷ kill 30 (codes "aa")
    ∷ []

redemptions_lem_example : redemptions (codes "aa") calls [] ≤ 1
redemptions_lem_example = redemptions_lem (codes "aa") calls
