-- ===== src/Invite.antt =====
-- gateway/state_db.py: the invite codes, each of which may be spent once.
pub mod Once
pub mod Examples
use nuvrail.Prelude.{
  ℕ, ◌+◌, ◌==◌, ltb, Bool, true, false, not, ◌&&◌, ◌||◌, List, [], ◌∷◌, ◌++◌, Option, none, some,
  any, if◌then◌else◌,
}
use nuvrail.Prelude.Text.{Text, same}

pub record InviteCode : Type 0 where
  pub code_hash : Text
  pub created_at : ℕ
  pub expires_at : Option ℕ
  pub note : Option Text
  pub redeemed_at : Option ℕ
  pub redeemed_by_email : Option Text
  pub revoked_at : Option ℕ

abbrev is_null : Option ℕ → Bool
is_null none = true
is_null (some t) = false

-- Neither redeemed nor revoked
abbrev pub is_unspent : InviteCode → Bool
is_unspent c = is_null c.redeemed_at && is_null c.revoked_at

abbrev is_current : ℕ → Option ℕ → Bool
is_current now none = true
is_current now (some at) = ltb now at

abbrev pub is_redeemable : ℕ → Text → InviteCode → Bool
is_redeemable now hash c = same c.code_hash hash && (is_unspent c && is_current now c.expires_at)

abbrev pub is_revocable : Text → InviteCode → Bool
is_revocable hash c = same c.code_hash hash && is_unspent c

-- UPDATE … WHERE, with the number of rows
unfoldable pub update_codes :
    (InviteCode → Bool) → (InviteCode → InviteCode) → List InviteCode → List InviteCode × ℕ
update_codes test f [] = ([], 0)
update_codes test f (c ∷ cs) =
    let (rest, n) = update_codes test f cs in if test c then (f c ∷ rest, n + 1) else (c ∷ rest, n)

abbrev pub spend : ℕ → Text → InviteCode → InviteCode
spend now email c = record c { redeemed_at = some now; redeemed_by_email = some email }

abbrev pub revoke : ℕ → InviteCode → InviteCode
revoke now c = record c { revoked_at = some now }

abbrev one_row : List InviteCode × ℕ → List InviteCode × Bool
one_row (cs, n) = (cs, n == 1)

unfoldable pub redeem_invite_code : ℕ → Text → Text → List InviteCode → List InviteCode × Bool
unfolding same update_codes
redeem_invite_code now hash email cs =
    one_row (update_codes (is_redeemable now hash) (spend now email) cs)

unfoldable pub revoke_invite_code : ℕ → Text → List InviteCode → List InviteCode × Bool
unfolding same update_codes
revoke_invite_code now hash cs = one_row (update_codes (is_revocable hash) (revoke now) cs)

-- The hash is UNIQUE: a second row with it is an error.
unfoldable pub insert_invite_code :
    ℕ → Text → Option ℕ → Option Text → List InviteCode → List InviteCode × Bool
unfolding same
insert_invite_code now hash expires_at note cs =
    if any (λ c. same c.code_hash hash) cs then (cs, false) else (
      cs
          ++ (record {
            code_hash = hash;
            created_at = now;
            expires_at = expires_at;
            note = note;
            redeemed_at = none;
            redeemed_by_email = none;
            revoked_at = none;
          })
            ∷ [],
      true,
    )
