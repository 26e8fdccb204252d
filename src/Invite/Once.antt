-- ===== src/Invite/Once.antt =====
-- How often a code is spent, over any sequence of calls.
use nuvrail.Prelude.{
  ℕ, ◌+◌, ◌≤◌, ◌≡◌, refl, sym, ap, ◌∙◌, Bool, true, false, not, ◌&&◌, ◌||◌, List, [], ◌∷◌, ◌++◌,
  Option, none, any, arith, Bool-cases, inl, inr,
}
use nuvrail.Prelude.Text.{Text, same, same_iff}
use nuvrail.Invite.{
  InviteCode, is_unspent, is_redeemable, is_revocable, update_codes, spend, revoke,
  redeem_invite_code, revoke_invite_code, insert_invite_code,
}

-- One call, with its time.
pub data Call : Type 0 where
  mint : ℕ → Text → Option ℕ → Option Text → Call
  redeem : ℕ → Text → Text → Call
  kill : ℕ → Text → Call

abbrev pub call : Call → List InviteCode → List InviteCode × Bool
call (mint now hash expires_at note) cs = insert_invite_code now hash expires_at note cs
call (redeem now hash email) cs = redeem_invite_code now hash email cs
call (kill now hash) cs = revoke_invite_code now hash cs

abbrev one_if : Bool → ℕ
one_if true = 1
one_if false = 0

abbrev spends : Text → Call → Bool
spends hash (redeem now h email) = same h hash
spends hash _ = false

-- How many redemptions of the code succeed.
unfoldable pub redemptions : Text → List Call → List InviteCode → ℕ
unfolding redeem_invite_code revoke_invite_code insert_invite_code same
redemptions hash [] cs = 0
redemptions hash (k ∷ ks) cs =
    one_if (spends hash k && (call k cs).1) + redemptions hash ks (call k cs).0

-- How many rows could still be spent.
unspent : Text → List InviteCode → ℕ
unspent hash [] = 0
unspent hash (c ∷ cs) = one_if (is_revocable hash c) + unspent hash cs

has_code : Text → List InviteCode → Bool
has_code hash cs = any (λ c. same c.code_hash hash) cs

-- A code that was never minted may still be minted once.
left : Text → List InviteCode → ℕ
unfolding unspent has_code
left hash cs = unspent hash cs + one_if (not (has_code hash cs))

-- A row that is spent or revoked keeps its hash.
module _ (test : InviteCode → Bool) (f : InviteCode → InviteCode)
    (same_hash : (c : InviteCode) → (f c).code_hash ≡ c.code_hash)
    (is_spent : (c : InviteCode) → is_unspent (f c) ≡ false)
    (was_unspent : (c : InviteCode) → test c ≡ true → is_unspent c ≡ true) where
  has_code-update :
      (hash : Text) (cs : List InviteCode)
      → has_code hash (update_codes test f cs).0 ≡ has_code hash cs
  unfolding has_code update_codes
  has_code-update hash [] = refl
  has_code-update hash (c ∷ cs) = ground (arith, has_code-update hash cs, same_hash c)

  unspent-update :
      (hash : Text) (cs : List InviteCode)
      → unspent hash (update_codes test f cs).0 ≤ unspent hash cs
  unfolding unspent update_codes
  unspent-update hash [] = omega arith
  unspent-update hash (c ∷ cs) =
      ground (arith, unspent-update hash cs, same_hash c, is_spent c, was_unspent c)

  rows-update :
      (hash : Text) (cs : List InviteCode)
      → ((c : InviteCode) → test c ≡ true → same c.code_hash hash ≡ true)
      → unspent hash (update_codes test f cs).0 + (update_codes test f cs).1 ≤ unspent hash cs
  unfolding unspent update_codes
  rows-update hash [] h = omega arith
  rows-update hash (c ∷ cs) h =
      ground (arith, rows-update hash cs h, same_hash c, is_spent c, was_unspent c, h c)

unspent-append_one :
    (hash : Text) (cs : List InviteCode) (c : InviteCode)
    → unspent hash (cs ++ c ∷ []) ≡ unspent hash cs + one_if (is_revocable hash c)
unfolding unspent
unspent-append_one hash [] c = omega arith
unspent-append_one hash (d ∷ cs) c = omega (arith, unspent-append_one hash cs c)

has_code-append_one :
    (hash : Text) (cs : List InviteCode) (c : InviteCode)
    → has_code hash (cs ++ c ∷ []) ≡ (has_code hash cs || same c.code_hash hash)
unfolding has_code
has_code-append_one hash [] c = ground arith
has_code-append_one hash (d ∷ cs) c = ground (arith, has_code-append_one hash cs c)

left-call :
    (hash : Text) (k : Call) (cs : List InviteCode)
    → one_if (spends hash k && (call k cs).1) + left hash (call k cs).0 ≤ left hash cs
unfolding left insert_invite_code redeem_invite_code revoke_invite_code
left-call hash (mint now h expires_at note) cs =
    let c : InviteCode = record {
      code_hash = h;
      created_at = now;
      expires_at = expires_at;
      note = note;
      redeemed_at = none;
      redeemed_by_email = none;
      revoked_at = none;
    } in
    unfold has_code in
    ground (arith, unspent-append_one hash cs c, has_code-append_one hash cs c, same_iff h hash)
left-call hash (redeem now h email) cs =
    let test = is_redeemable now h in
    let f = spend now email in
    let was : (c : InviteCode) → is_redeemable now h c ≡ true → is_unspent c ≡ true =
      λ c e. ground arith in
    let kept = has_code-update test f (λ c. refl) (λ c. refl) was hash cs in
    let fewer = unspent-update test f (λ c. refl) (λ c. refl) was hash cs in
    elim (Bool-cases (same h hash)) [
      | inl e ↦
          let eq : h ≡ hash = (same_iff h hash).0 e in
          let here : (c : InviteCode)
              → is_redeemable now h c ≡ true
              → same c.code_hash hash ≡ true =
            λ c q. ap (λ t. same c.code_hash t) (sym eq) ∙ ground arith in
          ground (arith, kept, rows-update test f (λ c. refl) (λ c. refl) was hash cs here)
      | inr e ↦ ground (arith, kept, fewer)
    ]
left-call hash (kill now h) cs =
    let test = is_revocable h in
    let f = revoke now in
    let spent : (c : InviteCode) → is_unspent (revoke now c) ≡ false = λ c. ground arith in
    let was : (c : InviteCode) → is_revocable h c ≡ true → is_unspent c ≡ true =
      λ c e. ground arith in
    ground (
      arith,
      has_code-update test f (λ c. refl) spent was hash cs,
      unspent-update test f (λ c. refl) spent was hash cs,
    )

redemptions-left :
    (hash : Text) (ks : List Call) (cs : List InviteCode) → redemptions hash ks cs ≤ left hash cs
unfolding redemptions
redemptions-left hash [] cs = omega arith
redemptions-left hash (k ∷ ks) cs =
    omega (arith, left-call hash k cs, redemptions-left hash ks (call k cs).0)

-- An invite code is spent at most once, whatever is minted, redeemed and revoked in whichever order and
-- at whichever times, from the empty table.
pub redemptions_lem : (hash : Text) (ks : List Call) → redemptions hash ks [] ≤ 1
unfolding left unspent
redemptions_lem hash ks = unfold has_code in redemptions-left hash ks []
