-- ===== src/Audit/Record.antt =====
-- gateway/audit.py: the rows of `audit_log`, their canonical payload and its hash.
-- SHA-256 is a parameter, and so are its laws: see `Sha256`.
pub mod Payload
use nuvrail.Prelude.{
  ℕ, zero, suc, ◌+◌, ◌-◌, ◌*◌, ◌/◌, ◌%◌, ◌<◌, ◌≡◌, ◌≢◌, refl, sym, ap, ◌∙◌, Bool, true, false, not,
  ◌&&◌, List, [], ◌∷◌, ◌++◌, Option, none, some, length, every, All, ltb, leb, ◌==◌, if◌then◌else◌,
  arith,
}
use nuvrail.Prelude.Text.{Text, join}

-- The row with all its columns. Rows from before hash chaining have no hashes.
pub record Row : Type 0 where
  pub id : ℕ
  pub timestamp : ℕ
  pub operation_id : Option Text
  pub event : Text
  pub actor : Option Text
  pub agent_id : Option Text
  pub op_type : Option Text
  pub detail : Option Text
  pub user_id : Option ℕ
  pub intent_label : Option Text
  pub prev_hash : Option Text
  pub entry_hash : Option Text

abbrev pub sep : ℕ
sep = 0x1f

-- str(n)
unfoldable pub decimal_within : ℕ → ℕ → Text
decimal_within zero n = []
decimal_within (suc fuel) n =
    let high = decimal_within fuel (n / 10) in
    if ltb n 10 then (48 + n) ∷ [] else high ++ (48 + n % 10) ∷ []

unfoldable pub decimal : ℕ → Text
unfolding decimal_within
decimal n = decimal_within (suc n) n

-- `_s`: `None` is written as no characters at all.
abbrev pub shown : Option Text → Text
shown none = []
shown (some t) = t

unfoldable pub shown_number : Option ℕ → Text
unfolding decimal
shown_number none = []
shown_number (some n) = decimal n

-- The ten fields that the hash covers, in the order of the payload.
abbrev pub fields : Row → List Text
fields r =
    shown r.prev_hash
    ∷ decimal r.id
    ∷ decimal r.timestamp
    ∷ shown r.operation_id
    ∷ r.event
    ∷ shown r.actor
    ∷ shown r.agent_id
    ∷ shown r.op_type
    ∷ shown r.detail
    ∷ shown_number r.user_id
    ∷ []

unfoldable pub payload : Row → Text
unfolding decimal shown_number join
payload r = join (sep ∷ []) (fields r)

abbrev pub is_free : Text → Bool
is_free t = every (λ c. not (c == sep)) t

-- `hashlib.sha256(…).hexdigest()`. The laws: no two payloads of a history collide, and a digest is
-- made of hexadecimal digits, so that it holds no separator.
pub record Sha256 : Type 0 where
  pub digest : Text → Text
  pub collision_free : (s t : Text) → digest s ≡ digest t → s ≡ t
  pub digest_free : (t : Text) → is_free (digest t) ≡ true

unfoldable pub compute_entry_hash : Sha256 → Row → Text
unfolding payload
compute_entry_hash sha r = sha.digest (payload r)
