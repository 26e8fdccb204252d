-- ===== src/Audit/Record/Payload.antt =====
-- The payload determines the fields that it covers, where none of them holds the separator.
use nuvrail.Prelude.{
  ℕ, zero, suc, ◌+◌, ◌-◌, ◌*◌, ◌/◌, ◌%◌, ◌<◌, ◌≡◌, refl, sym, ap, ◌∙◌, Bool, true, not, ◌&&◌, List,
  [], ◌∷◌, ◌++◌, Option, none, some, length, every, All, ltb, ◌==◌, arith, Bool-cases, inl, inr,
}
use nuvrail.Prelude.Text.{Text, join}
use nuvrail.Audit.Record.{
  Row, sep, decimal, decimal_within, shown, shown_number, fields, payload, is_free,
}

-- The number that a decimal text stands for.
abbrev value_from : ℕ → Text → ℕ
value_from acc [] = acc
value_from acc (c ∷ s) = value_from (acc * 10 + (c - 48)) s

value_from-append_one :
    (acc : ℕ) (s : Text) (c : ℕ) → value_from acc (s ++ c ∷ []) ≡ value_from acc s * 10 + (c - 48)
value_from-append_one acc [] c = refl
value_from-append_one acc (d ∷ s) c = value_from-append_one (acc * 10 + (d - 48)) s c

value-decimal_within : (fuel n : ℕ) → n < fuel → value_from 0 (decimal_within fuel n) ≡ n
unfolding decimal_within
value-decimal_within zero n h = elim h [ ]
value-decimal_within (suc fuel) n h = elim (Bool-cases (ltb n 10)) [
  | inl e ↦ rw e (omega arith)
  | inr e ↦ rw e (
      value_from-append_one 0 (decimal_within fuel (n / 10)) (48 + n % 10)
      ∙ ground (arith, value-decimal_within fuel (n / 10)))
]

pub decimal-injective : (m n : ℕ) → decimal m ≡ decimal n → m ≡ n
unfolding decimal
decimal-injective m n h =
    sym (value-decimal_within (suc m) m (omega arith))
    ∙ ap (value_from 0) h
    ∙ value-decimal_within (suc n) n (omega arith)

every-append : (p : ℕ → Bool) (s t : Text) → every p (s ++ t) ≡ every p s && every p t
every-append p [] t = refl
every-append p (c ∷ s) t = ground (arith, every-append p s t)

decimal_within-free : (fuel n : ℕ) → is_free (decimal_within fuel n) ≡ true
unfolding decimal_within
decimal_within-free zero n = refl
decimal_within-free (suc fuel) n = elim (Bool-cases (ltb n 10)) [
  | inl e ↦ rw e (ground arith)
  | inr e ↦
      rw (e, every-append (λ c. not (c == sep)) (decimal_within fuel (n / 10)) ((48 + n % 10) ∷ []))
        (ground (arith, decimal_within-free fuel (n / 10)))
]

decimal-free : (n : ℕ) → is_free (decimal n) ≡ true
unfolding decimal
decimal-free n = decimal_within-free (suc n) n

shown_number-free : (o : Option ℕ) → is_free (shown_number o) ≡ true
unfolding shown_number
shown_number-free none = refl
shown_number-free (some n) = decimal-free n

-- Two texts are equal up to the first separator, and behind it.
cut_lem :
    (a b s t : Text)
    → is_free a ≡ true
    → is_free b ≡ true
    → a ++ sep ∷ s ≡ b ++ sep ∷ t
    → (a ≡ b) × (s ≡ t)
cut_lem [] [] s t ha hb h = ground arith
cut_lem [] (d ∷ b) s t ha hb h = absurd (ground arith)
cut_lem (c ∷ a) [] s t ha hb h = absurd (ground arith)
cut_lem (c ∷ a) (d ∷ b) s t ha hb h = ground (arith, cut_lem a b s t)

join-injective :
    (xs ys : List Text)
    → length xs ≡ length ys
    → All (λ t. is_free t ≡ true) xs
    → All (λ t. is_free t ≡ true) ys
    → join (sep ∷ []) xs ≡ join (sep ∷ []) ys
    → xs ≡ ys
unfolding join
join-injective [] [] l fx fy h = refl
join-injective [] (y ∷ ys) l fx fy h = absurd (omega arith)
join-injective (x ∷ xs) [] l fx fy h = absurd (omega arith)
join-injective (x ∷ []) (y ∷ []) l fx fy h = cc
join-injective (x ∷ []) (y ∷ z ∷ ys) l fx fy h = absurd (omega arith)
join-injective (x ∷ w ∷ xs) (y ∷ []) l fx fy h = absurd (omega arith)
join-injective (x ∷ w ∷ xs) (y ∷ z ∷ ys) l fx fy h =
    let (e, f) = cut_lem x y _ _ fx.0 fy.0 h in
    cc (e, join-injective (w ∷ xs) (z ∷ ys) (omega arith) fx.1 fy.1 f)

-- The texts of the row that come from outside hold no separator.
pub record IsFree (r : Row) : Type 0 where
  pub operation_id : is_free (shown r.operation_id) ≡ true
  pub event : is_free r.event ≡ true
  pub actor : is_free (shown r.actor) ≡ true
  pub agent_id : is_free (shown r.agent_id) ≡ true
  pub op_type : is_free (shown r.op_type) ≡ true
  pub detail : is_free (shown r.detail) ≡ true
  pub prev_hash : is_free (shown r.prev_hash) ≡ true

fields-free : (r : Row) → IsFree r → All (λ t. is_free t ≡ true) (fields r)
fields-free r h = (
  h.prev_hash,
  (
    decimal-free r.id,
    (
      decimal-free r.timestamp,
      (
        h.operation_id,
        (
          h.event,
          (h.actor, (h.agent_id, (h.op_type, (h.detail, (shown_number-free r.user_id, tt))))),
        ),
      ),
    ),
  ),
)

-- Where no field holds the separator, the text that is hashed determines all ten fields that it
-- covers (with NULL and the empty text taken as one).
pub payload-injective :
    (r s : Row) → IsFree r → IsFree s → payload r ≡ payload s → fields r ≡ fields s
unfolding payload
payload-injective r s hr hs h =
    join-injective (fields r) (fields s) refl (fields-free r hr) (fields-free s hs) h

-- Two rows with one payload have one id, whatever their other fields hold.
pub id-payload :
    (r s : Row)
    → is_free (shown r.prev_hash) ≡ true
    → is_free (shown s.prev_hash) ≡ true
    → payload r ≡ payload s
    → r.id ≡ s.id
unfolding payload join
id-payload r s hr hs h =
    let (_, e) = cut_lem (shown r.prev_hash) (shown s.prev_hash) _ _ hr hs h in
    decimal-injective r.id s.id
      (cut_lem (decimal r.id) (decimal s.id) _ _ (decimal-free r.id) (decimal-free s.id) e).0
