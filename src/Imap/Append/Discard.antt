-- ===== src/Imap/Append/Discard.antt =====
-- The loop that discards the literals of a refused command ends.
use nuvrail.Prelude.{
  ℕ, zero, suc, ◌+◌, ◌≤◌, ◌<◌, ◌≡◌, refl, ltb, List, [], ◌∷◌, Option, none, some, length, if_cases,
  arith, Option-cases, inl, inr,
}
use nuvrail.Prelude.Text.{Text, Unicode}
use nuvrail.Imap.Proxy.{nonsync_literal_size}
use nuvrail.Imap.Append.{
  Discarded, read_exactly, read_line_bytes, lost, next_text, after_line, after_literal,
  discard_size, discard_nonsync_literals,
}

length-read_exactly :
    (n : ℕ) (input read rest : List ℕ)
    → read_exactly n input ≡ some (read, rest)
    → length rest ≤ length input
unfolding read_exactly
length-read_exactly zero input read rest e = ground arith
length-read_exactly (suc n) [] read rest e = absurd (ground arith)
length-read_exactly (suc n) (b ∷ input) read rest e = elim (Option-cases (read_exactly n input)) [
  | inl f ↦ absurd (ground arith)
  | inr ((r, s), f) ↦ ground (arith, length-read_exactly n input r s f)
]

-- A line that is not empty takes at least one byte.
length-read_line_bytes :
    (input : List ℕ)
    → length (read_line_bytes input).0 + length (read_line_bytes input).1 ≡ length input
unfolding read_line_bytes
length-read_line_bytes [] = omega arith
length-read_line_bytes (b ∷ input) = ground (arith, length-read_line_bytes input)

-- A call whose input is short enough returns.
abbrev Returns : (Text → List ℕ → Option Discarded) → ℕ → Type 0
Returns f n =
    (line : Text) (input : List ℕ) → length input < n → (r : Discarded) × (f line input ≡ some r)

after_line-Returns :
    (f : Text → List ℕ → Option Discarded) (uni : Unicode) (n : ℕ) (p : List ℕ × List ℕ)
    → Returns f n
    → length p.0 + length p.1 ≤ n
    → (r : Discarded) × (after_line f uni p ≡ some r)
after_line-Returns f uni n ([], rest) h e = (lost, refl)
after_line-Returns f uni n (b ∷ line, rest) h e = h (next_text uni (b ∷ line)) rest (omega arith)

after_literal-Returns :
    (f : Text → List ℕ → Option Discarded) (uni : Unicode) (n : ℕ) (input : List ℕ)
    (o : Option (List ℕ × List ℕ))
    → Returns f n
    → ((read rest : List ℕ) → o ≡ some (read, rest) → length rest ≤ n)
    → (r : Discarded) × (after_literal f uni o ≡ some r)
after_literal-Returns f uni n input none h e = (lost, refl)
after_literal-Returns f uni n input (some (read, rest)) h e =
    let short : length rest ≤ n = e read rest refl in
    after_line-Returns f uni n (read_line_bytes rest) h (omega (arith, length-read_line_bytes rest))

size-Returns :
    (f : Text → List ℕ → Option Discarded) (uni : Unicode) (n cap : ℕ) (input : List ℕ)
    (o : Option ℕ)
    → Returns f n
    → length input ≤ n
    → (r : Discarded) × (discard_size f uni cap input o ≡ some r)
size-Returns f uni n cap input none h e = (_, refl)
size-Returns f uni n cap input (some size) h e =
    if_cases (λ o. (r : Discarded) × (o ≡ some r)) (ltb cap size) _ _ (λ t. (_, refl))
      (λ t.
        after_literal-Returns f uni n input (read_exactly size input) h
          (λ read rest q. omega (arith, length-read_exactly size input read rest q)))

-- The loop that discards the literals of a refused command ends: one round more than the input has bytes
-- is always enough, whatever sizes the client announces, since each round reads at least one byte.
pub discard_nonsync_literals-returns :
    (fuel : ℕ) (uni : Unicode) (cap : ℕ) (line : Text) (input : List ℕ)
    → length input < fuel
    → (r : Discarded) × (discard_nonsync_literals fuel uni cap line input ≡ some r)
unfolding discard_nonsync_literals
discard_nonsync_literals-returns zero uni cap line input h = absurd (omega arith)
discard_nonsync_literals-returns (suc n) uni cap line input h =
    size-Returns (discard_nonsync_literals n uni cap) uni n cap input
      (nonsync_literal_size uni line) (λ l i e. discard_nonsync_literals-returns n uni cap l i e)
      (omega arith)
