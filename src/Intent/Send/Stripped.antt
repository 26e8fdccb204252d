-- ===== src/Intent/Send/Stripped.antt =====
-- The prefixes that are stripped from a subject.
use nuvrail.Prelude.{
  ℕ, zero, suc, ◌≤◌, ◌<◌, ◌≡◌, refl, Bool, true, false, List, [], ◌∷◌, ◌++◌, Option, none, some,
  length, arith, Option-cases, inl, inr,
}
use nuvrail.Prelude.Text.{Text, Unicode, lstrip, strip}
use nuvrail.Intent.Send.{
  after_word, after_counter, after_bracket, after_colon, after_tail, after_mark, after_prefix,
  match_prefix, reply_words, forward_words, strip_rounds, strip_subject_prefixes,
}

length-lstrip : (s : Text) → length (lstrip s) ≤ length s
unfolding lstrip
length-lstrip [] = ground arith
length-lstrip (c ∷ s) = ground (arith, length-lstrip s)

length-after_word : (w s r : Text) → after_word w s ≡ some r → length r ≤ length s
unfolding after_word
length-after_word [] s r e = ground arith
length-after_word (d ∷ w) [] r e = absurd (ground arith)
length-after_word (d ∷ w) (c ∷ s) r e = ground (arith, length-after_word w s r)

length-after_counter :
    (uni : Unicode) (b : Bool) (s r : Text) → after_counter uni b s ≡ some r → length r ≤ length s
unfolding after_counter
length-after_counter uni b [] r e = absurd (ground arith)
length-after_counter uni b (c ∷ s) r e = ground (arith, length-after_counter uni true s r)

length-after_bracket :
    (uni : Unicode) (s r : Text) → after_bracket uni s ≡ some r → length r ≤ length s
length-after_bracket uni [] r e = ground arith
length-after_bracket uni (c ∷ s) r e = ground (arith, length-after_counter uni false s r)

length-after_colon : (s r : Text) → after_colon s ≡ some r → length r < length s
length-after_colon [] r e = absurd (ground arith)
length-after_colon (c ∷ s) r e = ground arith

length-after_tail :
    (o : Option Text) (s r : Text) → after_tail o ≡ some r → o ≡ some s → length r < length s
length-after_tail none s r e f = absurd (ground arith)
length-after_tail (some t) s r e f =
    ground (arith, length-after_colon (lstrip t) r, length-lstrip t)

length-after_mark :
    (uni : Unicode) (o : Option Text) (s r : Text)
    → after_mark uni o ≡ some r
    → o ≡ some s
    → length r < length s
length-after_mark uni none s r e f = absurd (ground arith)
length-after_mark uni (some t) s r e f = elim (Option-cases (after_bracket uni t)) [
  | inl n ↦ absurd (ground arith)
  | inr (b, k) ↦
      ground
        (arith, length-after_tail (after_bracket uni t) b r e k, length-after_bracket uni t b k)
]

length-after_prefix :
    (uni : Unicode) (words : List Text) (s r : Text)
    → after_prefix uni words s ≡ some r
    → length r < length s
unfolding after_prefix
length-after_prefix uni [] s r e = absurd (ground arith)
length-after_prefix uni (w ∷ words) s r e = elim (Option-cases (after_word w s)) [
  | inl n ↦ ground (arith, length-after_prefix uni words s r)
  | inr (t, k) ↦ elim (Option-cases (after_mark uni (after_word w s))) [
    | inl n ↦ ground (arith, length-after_prefix uni words s r)
    | inr (q, m) ↦
        ground (arith, length-after_mark uni (after_word w s) t q m k, length-after_word w s t k)
  ]
]

length-match_prefix :
    (uni : Unicode) (words : List Text) (s r : Text)
    → match_prefix uni words s ≡ some r
    → length r < length s
unfolding match_prefix
length-match_prefix uni words s r e =
    ground (arith, length-after_prefix uni words (lstrip s) r e, length-lstrip s)

-- Enough rounds leave a text that does not begin with a prefix.
match_prefix-strip_rounds :
    (uni : Unicode) (n : ℕ) (s : Text)
    → length s ≤ n
    → match_prefix uni (reply_words ++ forward_words) (strip_rounds uni n s) ≡ none
unfolding strip_rounds
match_prefix-strip_rounds uni zero s h =
    elim (Option-cases (match_prefix uni (reply_words ++ forward_words) s)) [
      | inl e ↦ e
      | inr (r, e) ↦
          absurd (ground (arith, length-match_prefix uni (reply_words ++ forward_words) s r e))
    ]
match_prefix-strip_rounds uni (suc n) s h =
    elim (Option-cases (match_prefix uni (reply_words ++ forward_words) s)) [
      | inl e ↦ rw (e, e) refl
      | inr (r, e) ↦ rw e (
          match_prefix-strip_rounds uni n (lstrip r) (
            ground (
              arith,
              length-lstrip r,
              length-match_prefix uni (reply_words ++ forward_words) s r e,
            )))
    ]

-- The loop that strips the reply and forward prefixes ends: as many rounds as the subject has
-- characters are enough, and the text that is returned begins with no further prefix.
pub match_prefix-strip_subject_prefixes :
    (uni : Unicode) (subject : Text)
    → match_prefix uni (reply_words ++ forward_words) (strip_subject_prefixes uni subject) ≡ none
unfolding strip_subject_prefixes
match_prefix-strip_subject_prefixes uni subject =
    match_prefix-strip_rounds uni (length (strip subject)) (strip subject) (omega arith)
