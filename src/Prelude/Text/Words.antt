-- ===== src/Prelude/Text/Words.antt =====
-- Lemmas on `split`: what the words hold, and when two sets of separators give the same words.
use nuvrail.Prelude.Tests.{Bool-cases}
use nuvrail.Prelude.Lists.{All, every}
use Prim.Native.Nat.{ℕ}
use mathlib.Core.Path.{◌≡◌, refl, ap, ◌∙◌}
use mathlib.Core.Logic.{inl, inr}
use mathlib.Core.Bool.{Bool, true, false, ◌&&◌, not}
use mathlib.Core.List.{List, [], ◌∷◌, ◌++◌, append_assoc, append-nil}
use native.Mathlib.Omega.{arith}
use nuvrail.Prelude.Text.{Text, split_from, push_word, rstrip_crlf, drop_crlf, is_crlf}

-- Separators that agree at every character of the text give the same words.
pub split_from_agree :
    (sep cut : ℕ → Bool) (w s : Text)
    → All (λ c. sep c ≡ cut c) s
    → split_from sep w s ≡ split_from cut w s
unfolding split_from
split_from_agree sep cut w [] h = refl
split_from_agree sep cut w (c ∷ s) (e, h) =
    rw (e, split_from_agree sep cut [] s h, split_from_agree sep cut (w ++ c ∷ []) s h)

-- A line ending that is a separator adds no word.
split_from-drop_crlf :
    (sep : ℕ → Bool) (w : Text) (c : ℕ) (s : Text)
    → ((d : ℕ) → is_crlf d ≡ true → sep d ≡ true)
    → split_from sep w (drop_crlf c s) ≡ split_from sep w (c ∷ s)
unfolding split_from
split_from-drop_crlf sep w c [] h = ground (arith, h c)
split_from-drop_crlf sep w c (d ∷ s) h = refl

split_from-cons :
    (sep : ℕ → Bool) (w : Text) (c : ℕ) (s t : Text)
    → split_from sep [] s ≡ split_from sep [] t
    → split_from sep (w ++ c ∷ []) s ≡ split_from sep (w ++ c ∷ []) t
    → split_from sep w (c ∷ s) ≡ split_from sep w (c ∷ t)
unfolding split_from
split_from-cons sep w c s t e f = rw (e, f)

pub split_from-rstrip_crlf :
    (sep : ℕ → Bool) (w s : Text)
    → ((d : ℕ) → is_crlf d ≡ true → sep d ≡ true)
    → split_from sep w (rstrip_crlf s) ≡ split_from sep w s
unfolding rstrip_crlf
split_from-rstrip_crlf sep w [] h = refl
split_from-rstrip_crlf sep w (c ∷ s) h =
    split_from-drop_crlf sep w c (rstrip_crlf s) h
    ∙ split_from-cons sep w c (rstrip_crlf s) s (split_from-rstrip_crlf sep [] s h)
        (split_from-rstrip_crlf sep (w ++ c ∷ []) s h)

-- No character of a word is a separator.
abbrev pub IsWord : (ℕ → Bool) → Text → Type 0
IsWord sep w = every (λ c. not (sep c)) w ≡ true

every-append_one : (p : ℕ → Bool) (w : Text) (c : ℕ) → every p (w ++ c ∷ []) ≡ every p w && p c
every-append_one p [] c = ground arith
every-append_one p (d ∷ w) c = ground (arith, every-append_one p w c)

All-push_word :
    (P : Text → Type 0) (w : Text) (ws : List Text) → P w → All P ws → All P (push_word w ws)
All-push_word P [] ws hw h = h
All-push_word P (c ∷ w) ws hw h = (hw, h)

pub split_from-IsWord :
    (sep : ℕ → Bool) (w s : Text) → IsWord sep w → All (IsWord sep) (split_from sep w s)
unfolding split_from
split_from-IsWord sep w [] h = All-push_word (IsWord sep) w [] h tt
split_from-IsWord sep w (c ∷ s) h = elim (Bool-cases (sep c)) [
  | inl e ↦ rw e (All-push_word (IsWord sep) w _ h (split_from-IsWord sep [] s refl))
  | inr e ↦ rw e (split_from-IsWord sep (w ++ c ∷ []) s (rw every-append_one (ground arith)))
]

-- What holds of every character of the text holds of every character of its words.
pub split_from-every :
    (p sep : ℕ → Bool) (w s : Text)
    → every p w ≡ true
    → every p s ≡ true
    → All (λ v. every p v ≡ true) (split_from sep w s)
unfolding split_from
split_from-every p sep w [] hw h = All-push_word (λ v. every p v ≡ true) w [] hw tt
split_from-every p sep w (c ∷ s) hw h = elim (Bool-cases (sep c)) [
  | inl e ↦ rw e (
      All-push_word (λ v. every p v ≡ true) w _ hw
        (split_from-every p sep [] s refl (ground arith)))
  | inr e ↦
      rw e
        (split_from-every p sep (w ++ c ∷ []) s (rw every-append_one (ground arith)) (ground arith))
]

-- A word has a character.
abbrev pub is_empty : Text → Bool
is_empty [] = true
is_empty (c ∷ w) = false

ne-push_word :
    (w : Text) (ws : List Text)
    → All (λ v. is_empty v ≡ false) ws
    → All (λ v. is_empty v ≡ false) (push_word w ws)
ne-push_word [] ws h = h
ne-push_word (c ∷ w) ws h = (refl, h)

pub split_from-ne :
    (sep : ℕ → Bool) (w s : Text) → All (λ v. is_empty v ≡ false) (split_from sep w s)
unfolding split_from
split_from-ne sep w [] = ne-push_word w [] tt
split_from-ne sep w (c ∷ s) = elim (Bool-cases (sep c)) [
  | inl e ↦ rw e (ne-push_word w _ (split_from-ne sep [] s))
  | inr e ↦ rw e (split_from-ne sep (w ++ c ∷ []) s)
]

-- A word in front of a separator is read whole.
pub split_from-word :
    (sep : ℕ → Bool) (w t : Text) (c : ℕ) (s : Text)
    → IsWord sep t
    → sep c ≡ true
    → split_from sep w (t ++ c ∷ s) ≡ push_word (w ++ t) (split_from sep [] s)
unfolding split_from
split_from-word sep w [] c s h e = rw (e, append-nil)
split_from-word sep w (d ∷ t) c s h e =
    let out : sep d ≡ false = ground arith in
    rw out (
      split_from-word sep (w ++ d ∷ []) t c s (ground arith) e
      ∙ ap (λ v. push_word v (split_from sep [] s)) (append_assoc w (d ∷ []) t))
