-- ===== src/Imap/Router/Capabilities.antt =====
-- What `filter_capabilities` and ENABLE let through.
use nuvrail.Prelude.{
  ℕ, ◌≡◌, refl, ap, ◌∙◌, Bool, true, false, List, [], ◌∷◌, ◌++◌, append_assoc, append-nil, All,
  arith, Bool-cases, ◌⊎◌, inl, inr,
}
use nuvrail.Prelude.Text.{
  Text, Unicode, codes, split, split_from, push_word, join, is_space, upper, one_of, starts_with,
}
use nuvrail.Prelude.Text.Words.{IsWord, is_empty, split_from-word, split_from-IsWord, split_from-ne}
use nuvrail.Imap.Router.{keep, keep_capability, filter_atoms, hidden_capabilities}

All-keep : (P : Text → Type 0) (p : Text → Bool) (ws : List Text) → All P ws → All P (keep p ws)
unfolding keep
All-keep P p [] h = h
All-keep P p (w ∷ ws) h = elim (Bool-cases (p w)) [
  | inl e ↦ rw e (h.0, All-keep P p ws h.1)
  | inr e ↦ rw e (All-keep P p ws h.1)
]

split_from-end :
    (sep : ℕ → Bool) (v w : Text) → IsWord sep w → split_from sep v w ≡ push_word (v ++ w) []
unfolding split_from
split_from-end sep v [] h = rw append-nil
split_from-end sep v (c ∷ w) h =
    let out : sep c ≡ false = ground arith in
    rw out (
      split_from-end sep (v ++ c ∷ []) w (ground arith)
      ∙ ap (λ u. push_word u []) (append_assoc v (c ∷ []) w))

push_word-ne : (w : Text) (ws : List Text) → is_empty w ≡ false → push_word w ws ≡ w ∷ ws
push_word-ne [] ws h = cc
push_word-ne (c ∷ w) ws h = refl

-- Words joined by a space are split into the same words.
split-join :
    (ws : List Text)
    → All (IsWord is_space) ws
    → All (λ w. is_empty w ≡ false) ws
    → split_from is_space [] (join (codes " ") ws) ≡ ws
unfolding join
split-join [] h n = unfold split_from in refl
split-join (w ∷ []) h n = split_from-end is_space [] w h.0 ∙ push_word-ne w [] n.0
split-join (w ∷ v ∷ ws) h n =
    split_from-word is_space [] w b' ' (join (codes " ") (v ∷ ws)) h.0 (unfold is_space in refl)
    ∙ push_word-ne w _ n.0
    ∙ ap (◌∷◌ w) (split-join (v ∷ ws) h.1 n.1)

split-filter_atoms :
    (uni : Unicode) (atoms : Text)
    → split (filter_atoms uni atoms) ≡ keep (keep_capability uni) (split atoms)
unfolding filter_atoms split
split-filter_atoms uni atoms =
    let ws = split_from is_space [] atoms in
    split-join (keep (keep_capability uni) ws)
      (All-keep (IsWord is_space) (keep_capability uni) ws
        (split_from-IsWord is_space [] atoms refl))
      (All-keep (λ w. is_empty w ≡ false) (keep_capability uni) ws
        (split_from-ne is_space [] atoms))

-- The capabilities that an agent must not see, in capitals.
abbrev pub never_shown : List Text
never_shown =
    codes "LITERAL+"
    ∷ codes "LITERAL-"
    ∷ codes "REPLACE"
    ∷ codes "STARTTLS"
    ∷ codes "IMAP4REV2"
    ∷ codes "BINARY"
    ∷ codes "MULTIAPPEND"
    ∷ []

-- The second list has the words of the first in their order, less the hidden ones.
pub data IsFiltered (uni : Unicode) : List Text → List Text → Type 0 where
  ends : IsFiltered uni [] []
  shows :
      (w : Text) (ws vs : List Text)
      → one_of (upper uni w) never_shown ≡ false
      → starts_with (upper uni w) (codes "COMPRESS=") ≡ false
      → IsFiltered uni ws vs
      → IsFiltered uni (w ∷ ws) (w ∷ vs)
  hides :
      (w : Text) (ws vs : List Text)
      → (one_of (upper uni w) never_shown ≡ true)
        ⊎ (starts_with (upper uni w) (codes "COMPRESS=") ≡ true)
      → IsFiltered uni ws vs
      → IsFiltered uni (w ∷ ws) vs

keep-IsFiltered :
    (uni : Unicode) (ws : List Text) → IsFiltered uni ws (keep (keep_capability uni) ws)
unfolding keep keep_capability
keep-IsFiltered uni [] = ends
keep-IsFiltered uni (w ∷ ws) =
    let rest = keep (keep_capability uni) ws in
    let more = keep-IsFiltered uni ws in
    elim (Bool-cases (one_of (upper uni w) hidden_capabilities)) [
      | inl e ↦ rw e (hides w ws rest (inl e) more)
      | inr e ↦ elim (Bool-cases (starts_with (upper uni w) (codes "COMPRESS="))) [
        | inl h ↦ rw (e, h) (hides w ws rest (inr h) more)
        | inr h ↦ rw (e, h) (shows w ws rest e h more)
      ]
    ]

-- The words of the filtered line are those of the line, in their order, less exactly the ones that are
-- LITERAL+, LITERAL-, REPLACE, STARTTLS, IMAP4REV2, BINARY or MULTIAPPEND or begin with COMPRESS=, in
-- any letter case.
pub filter_atoms-IsFiltered :
    (uni : Unicode) (atoms : Text) → IsFiltered uni (split atoms) (split (filter_atoms uni atoms))
filter_atoms-IsFiltered uni atoms = rw split-filter_atoms (keep-IsFiltered uni (split atoms))

abbrev pub IsShown : Unicode → Text → Type 0
IsShown uni w =
    (one_of (upper uni w) hidden_capabilities ≡ false)
    × (starts_with (upper uni w) (codes "COMPRESS=") ≡ false)
