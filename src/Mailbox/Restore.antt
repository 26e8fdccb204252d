-- ===== src/Mailbox/Restore.antt =====
-- A staged change that is rejected: what the snapshot gives back of the messages.
pub mod Staged
use nuvrail.Prelude.{
  ℕ, ◌≡◌, refl, sym, ap, ◌∙◌, Bool, true, false, ◌&&◌, ◌||◌, List, [], ◌∷◌, Option, none, some, map,
  ◌⊎◌, any, All, leb, ◌==◌, if◌then◌else◌, arith, Bool-cases, Option-cases, inl, inr,
}
use nuvrail.Prelude.Text.{Text, Unicode}
use nuvrail.Staging.Store.{Message, SnapEntry, restore_entry, restore_entries, is_at}
use nuvrail.Mailbox.{
  entry_of, is_target, insert_message, rows_of, get_messages_by_uid_set, snapshot_messages,
  update_flags, update_all, apply_optimistic_flag_update, delete_rows, remove_messages_from_folder,
  expand_uid_set, folder_uids,
}

-- The row of a folder and UID.
unfoldable pub lookup : ℕ → ℕ → List Message → Option Message
lookup f u [] = none
lookup f u (m ∷ ms) = if is_at f u m then some m else lookup f u ms

-- UNIQUE (folder_id, uid)
abbrev pub Unique : List Message → Type 0
Unique [] = Unit
Unique (m ∷ ms) = (any (is_at m.folder_id m.uid) ms ≡ false) × Unique ms

-- A row without the time of its last update, and without its flags too.
abbrev pub plain : Message → Message
plain m = record m { last_updated = 0 }

abbrev pub seen : Option Message → Option Message
seen none = none
seen (some m) = some (plain m)

abbrev pub shape : Message → Message
shape m = record m { flags = []; last_updated = 0 }

-- There, and changed in its flags and the time of its update only.
abbrev pub Near : Message → Option Message → Type 0
Near m0 none = ⊥
Near m0 (some m) = shape m ≡ shape m0

abbrev pub restored : ℕ → SnapEntry → Option Message → Message
restored now e none = record {
  folder_id = e.folder_id;
  uid = e.uid;
  sequence_num = e.seq_num;
  flags = e.flags;
  sender = e.sender;
  subject = e.subject;
  message_id = none;
  date_sent = none;
  size = none;
  last_updated = now;
}
restored now e (some m) = record m { flags = e.flags; last_updated = now }

-- The row that the INSERT of the revert writes for a row that was deleted.
abbrev pub returned : ℕ → Message → Message
returned now m = record m { message_id = none; date_sent = none; size = none; last_updated = now }

abbrev pub returned_row : ℕ → Option Message → Option Message
returned_row now none = none
returned_row now (some m) = some (returned now m)

abbrev pub at_key : ℕ → ℕ → SnapEntry → Bool
at_key f u e = e.folder_id == f && e.uid == u

lookup-restore_entry :
    (now f u : ℕ) (e : SnapEntry) (ms : List Message)
    → lookup f u (restore_entry now e ms) ≡ (
        if at_key f u e then some (restored now e (lookup e.folder_id e.uid ms)) else lookup f u ms)
unfolding lookup restore_entry
lookup-restore_entry now f u e [] = ground arith
lookup-restore_entry now f u e (m ∷ ms) = ground (arith, lookup-restore_entry now f u e ms)

seen-restored :
    (now : ℕ) (m0 : Message) (o : Option Message)
    → Near m0 o
    → plain (restored now (entry_of m0) o) ≡ plain m0
seen-restored now m0 none h = absurd h
seen-restored now m0 (some m) h = ap (λ (x : Message). record x { flags = m0.flags }) h

Near-seen : (m0 : Message) (o : Option Message) → seen o ≡ some (plain m0) → Near m0 o
Near-seen m0 none h = absurd (ground arith)
Near-seen m0 (some m) h = ground arith

module _ (now f u : ℕ) (m0 : Message) where
  -- An entry of this key was taken from the row `m0`.
  abbrev Tells : SnapEntry → Type 0
  Tells e = at_key f u e ≡ true → e ≡ entry_of m0

  restore_entry-Tells :
      (e : SnapEntry) (ms : List Message)
      → at_key f u e ≡ true
      → Tells e
      → Near m0 (lookup f u ms)
      → seen (lookup f u (restore_entry now e ms)) ≡ some (plain m0)
  restore_entry-Tells e ms k t near =
      let ef : e.folder_id ≡ f = ground arith in
      let eu : e.uid ≡ u = ground arith in
      rw (lookup-restore_entry now f u e ms, k)
        (ap some (
          ap (λ e'. plain (restored now e' (lookup e.folder_id e.uid ms))) (t k)
          ∙ seen-restored now m0 (lookup e.folder_id e.uid ms) (rw (ef, eu) near)))

  restore_entries-seen :
      (es : List SnapEntry) (ms : List Message)
      → All Tells es
      → seen (lookup f u ms) ≡ some (plain m0)
      → seen (lookup f u (restore_entries now es ms)) ≡ some (plain m0)
  unfolding restore_entries
  restore_entries-seen [] ms t h = h
  restore_entries-seen (e ∷ es) ms t h = elim (Bool-cases (at_key f u e)) [
    | inl k ↦
        restore_entries-seen es (restore_entry now e ms) t.1
          (restore_entry-Tells e ms k t.0 (Near-seen m0 (lookup f u ms) h))
    | inr k ↦
        restore_entries-seen es (restore_entry now e ms) t.1
          (rw (lookup-restore_entry now f u e ms, k) h)
  ]

  restore_entries-Near :
      (es : List SnapEntry) (ms : List Message)
      → All Tells es
      → any (at_key f u) es ≡ true
      → Near m0 (lookup f u ms)
      → seen (lookup f u (restore_entries now es ms)) ≡ some (plain m0)
  unfolding restore_entries
  restore_entries-Near [] ms t a h = cc
  restore_entries-Near (e ∷ es) ms t a h = elim (Bool-cases (at_key f u e)) [
    | inl k ↦
        restore_entries-seen es (restore_entry now e ms) t.1 (restore_entry-Tells e ms k t.0 h)
    | inr k ↦
        restore_entries-Near es (restore_entry now e ms) t.1 (ground arith)
          (rw (lookup-restore_entry now f u e ms, k) h)
  ]

module _ (now f u : ℕ) (m0 : Message) where
  restored-none : (o : Option Message) → o ≡ none → restored now (entry_of m0) o ≡ returned now m0
  restored-none none h = refl
  restored-none (some m) h = absurd (ground arith)

  restored-returned :
      (o : Option Message)
      → o ≡ some (returned now m0)
      → restored now (entry_of m0) o ≡ returned now m0
  restored-returned none h = absurd (ground arith)
  restored-returned (some m) h =
      let e : m ≡ returned now m0 = ground arith in
      ap (λ (x : Message). record x { flags = m0.flags; last_updated = now }) e

  -- Entries of a key whose row is gone, or is the one of an earlier entry.
  restore_entry-returned :
      (e : SnapEntry) (ms : List Message)
      → at_key f u e ≡ true
      → Tells now f u m0 e
      → (lookup f u ms ≡ none) ⊎ (lookup f u ms ≡ some (returned now m0))
      → lookup f u (restore_entry now e ms) ≡ some (returned now m0)
  restore_entry-returned e ms k t there =
      let ef : e.folder_id ≡ f = ground arith in
      let eu : e.uid ≡ u = ground arith in
      let here : restored now e (lookup e.folder_id e.uid ms)
          ≡ restored now (entry_of m0) (lookup f u ms) =
        ap (λ e'. restored now e' (lookup e.folder_id e.uid ms)) (t k) ∙ rw (ef, eu) refl in
      rw (lookup-restore_entry now f u e ms, k)
        (ap some (
          here ∙ elim there [
            | inl gone ↦ restored-none (lookup f u ms) gone
            | inr back ↦ restored-returned (lookup f u ms) back
          ]))

  restore_entries-returned :
      (es : List SnapEntry) (ms : List Message)
      → All (Tells now f u m0) es
      → lookup f u ms ≡ some (returned now m0)
      → lookup f u (restore_entries now es ms) ≡ some (returned now m0)
  unfolding restore_entries
  restore_entries-returned [] ms t h = h
  restore_entries-returned (e ∷ es) ms t h = elim (Bool-cases (at_key f u e)) [
    | inl k ↦
        restore_entries-returned es (restore_entry now e ms) t.1
          (restore_entry-returned e ms k t.0 (inr h))
    | inr k ↦
        restore_entries-returned es (restore_entry now e ms) t.1
          (rw (lookup-restore_entry now f u e ms, k) h)
  ]

  pub restore_entries-gone :
      (es : List SnapEntry) (ms : List Message)
      → All (Tells now f u m0) es
      → any (at_key f u) es ≡ true
      → lookup f u ms ≡ none
      → lookup f u (restore_entries now es ms) ≡ some (returned now m0)
  unfolding restore_entries
  restore_entries-gone [] ms t a h = cc
  restore_entries-gone (e ∷ es) ms t a h = elim (Bool-cases (at_key f u e)) [
    | inl k ↦
        restore_entries-returned es (restore_entry now e ms) t.1
          (restore_entry-returned e ms k t.0 (inl h))
    | inr k ↦
        restore_entries-gone es (restore_entry now e ms) t.1 (ground arith)
          (rw (lookup-restore_entry now f u e ms, k) h)
  ]

restore_entries-other :
    (now f u : ℕ) (es : List SnapEntry) (ms : List Message)
    → any (at_key f u) es ≡ false
    → lookup f u (restore_entries now es ms) ≡ lookup f u ms
unfolding restore_entries
restore_entries-other now f u [] ms a = refl
restore_entries-other now f u (e ∷ es) ms a =
    restore_entries-other now f u es (restore_entry now e ms) (ground arith)
    ∙ rw lookup-restore_entry (ground arith)

any-insert_message :
    (p : Message → Bool) (m : Message) (ns : List Message)
    → any p (insert_message m ns) ≡ p m || any p ns
unfolding insert_message
any-insert_message p m [] = refl
any-insert_message p m (n ∷ ns) = ground (arith, any-insert_message p m ns)

All-insert_message :
    (P : Message → Type 0) (m : Message) (ns : List Message)
    → P m
    → All P ns
    → All P (insert_message m ns)
unfolding insert_message
All-insert_message P m [] h hs = (h, tt)
All-insert_message P m (n ∷ ns) h hs = elim (Bool-cases (leb m.uid n.uid)) [
  | inl e ↦ rw e (h, hs)
  | inr e ↦ rw e (hs.0, All-insert_message P m ns h hs.1)
]

All-rows_of :
    (P : Message → Type 0) (folder : ℕ) (uids : List ℕ) (ms : List Message)
    → All P ms
    → All P (rows_of folder uids ms)
unfolding rows_of
All-rows_of P folder uids [] h = tt
All-rows_of P folder uids (m ∷ ms) h = elim (Bool-cases (is_target folder uids m)) [
  | inl e ↦ rw e (All-insert_message P m _ h.0 (All-rows_of P folder uids ms h.1))
  | inr e ↦ rw e (All-rows_of P folder uids ms h.1)
]

pub folder-rows_of :
    (folder : ℕ) (uids : List ℕ) (ms : List Message)
    → All (λ (m : Message). m.folder_id ≡ folder) (rows_of folder uids ms)
unfolding rows_of
folder-rows_of folder uids [] = tt
folder-rows_of folder uids (m ∷ ms) = elim (Bool-cases (is_target folder uids m)) [
  | inl e ↦ rw e (
      All-insert_message (λ (q : Message). q.folder_id ≡ folder) m _ (ground arith)
        (folder-rows_of folder uids ms))
  | inr e ↦ rw e (folder-rows_of folder uids ms)
]

any-rows_of :
    (f u folder : ℕ) (uids : List ℕ) (ms : List Message)
    → lookup f u ms ≡ none
    → any (is_at f u) (rows_of folder uids ms) ≡ false
unfolding rows_of lookup
any-rows_of f u folder uids [] h = refl
any-rows_of f u folder uids (m ∷ ms) h = ground (
  arith,
  any-rows_of f u folder uids ms,
  any-insert_message (is_at f u) m (rows_of folder uids ms),
)

any-at_key :
    (f u : ℕ) (rows : List Message) → any (at_key f u) (map entry_of rows) ≡ any (is_at f u) rows
any-at_key f u [] = refl
any-at_key f u (m ∷ rows) = ground (arith, any-at_key f u rows)

none_at-All :
    (f u : ℕ) (m0 : Message) (ms : List Message)
    → any (is_at f u) ms ≡ false
    → All (λ (m : Message). is_at f u m ≡ true → m ≡ m0) ms
none_at-All f u m0 [] h = tt
none_at-All f u m0 (m ∷ ms) h = (λ k. absurd (ground arith), none_at-All f u m0 ms (ground arith))

Unique-All :
    (f u : ℕ) (m0 : Message) (ms : List Message)
    → Unique ms
    → lookup f u ms ≡ some m0
    → All (λ (m : Message). is_at f u m ≡ true → m ≡ m0) ms
unfolding lookup
Unique-All f u m0 [] un h = tt
Unique-All f u m0 (m ∷ ms) un h = elim (Bool-cases (is_at f u m)) [
  | inl k ↦
      let mf : m.folder_id ≡ f = ground arith in
      let mu : m.uid ≡ u = ground arith in
      (λ _. ground arith, none_at-All f u m0 ms (rw (mf, mu) at un.0))
  | inr k ↦ (λ j. absurd (ground arith), Unique-All f u m0 ms un.1 (ground arith))
]

Tells-rows :
    (now f u : ℕ) (m0 : Message) (rows : List Message)
    → All (λ (m : Message). is_at f u m ≡ true → m ≡ m0) rows
    → All (Tells now f u m0) (map entry_of rows)
Tells-rows now f u m0 [] h = tt
Tells-rows now f u m0 (m ∷ rows) h = (λ k. ap entry_of (h.0 k), Tells-rows now f u m0 rows h.1)

-- A change of the table that touches rows of the snapshot only, and no more than their flags, is
-- taken back.
pub restore_lem :
    (now f u folder : ℕ) (uids : List ℕ) (ms changed : List Message)
    → Unique ms
    → (any (is_at f u) (rows_of folder uids ms) ≡ false → lookup f u changed ≡ lookup f u ms)
    → ((m0 : Message) → lookup f u ms ≡ some m0 → Near m0 (lookup f u changed))
    → seen (lookup f u (restore_entries now (map entry_of (rows_of folder uids ms)) changed))
      ≡ seen (lookup f u ms)
restore_lem now f u folder uids ms changed un same_else near =
    elim (Bool-cases (any (is_at f u) (rows_of folder uids ms))) [
      | inr miss ↦ ap seen (
          restore_entries-other now f u _ changed (any-at_key f u (rows_of folder uids ms) ∙ miss)
          ∙ same_else miss)
      | inl hit ↦ elim (Option-cases (lookup f u ms)) [
        | inl e ↦ absurd (cc (any-rows_of f u folder uids ms e))
        | inr (m0, e) ↦
            restore_entries-Near now f u m0 _ changed
              (Tells-rows now f u m0 _ (All-rows_of _ folder uids ms (Unique-All f u m0 ms un e)))
              (any-at_key f u (rows_of folder uids ms) ∙ hit) (near m0 e)
            ∙ sym (ap seen e)
      ]
    ]

-- A change of the table that deletes exactly the rows of the snapshot: their rows are written anew.
pub restore_gone_lem :
    (now f u folder : ℕ) (uids : List ℕ) (ms changed : List Message)
    → Unique ms
    → (any (is_at f u) (rows_of folder uids ms) ≡ false → lookup f u changed ≡ lookup f u ms)
    → (any (is_at f u) (rows_of folder uids ms) ≡ true → lookup f u changed ≡ none)
    → lookup f u (restore_entries now (map entry_of (rows_of folder uids ms)) changed) ≡ (
        if any (at_key f u) (map entry_of (rows_of folder uids ms))
        then returned_row now (lookup f u ms)
        else lookup f u ms)
restore_gone_lem now f u folder uids ms changed un same_else gone =
    elim (Bool-cases (any (is_at f u) (rows_of folder uids ms))) [
      | inr miss ↦
          rw (any-at_key f u (rows_of folder uids ms), miss)
            (restore_entries-other now f u _ changed
                (any-at_key f u (rows_of folder uids ms) ∙ miss)
              ∙ same_else miss)
      | inl hit ↦ elim (Option-cases (lookup f u ms)) [
        | inl e ↦ absurd (cc (any-rows_of f u folder uids ms e))
        | inr (m0, e) ↦
            rw (any-at_key f u (rows_of folder uids ms), hit)
              (restore_entries-gone now f u m0 (map entry_of (rows_of folder uids ms)) changed
                  (Tells-rows now f u m0 _
                    (All-rows_of _ folder uids ms (Unique-All f u m0 ms un e)))
                  (any-at_key f u (rows_of folder uids ms) ∙ hit) (gone hit)
                ∙ sym (ap (returned_row now) e))
      ]
    ]
