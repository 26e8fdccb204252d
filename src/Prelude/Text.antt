-- ===== src/Prelude/Text.antt =====
-- Python's `str` as the list of its code points, with the methods that the program calls.
pub mod Words
pub mod Edit
use Prim.Native.Nat.{ℕ, ◌+◌, ◌-◌}
use Prim.Native.Char.{code}
use Prim.Native.String.{String}
use mathlib.Core.Path.{◌≡◌, refl}
use mathlib.Core.Logic.{◌↔◌}
use mathlib.Core.Bool.{Bool, true, false, ◌&&◌, ◌||◌}
use mathlib.Core.List.{List, [], ◌∷◌, ◌++◌, reverse}
use native.Mathlib.Omega.{arith}
use nuvrail.Prelude.Tests.{ltb, leb, ◌==◌, if◌then◌else◌}
use mathlib.Core.Option.{Option, none, some}
use nuvrail.Prelude.Lists.{any, every}

abbrev pub Text : Type 0
Text = List ℕ

-- A literal, as its code points.
abbrev pub codes : String → Text
codes String.[] = []
codes (String.◌∷◌ c s) = code c ∷ codes s

-- a == b
unfoldable pub same : Text → Text → Bool
same [] [] = true
same (x ∷ xs) (y ∷ ys) = x == y && same xs ys
same [] (y ∷ ys) = false
same (x ∷ xs) [] = false

pub same_iff : (a b : Text) → (same a b ≡ true) ↔ (a ≡ b)
unfolding same
same_iff [] [] = ground arith
same_iff (x ∷ a) (y ∷ b) = ground (arith, same_iff a b)
same_iff [] (y ∷ b) = ground arith
same_iff (x ∷ a) [] = ground arith

pub same_refl : (a : Text) → same a a ≡ true
same_refl a = (same_iff a a).1 refl

-- x in {…}
unfoldable pub one_of : Text → List Text → Bool
unfolding same
one_of t ts = any (same t) ts

-- s.startswith(p)
unfoldable pub starts_with : Text → Text → Bool
starts_with s [] = true
starts_with [] (p ∷ ps) = false
starts_with (c ∷ s) (p ∷ ps) = c == p && starts_with s ps

-- str.isspace at one code point: every character that `split` and `strip` cut at
unfoldable pub is_space : ℕ → Bool
is_space c =
    (leb 9 c && leb c 13)
    || (leb 28 c && leb c 32)
    || c == 133
    || c == 160
    || c == 5760
    || (leb 8192 c && leb c 8202)
    || c == 8232
    || c == 8233
    || c == 8239
    || c == 8287
    || c == 12288

-- s.lstrip()
unfoldable pub lstrip : Text → Text
unfolding is_space
lstrip [] = []
lstrip (c ∷ s) = if is_space c then lstrip s else c ∷ s

-- s.rstrip() and s.strip()
unfoldable pub rstrip : Text → Text
unfolding lstrip
rstrip s = reverse (lstrip (reverse s))

unfoldable pub strip : Text → Text
unfolding rstrip
strip s = rstrip (lstrip s)

-- The word being read stands in front of the words behind it.
abbrev pub push_word : Text → List Text → List Text
push_word [] ws = ws
push_word (c ∷ w) ws = (c ∷ w) ∷ ws

-- The words between the characters that `sep` accepts, with the part of the current word that has
-- been read.
unfoldable pub split_from : (ℕ → Bool) → Text → Text → List Text
split_from sep w [] = push_word w []
split_from sep w (c ∷ s) =
    let cut = push_word w (split_from sep [] s) in
    let go = split_from sep (w ++ c ∷ []) s in if sep c then cut else go

-- s.split()
unfoldable pub split : Text → List Text
unfolding split_from is_space
split s = split_from is_space [] s

-- sep.join(words)
unfoldable pub join : Text → List Text → Text
join sep [] = []
join sep (w ∷ []) = w
join sep (w ∷ v ∷ ws) = w ++ (sep ++ join sep (v ∷ ws))

-- What Python's `str` takes from Unicode's tables and from UTF-8. It is written out here for ASCII;
-- the rest enters as a parameter: the two case tables and the decimal digits beyond ASCII, and what
-- `decode("utf-8", errors="replace")` makes of bytes that are not all ASCII, and the bytes of a
-- character beyond ASCII.
pub record Unicode : Type 0 where
  pub upper_wide : ℕ → Text
  pub lower_wide : ℕ → Text
  pub digit_wide : ℕ → Option ℕ
  pub decode_wide : List ℕ → Text
  pub encode_wide : ℕ → List ℕ

abbrev pub is_ascii : ℕ → Bool
is_ascii c = ltb c 128

unfoldable pub upper_char : Unicode → ℕ → Text
upper_char uni c =
    if is_ascii c then (if leb b'a' c && leb c b'z' then c - 32 else c) ∷ [] else uni.upper_wide c

unfoldable pub upper : Unicode → Text → Text
unfolding upper_char
upper uni [] = []
upper uni (c ∷ s) = upper_char uni c ++ upper uni s

unfoldable pub lower_char : Unicode → ℕ → Text
lower_char uni c =
    if is_ascii c then (if leb b'A' c && leb c b'Z' then c + 32 else c) ∷ [] else uni.lower_wide c

unfoldable pub lower : Unicode → Text → Text
unfolding lower_char
lower uni [] = []
lower uni (c ∷ s) = lower_char uni c ++ lower uni s

-- int(c) for a character that `\d` matches
unfoldable pub digit : Unicode → ℕ → Option ℕ
digit uni c =
    if is_ascii c
    then (if leb b'0' c && leb c b'9' then some (c - 48) else none)
    else uni.digit_wide c

unfoldable pub decode : Unicode → List ℕ → Text
decode uni bytes = if every is_ascii bytes then bytes else uni.decode_wide bytes

-- s.encode()
unfoldable pub encode : Unicode → Text → List ℕ
encode uni [] = []
encode uni (c ∷ s) = (if is_ascii c then c ∷ [] else uni.encode_wide c) ++ encode uni s

-- s.rstrip("\r\n")
abbrev pub is_crlf : ℕ → Bool
is_crlf c = c == 13 || c == 10

abbrev pub drop_crlf : ℕ → Text → Text
drop_crlf c [] = if is_crlf c then [] else c ∷ []
drop_crlf c (d ∷ s) = c ∷ d ∷ s

unfoldable pub rstrip_crlf : Text → Text
rstrip_crlf [] = []
rstrip_crlf (c ∷ s) = drop_crlf c (rstrip_crlf s)
