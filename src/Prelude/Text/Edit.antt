-- ===== src/Prelude/Text/Edit.antt =====
-- More methods of `str`: replace, strip with an argument, rsplit, and pieces of f-strings.
use Prim.Native.Nat.{ℕ, zero, suc, ◌-◌}
use mathlib.Core.Bool.{Bool, true, false}
use mathlib.Core.List.{[], ◌∷◌, ◌++◌, reverse}
use mathlib.Core.Option.{Option, none, some}
use nuvrail.Prelude.Tests.{◌==◌, if◌then◌else◌}
use nuvrail.Prelude.Lists.{length, any}
use nuvrail.Prelude.Text.{Text, Unicode, starts_with, upper_char, lower}

-- s.replace(old, new) for an `old` that is not empty; the number counts the characters that an
-- occurrence still covers
unfoldable pub replace_from : ℕ → Text → Text → Text → Text
unfolding starts_with
replace_from covered old new [] = []
replace_from (suc covered) old new (c ∷ s) = replace_from covered old new s
replace_from zero old new (c ∷ s) =
    let hit = starts_with (c ∷ s) old in
    let rest = replace_from (if hit then length old - 1 else 0) old new s in
    if hit then new ++ rest else c ∷ rest

unfoldable pub replace : Text → Text → Text → Text
unfolding replace_from
replace old new s = replace_from 0 old new s

-- s.lstrip(c), s.strip(c)
unfoldable pub lstrip_of : ℕ → Text → Text
lstrip_of q [] = []
lstrip_of q (c ∷ s) = if c == q then lstrip_of q s else c ∷ s

unfoldable pub strip_of : ℕ → Text → Text
unfolding lstrip_of
strip_of q s = reverse (lstrip_of q (reverse (lstrip_of q s)))

-- s.strip("<>"): the characters of a set
unfoldable pub lstrip_set : Text → Text → Text
lstrip_set q [] = []
lstrip_set q (c ∷ s) = if any (λ d. c == d) q then lstrip_set q s else c ∷ s

unfoldable pub strip_set : Text → Text → Text
unfolding lstrip_set
strip_set q s = reverse (lstrip_set q (reverse (lstrip_set q s)))

-- s.rsplit(sep, 1)[-1]: what stands behind the last separator
unfoldable pub last_segment_from : ℕ → Text → Text → Text
last_segment_from sep seen [] = seen
last_segment_from sep seen (c ∷ s) =
    last_segment_from sep (if c == sep then [] else seen ++ c ∷ []) s

unfoldable pub last_segment : ℕ → Text → Text
unfolding last_segment_from
last_segment sep s = last_segment_from sep [] s

-- s.endswith(p)
unfoldable pub ends_with : Text → Text → Bool
unfolding starts_with
ends_with s p = starts_with (reverse s) (reverse p)

-- s[:-1]
abbrev pub but_last : Text → Text
but_last [] = []
but_last (c ∷ []) = []
but_last (c ∷ d ∷ s) = c ∷ but_last (d ∷ s)

-- s.capitalize()
unfoldable pub capitalize : Unicode → Text → Text
unfolding upper_char lower
capitalize uni [] = []
capitalize uni (c ∷ s) = upper_char uni c ++ lower uni s

-- not s
abbrev pub is_blank : Text → Bool
is_blank [] = true
is_blank (c ∷ s) = false

-- not s, where s may be None
abbrev pub is_missing : Option Text → Bool
is_missing none = true
is_missing (some s) = is_blank s

-- s or ""
abbrev pub text_or_empty : Option Text → Text
text_or_empty none = []
text_or_empty (some s) = s

-- a or b
abbrev pub or_option : Option Text → Option Text → Option Text
or_option none b = b
or_option (some []) b = b
or_option (some (c ∷ s)) b = some (c ∷ s)
