-- ===== src/Base/Text.antt =====
-- Python's `str` as the list of its code points, with the methods whose result does not depend on
-- the tables of Unicode beyond the class of white space.
use recruiter_pilot.Base.Equality.{contains, list_eq, nat_eq, option_eq, string_eq, ◌==◌}
use recruiter_pilot.Base.Library.{Bool, List, [], arith, false, ℕ, ◌&&◌, ◌||◌, ◌∷◌, ◌≤◌}
use recruiter_pilot.Base.Lists.{length}
use recruiter_pilot.Base.Tests.{if◌then◌else◌, leb}

abbrev pub Text : Type 0
Text = List ℕ

-- `str.isspace` of one character, which `\s` matches too
unfoldable pub is_space : ℕ → Bool
is_space c =
    leb 9 c && leb c 13
    || leb 28 c && leb c 32
    || contains (0x85 ∷ 0xa0 ∷ 0x1680 ∷ 0x2028 ∷ 0x2029 ∷ 0x202f ∷ 0x205f ∷ 0x3000 ∷ []) c
    || leb 0x2000 c && leb c 0x200a

unfoldable pub lstrip : Text → Text
lstrip [] = []
lstrip (c ∷ s) = let rest = lstrip s in if is_space c then rest else c ∷ s

abbrev pub keep_unless_blank : Bool → ℕ → Text → Text
keep_unless_blank blank c [] = if blank then [] else c ∷ []
keep_unless_blank blank c (d ∷ s) = c ∷ d ∷ s

unfoldable pub rstrip : Text → Text
rstrip [] = []
rstrip (c ∷ s) = keep_unless_blank (is_space c) c (rstrip s)

-- `s.strip()`
unfoldable pub strip : Text → Text
unfolding lstrip rstrip
strip s = lstrip (rstrip s)

-- the first character, where there is one
abbrev pub starts_with_char : ℕ → Text → Bool
starts_with_char c [] = false
starts_with_char c (d ∷ s) = d == c

pub length-lstrip : (s : Text) → length (lstrip s) ≤ length s
unfolding lstrip
length-lstrip [] = omega arith
length-lstrip (c ∷ s) = ground (arith, length-lstrip s)

pub length-rstrip : (s : Text) → length (rstrip s) ≤ length s
unfolding rstrip
length-rstrip [] = omega arith
length-rstrip (c ∷ s) = ground (arith, length-rstrip s)

pub length-strip : (s : Text) → length (strip s) ≤ length s
unfolding strip
length-strip s = omega (arith, length-lstrip (rstrip s), length-rstrip s)
