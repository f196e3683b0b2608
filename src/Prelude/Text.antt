-- ===== src/Prelude/Text.antt =====
-- Text as the list of its code points: the methods of `str` that the scripts use. `lower` and
-- `isdigit` are those of ASCII text.
use Prim.Native.Nat.{ℕ, ◌+◌}
use mathlib.Core.Bool.{Bool, true, false, ◌&&◌, ◌||◌}
use mathlib.Core.Option.{Option, none, some}
use mathlib.Core.List.{List, [], ◌∷◌}
use trelyan_falcon_inscripti.Prelude.Tests.{leb, ◌==◌, if◌then◌else◌}
use trelyan_falcon_inscripti.Prelude.Bytes.{Bytes, bytes_eq}

abbrev pub is_one_of_chars : List ℕ → ℕ → Bool
is_one_of_chars [] c = false
is_one_of_chars (d ∷ ds) c = c == d || is_one_of_chars ds c

-- `c.isspace()`
abbrev pub is_space : ℕ → Bool
is_space c =
    (leb 9 c && leb c 13)
    || ((leb 28 c && leb c 32)
        || ((leb 8192 c && leb c 8202)
            || is_one_of_chars (133 ∷ 160 ∷ 5760 ∷ 8232 ∷ 8233 ∷ 8239 ∷ 8287 ∷ 12288 ∷ []) c))

unfoldable pub lstrip : Bytes → Bytes
lstrip [] = []
lstrip (c ∷ s) = if is_space c then lstrip s else c ∷ s

unfoldable pub rstrip : Bytes → Bytes
rstrip [] = []
rstrip (c ∷ s) = elim (rstrip s) [
  | [] ↦ if is_space c then [] else c ∷ []
  | d ∷ rest ↦ c ∷ d ∷ rest
]

unfoldable pub strip : Bytes → Bytes
unfolding lstrip rstrip
strip s = rstrip (lstrip s)

unfoldable pub lower : Bytes → Bytes
lower [] = []
lower (c ∷ s) = (if leb 65 c && leb c 90 then c + 32 else c) ∷ lower s

abbrev pub is_digit : ℕ → Bool
is_digit c = leb 48 c && leb c 57

unfoldable pub all_digits : Bytes → Bool
all_digits [] = true
all_digits (c ∷ s) = is_digit c && all_digits s

-- `s.isdigit()`, which is False on the empty text
abbrev pub isdigit : Bytes → Bool
isdigit [] = false
isdigit (c ∷ s) = all_digits (c ∷ s)

-- `s in names`
unfoldable pub is_one_of : List Bytes → Bytes → Bool
is_one_of [] s = false
is_one_of (name ∷ names) s = bytes_eq s name || is_one_of names s

-- `text.startswith(prefix)`, and what follows the prefix
unfoldable pub after_prefix : Bytes → Bytes → Option Bytes
after_prefix [] s = some s
after_prefix (c ∷ prefix) [] = none
after_prefix (c ∷ prefix) (d ∷ s) = if c == d then after_prefix prefix s else none

-- The characters at which `splitlines` ends a line, but for the pair of a carriage return and a line feed.
abbrev pub is_line_end : ℕ → Bool
is_line_end c =
    (leb 10 c && leb c 13) || ((leb 28 c && leb c 30) || is_one_of_chars (133 ∷ 8232 ∷ 8233 ∷ []) c)

abbrev pub starts_with_lf : Bytes → Bool
starts_with_lf [] = false
starts_with_lf (c ∷ s) = c == 10

-- A character in front of the lines of the text behind it.
abbrev pub onto_first : ℕ → List Bytes → List Bytes
onto_first c [] = (c ∷ []) ∷ []
onto_first c (line ∷ lines) = (c ∷ line) ∷ lines

-- `text.splitlines()`
unfoldable pub splitlines : Bytes → List Bytes
splitlines [] = []
splitlines (c ∷ s) =
    let rest = splitlines s in
    if is_line_end c
    then (if c == 13 && starts_with_lf s then rest else [] ∷ rest)
    else (onto_first c rest)
