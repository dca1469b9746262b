-- ===== src/Prelude/Text.antt =====
-- Python text as a list of code points, with the `str` methods that the source calls. White space
-- and letter case are those of ASCII.
use Prim.Native.Nat.{ℕ, ◌+◌}
use Prim.Native.Char.{code}
use Prim.Native.String.{String}
use mathlib.Core.Bool.{Bool, true, false, not, ◌&&◌, ◌||◌}
use mathlib.Core.List.{List, [], ◌∷◌, ◌++◌, map}
use mathlib.Core.Option.{Option, none, some}
use chatxz.Prelude.Tests.{leb, ◌==◌, if◌then◌else◌}
use chatxz.Prelude.Lists.{keep}

abbrev pub Str : Type 0
Str = List ℕ

-- The text of a literal.
abbrev pub codes : String → Str
codes String.[] = []
codes (String.◌∷◌ c s) = code c ∷ codes s

unfoldable pub str_eq : Str → Str → Bool
str_eq [] [] = true
str_eq [] (y ∷ ys) = false
str_eq (x ∷ xs) [] = false
str_eq (x ∷ xs) (y ∷ ys) = (x == y) && str_eq xs ys

-- `bool(s)`
abbrev pub truthy : Str → Bool
truthy [] = false
truthy (c ∷ s) = true

-- `value or ""`
abbrev pub or_empty : Option Str → Str
or_empty none = []
or_empty (some s) = s

-- `a or b`
abbrev pub or_else : Str → Str → Str
or_else [] t = t
or_else (c ∷ s) t = c ∷ s

unfoldable pub str_mem : Str → List Str → Bool
str_mem s [] = false
str_mem s (t ∷ ts) = str_eq s t || str_mem s ts

unfoldable pub starts_with : Str → Str → Bool
starts_with s [] = true
starts_with [] (p ∷ ps) = false
starts_with (c ∷ s) (p ∷ ps) = (c == p) && starts_with s ps

-- `part in s`
unfoldable pub contains : Str → Str → Bool
contains [] part = starts_with [] part
contains (c ∷ s) part = starts_with (c ∷ s) part || contains s part

-- `s.replace(c, "")` for a single character
unfoldable pub without : ℕ → Str → Str
unfolding keep
without c = keep (λ d. not (d == c))

unfoldable pub is_space : ℕ → Bool
is_space c = (leb 9 c && leb c 13) || ((leb 28 c && leb c 32))

unfoldable pub lstrip : Str → Str
unfolding is_space
lstrip [] = []
lstrip (c ∷ s) = let rest = lstrip s in if is_space c then rest else c ∷ s

-- drops the trailing white space
unfoldable pub rstrip : Str → Str
unfolding is_space
rstrip [] = []
rstrip (c ∷ s) = elim (rstrip s) [ [] ↦ if is_space c then [] else c ∷ [] | d ∷ r ↦ c ∷ d ∷ r ]

unfoldable pub strip : Str → Str
unfolding lstrip rstrip
strip s = rstrip (lstrip s)

unfoldable pub lower_code : ℕ → ℕ
lower_code c = if leb 65 c && leb c 90 then c + 32 else c

unfoldable pub lower : Str → Str
unfolding lower_code
lower = map lower_code

-- `s.split(sep)` for a single character: never empty.
unfoldable pub split_on : ℕ → Str → Str → List Str
split_on sep piece [] = piece ∷ []
split_on sep piece (c ∷ s) =
    let cut = split_on sep [] s in
    let more = split_on sep (piece ++ c ∷ []) s in if c == sep then piece ∷ cut else more

unfoldable pub split : ℕ → Str → List Str
unfolding split_on
split sep = split_on sep []
