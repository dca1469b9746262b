-- ===== src/Prelude/Int.antt =====
-- Python's `int(text)` and `sorted(texts)`.
use Prim.Native.Nat.{ℕ, ◌+◌, ◌-◌, ◌*◌}
use mathlib.Core.Path.{◌≡◌, refl}
use mathlib.Core.Bool.{Bool, true, false, not, ◌&&◌, ◌||◌}
use mathlib.Core.Option.{Option, none, some}
use mathlib.Core.List.{List, [], ◌∷◌}
use chatxz.Prelude.Tests.{leb, ltb, ◌==◌, if◌then◌else◌}
use chatxz.Prelude.Text.{Str, strip}

-- `negsuc n` is -(n + 1).
pub data ℤ : Type 0 where
  pos : ℕ → ℤ
  negsuc : ℕ → ℤ

abbrev pub negate : ℕ → ℤ
negate n = if n == 0 then pos 0 else negsuc (n - 1)

abbrev is_digit : ℕ → Bool
is_digit c = leb 48 c && leb c 57

-- Digits with single underscores between them; `expects` says that a digit has to follow.
digits : ℕ → Bool → Str → Option ℕ
digits n true [] = none
digits n false [] = some n
digits n expects (c ∷ s) =
    let next =
      digits (if is_digit c then 10 * n + (c - 48) else n) (if is_digit c then false else true) s in
    if is_digit c then next else if c == 95 && not expects then next else none

signed : Str → Option ℤ
signed [] = none
signed (c ∷ s) =
    if c == 45
    then elim (digits 0 true s) [ none ↦ none | some n ↦ some (negate n) ]
    else if c == 43
    then elim (digits 0 true s) [ none ↦ none | some n ↦ some (pos n) ]
    else elim (digits 0 true (c ∷ s)) [ none ↦ none | some n ↦ some (pos n) ]

-- `int(s)`; `none` is the ValueError.
unfoldable pub parse_int : Str → Option ℤ
unfolding signed digits
parse_int s = signed (strip s)

abbrev pub is_pos : ℕ → ℤ → Bool
is_pos n (pos m) = m == n
is_pos n (negsuc m) = false

-- `low <= n <= high`
abbrev pub is_between : ℕ → ℕ → ℤ → Bool
is_between low high (pos m) = leb low m && leb m high
is_between low high (negsuc m) = false

-- `a <= b` of texts
unfoldable pub str_le : Str → Str → Bool
str_le [] t = true
str_le (c ∷ s) [] = false
str_le (c ∷ s) (d ∷ t) = ltb c d || ((c == d) && str_le s t)

unfoldable pub insert_sorted : Str → List Str → List Str
insert_sorted s [] = s ∷ []
insert_sorted s (t ∷ ts) =
    let rest = insert_sorted s ts in if str_le s t then s ∷ t ∷ ts else t ∷ rest

unfoldable pub sorted : List Str → List Str
unfolding insert_sorted
sorted [] = []
sorted (s ∷ ss) = insert_sorted s (sorted ss)

int_examples :
    (parse_int (50 ∷ 95 ∷ 53 ∷ []) ≡ some (pos 25))
    × (parse_int (95 ∷ 53 ∷ []) ≡ none)
    × (parse_int (32 ∷ 45 ∷ 55 ∷ []) ≡ some (negsuc 6))
    × (parse_int (45 ∷ []) ≡ none)
unfolding parse_int strip
int_examples = (refl, refl, refl, refl)
