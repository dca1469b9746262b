-- ===== src/Prelude/StripLaws.antt =====
-- Stripping, lowering and dropping a character, in any order and as often as one likes.
use Prim.Native.Nat.{ℕ}
use mathlib.Core.Path.{◌≡◌, refl}
use mathlib.Core.Bool.{false, ◌&&◌}
use mathlib.Core.List.{[], ◌∷◌}
use native.Mathlib.Omega.{arith}
use chatxz.Prelude.Tests.{leb, ◌==◌, Bool-cases, if◌then◌else◌}
use mathlib.Core.Logic.{inl, inr}
use chatxz.Prelude.Lists.{All}
use chatxz.Prelude.Text.{Str, without, is_space, lstrip, rstrip, strip, lower_code, lower}
use chatxz.Prelude.TextLaws.{lower-lower}

pub lstrip-rstrip : (s : Str) → lstrip (rstrip s) ≡ rstrip (lstrip s)
unfolding lstrip rstrip
lstrip-rstrip [] = refl
lstrip-rstrip (c ∷ s) = ground (arith, lstrip-rstrip s)

lstrip-lstrip : (s : Str) → lstrip (lstrip s) ≡ lstrip s
unfolding lstrip
lstrip-lstrip [] = refl
lstrip-lstrip (c ∷ s) = ground (arith, lstrip-lstrip s)

pub rstrip-rstrip : (s : Str) → rstrip (rstrip s) ≡ rstrip s
unfolding rstrip
rstrip-rstrip [] = refl
rstrip-rstrip (c ∷ s) = ground (arith, rstrip-rstrip s)

-- Stripped text has nothing to strip.
pub strip-strip : (s : Str) → strip (strip s) ≡ strip s
unfolding strip
strip-strip s = cc (lstrip-rstrip (lstrip s), lstrip-lstrip s, rstrip-rstrip (lstrip s))

is_space-lower_code : (c : ℕ) → is_space (lower_code c) ≡ is_space c
unfolding is_space lower_code
is_space-lower_code c = ground arith

pub lstrip-lower : (s : Str) → lstrip (lower s) ≡ lower (lstrip s)
unfolding lstrip lower
lstrip-lower [] = refl
lstrip-lower (c ∷ s) = ground (arith, lstrip-lower s, is_space-lower_code c)

pub rstrip-lower : (s : Str) → rstrip (lower s) ≡ lower (rstrip s)
unfolding rstrip lower
rstrip-lower [] = refl
rstrip-lower (c ∷ s) = ground (arith, rstrip-lower s, is_space-lower_code c)

pub strip-lower : (s : Str) → strip (lower s) ≡ lower (strip s)
unfolding strip
strip-lower s = cc (lstrip-lower s, rstrip-lower (lstrip s))

-- A text that does not hold the character.
abbrev pub Lacks : ℕ → Str → Type 0
Lacks c = All (λ d. (d == c) ≡ false)

without_lacking : (c : ℕ) (s : Str) → Lacks c s → without c s ≡ s
unfolding without
without_lacking c [] h = refl
without_lacking c (d ∷ s) h = ground (arith, without_lacking c s h.1)

pub without-Lacks : (c : ℕ) (s : Str) → Lacks c (without c s)
unfolding without
without-Lacks c [] = tt
without-Lacks c (d ∷ s) = elim (Bool-cases (d == c)) [
  | inl e ↦ rw e (without-Lacks c s)
  | inr e ↦ rw e (e, without-Lacks c s)
]

lstrip-Lacks : (c : ℕ) (s : Str) → Lacks c s → Lacks c (lstrip s)
unfolding lstrip
lstrip-Lacks c [] h = tt
lstrip-Lacks c (d ∷ s) h = elim (Bool-cases (is_space d)) [
  | inl e ↦ rw e (lstrip-Lacks c s h.1)
  | inr e ↦ rw e h
]

rstrip_step-Lacks :
    (c d : ℕ) (t : Str)
    → (d == c) ≡ false
    → Lacks c t
    → Lacks c (elim t as (λ x. Str) [ [] ↦ if is_space d then [] else d ∷ [] | e ∷ r ↦ d ∷ e ∷ r ])
rstrip_step-Lacks c d [] hd ht = elim (Bool-cases (is_space d)) [
  | inl e ↦ rw e tt
  | inr e ↦ rw e (hd, tt)
]
rstrip_step-Lacks c d (e ∷ r) hd ht = (hd, ht)

rstrip-Lacks : (c : ℕ) (s : Str) → Lacks c s → Lacks c (rstrip s)
unfolding rstrip
rstrip-Lacks c [] h = tt
rstrip-Lacks c (d ∷ s) h = rstrip_step-Lacks c d (rstrip s) h.0 (rstrip-Lacks c s h.1)

-- Only a lower-case letter comes out of lowering another character.
lower_code-Lacks :
    (c d : ℕ) → (leb 97 c && leb c 122) ≡ false → (d == c) ≡ false → (lower_code d == c) ≡ false
unfolding lower_code
lower_code-Lacks c d sign h = ground arith

lower-Lacks : (c : ℕ) (s : Str) → (leb 97 c && leb c 122) ≡ false → Lacks c s → Lacks c (lower s)
unfolding lower
lower-Lacks c [] sign h = tt
lower-Lacks c (d ∷ s) sign h = (lower_code-Lacks c d sign h.0, lower-Lacks c s sign h.1)

without-keeps-Lacks : (c e : ℕ) (s : Str) → Lacks c s → Lacks c (without e s)
unfolding without
without-keeps-Lacks c e [] h = tt
without-keeps-Lacks c e (d ∷ s) h = elim (Bool-cases (d == e)) [
  | inl same ↦ rw same (without-keeps-Lacks c e s h.1)
  | inr other ↦ rw other (h.0, without-keeps-Lacks c e s h.1)
]

-- Text that is stripped and lowered holds a sign only if it did before.
pub folded-Lacks :
    (c : ℕ) (s : Str) → (leb 97 c && leb c 122) ≡ false → Lacks c s → Lacks c (lower (strip s))
unfolding strip
folded-Lacks c s sign h =
    lower-Lacks c (rstrip (lstrip s)) sign (rstrip-Lacks c (lstrip s) (lstrip-Lacks c s h))

folded_twice : (s : Str) → lower (strip (lower (strip s))) ≡ lower (strip s)
folded_twice s = cc (strip-lower (strip s), strip-strip s, lower-lower (strip s))

-- The normal form of a hash is its own normal form.
pub normalize_twice :
    (s : Str)
    → lower (strip (without 58 (lower (strip (without 58 s))))) ≡ lower (strip (without 58 s))
normalize_twice s =
    let t = without 58 s in
    let lacks = folded-Lacks 58 t refl (without-Lacks 58 s) in
    cc (without_lacking 58 (lower (strip t)) lacks, folded_twice t)

-- So is that of a hash that is printed with brackets.
pub normalize_printed_twice :
    (s : Str)
    → (let n = lower (strip (without 58 (without 62 (without 60 s)))) in
        lower (strip (without 58 (without 62 (without 60 n)))) ≡ n)
normalize_printed_twice s =
    let t = without 58 (without 62 (without 60 s)) in
    let n = lower (strip t) in
    let open_bracket = folded-Lacks 60 t refl (
      without-keeps-Lacks 60 58 (without 62 (without 60 s))
        (without-keeps-Lacks 60 62 (without 60 s) (without-Lacks 60 s))) in
    let close_bracket =
      folded-Lacks 62 t refl
        (without-keeps-Lacks 62 58 (without 62 (without 60 s)) (without-Lacks 62 (without 60 s))) in
    let colon = folded-Lacks 58 t refl (without-Lacks 58 (without 62 (without 60 s))) in
    cc (
      without_lacking 60 n open_bracket,
      without_lacking 62 n close_bracket,
      without_lacking 58 n colon,
      folded_twice t,
    )
