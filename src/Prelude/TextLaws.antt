-- ===== src/Prelude/TextLaws.antt =====
-- Laws of the text operations.
use Prim.Native.Nat.{ℕ}
use mathlib.Core.Path.{◌≡◌, refl}
use mathlib.Core.Logic.{◌↔◌}
use mathlib.Core.Bool.{Bool, true, not}
use mathlib.Core.List.{List, [], ◌∷◌}
use native.Mathlib.Omega.{arith}
use chatxz.Prelude.Tests.{◌==◌}
use chatxz.Prelude.Lists.{keep}
use chatxz.Prelude.Text.{Str, str_eq, starts_with, without, lower, lower_code}

str_eq→eq : (a b : Str) → str_eq a b ≡ true → a ≡ b
unfolding str_eq
str_eq→eq [] [] h = refl
str_eq→eq [] (y ∷ ys) h = cc
str_eq→eq (x ∷ xs) [] h = cc
str_eq→eq (x ∷ xs) (y ∷ ys) h = ground (arith, str_eq→eq xs ys)

pub str_eq_refl : (a : Str) → str_eq a a ≡ true
unfolding str_eq
str_eq_refl [] = refl
str_eq_refl (x ∷ xs) = ground (arith, str_eq_refl xs)

eq→str_eq : (a b : Str) → a ≡ b → str_eq a b ≡ true
eq→str_eq a b e = cc (str_eq_refl a)

pub str_eq_iff : (a b : Str) → (str_eq a b ≡ true) ↔ (a ≡ b)
str_eq_iff a b = (str_eq→eq a b, eq→str_eq a b)

pub keep-keep {ℓ} :
    {A : Type ℓ} (test : A → Bool) (xs : List A) → keep test (keep test xs) ≡ keep test xs
unfolding keep
keep-keep test [] = refl
keep-keep test (x ∷ xs) = ground (arith, keep-keep test xs)

-- Removing a character twice is removing it once.
pub without-without : (c : ℕ) (s : Str) → without c (without c s) ≡ without c s
unfolding without
without-without c s = keep-keep (λ d. not (d == c)) s

lower_code-lower_code : (c : ℕ) → lower_code (lower_code c) ≡ lower_code c
unfolding lower_code
lower_code-lower_code c = ground arith

pub lower-lower : (s : Str) → lower (lower s) ≡ lower s
unfolding lower
lower-lower [] = refl
lower-lower (c ∷ s) = cc (lower_code-lower_code c, lower-lower s)

pub starts_with_refl : (s : Str) → starts_with s s ≡ true
unfolding starts_with
starts_with_refl [] = refl
starts_with_refl (c ∷ s) = ground (arith, starts_with_refl s)
