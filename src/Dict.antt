-- ===== src/Dict.antt =====
-- Python's `dict` with text or bytes as keys, as its list of items in insertion order.
pub mod Laws
pub mod Sweep
pub mod Items
use chatxz.Prelude.{
  ℕ, suc, ◌+◌, Bool, false, ◌||◌, Option, none, some, List, [], ◌∷◌, ◌≡◌, Str, str_eq,
  if◌then◌else◌,
}

abbrev pub Dict {ℓ} : Type ℓ → Type ℓ
Dict V = List (Str × V)

module _ {ℓ} {V : Type ℓ} where
  -- `d.get(k)`
  unfoldable pub get : Str → Dict V → Option V
  get k [] = none
  get k ((j, v) ∷ d) = if str_eq j k then some v else get k d

  -- `k in d`
  unfoldable pub has_key : Str → Dict V → Bool
  has_key k [] = false
  has_key k ((j, v) ∷ d) = str_eq j k || has_key k d

  -- `d.pop(k, None)`
  unfoldable pub pop : Str → Dict V → Dict V
  pop k [] = []
  pop k ((j, v) ∷ d) = let rest = pop k d in if str_eq j k then rest else (j, v) ∷ rest

  -- `d[k] = v`: an old key keeps its place, a new one comes last.
  unfoldable pub put : Str → V → Dict V → Dict V
  put k v [] = (k, v) ∷ []
  put k v ((j, w) ∷ d) = let rest = put k v d in if str_eq j k then (j, v) ∷ d else (j, w) ∷ rest

  -- What every dict has: no key twice.
  abbrev pub IsDistinct : Dict V → Type 0
  IsDistinct [] = Unit
  IsDistinct ((k, v) ∷ d) = (has_key k d ≡ false) × IsDistinct d

  -- `for k, v in list(d.items()): if doomed(k, v): d.pop(k, None); removed += 1`
  unfoldable pub sweep : (Str → V → Bool) → Dict V → Dict V → ℕ → Dict V × ℕ
  sweep doomed [] d n = (d, n)
  sweep doomed ((k, v) ∷ items) d n =
      sweep doomed items (if doomed k v then pop k d else d) (if doomed k v then n + 1 else n)

  -- The items that a sweep leaves, and how many it takes away.
  unfoldable pub survivors : (Str → V → Bool) → Dict V → Dict V
  survivors doomed [] = []
  survivors doomed ((k, v) ∷ d) =
      let rest = survivors doomed d in if doomed k v then rest else (k, v) ∷ rest

  unfoldable pub casualties : (Str → V → Bool) → Dict V → ℕ
  casualties doomed [] = 0
  casualties doomed ((k, v) ∷ d) =
      let rest = casualties doomed d in if doomed k v then suc rest else rest
