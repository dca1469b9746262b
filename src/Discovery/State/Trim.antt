-- ===== src/Discovery/State/Trim.antt =====
-- The keys of the table in chatxz/core/discovery.py, and blanks around them.
use chatxz.Prelude.{
  ℕ, ◌≡◌, refl, inl, inr, true, false, Option, [], ◌∷◌, ◌++◌, Bool-cases, Str, codes, str_eq,
  truthy, or_empty, or_else, str_mem, without, is_space, lstrip, rstrip, strip, lower,
  lstrip-rstrip, rstrip-rstrip, lstrip-lower, rstrip-lower,
}
use chatxz.Discovery.State.{normalize_hash, raw_via, via_part, storage_key}

-- No blank comes first.
abbrev IsBare : Str → Type 0
IsBare [] = Unit
IsBare (c ∷ s) = is_space c ≡ false

lstrip-IsBare : (s : Str) → IsBare (lstrip s)
unfolding lstrip
lstrip-IsBare [] = tt
lstrip-IsBare (c ∷ s) = elim (Bool-cases (is_space c)) [
  | inl e ↦ rw (e, lstrip) (lstrip-IsBare s)
  | inr e ↦ rw (e, lstrip) e
]

lstrip_bare : (s : Str) → IsBare s → lstrip s ≡ s
unfolding lstrip
lstrip_bare [] h = refl
lstrip_bare (c ∷ s) h = rw (h, lstrip) refl

append-IsBare : (s t : Str) → truthy s ≡ true → IsBare s → IsBare (s ++ t)
append-IsBare [] t e h = cc
append-IsBare (c ∷ s) t e h = h

truthy-append : (s t : Str) → truthy t ≡ true → truthy (s ++ t) ≡ true
truthy-append [] t e = e
truthy-append (c ∷ s) t e = refl

rstrip_longer : (c : ℕ) (s : Str) → truthy s ≡ true → rstrip s ≡ s → rstrip (c ∷ s) ≡ c ∷ s
unfolding rstrip
rstrip_longer c [] e h = cc
rstrip_longer c (d ∷ s) e h = rw (h, rstrip) refl

rstrip-append : (s t : Str) → truthy t ≡ true → rstrip t ≡ t → rstrip (s ++ t) ≡ s ++ t
rstrip-append [] t e h = h
rstrip-append (c ∷ s) t e h = rstrip_longer c (s ++ t) (truthy-append s t e) (rstrip-append s t e h)

normalize_hash-IsBare : (h : Option Str) → IsBare (normalize_hash h)
unfolding normalize_hash strip
normalize_hash-IsBare h =
    let x = without 58 (without 62 (without 60 (or_empty h))) in
    let e : lower (rstrip (lstrip x)) ≡ lstrip (lower (rstrip x)) =
      cc (lstrip-rstrip x, lstrip-lower (rstrip x)) in
    rw e (lstrip-IsBare (lower (rstrip x)))

raw_via_trimmed : (via : Option Str) → rstrip (raw_via via) ≡ raw_via via
unfolding strip
raw_via_trimmed via =
    let y = lstrip (or_else (or_empty via) (codes "lan")) in
    cc (rstrip-lower (rstrip y), rstrip-rstrip y)

-- The names that a key may end in.
known_trimmed : (rstrip (codes "serial") ≡ codes "serial") × (rstrip (codes "lan") ≡ codes "lan")
unfolding rstrip is_space
known_trimmed = (refl, refl)

empty_is_lan : str_mem [] (codes "rns" ∷ codes "beacon" ∷ codes "lan" ∷ [] ∷ []) ≡ true
unfolding str_mem str_eq
empty_is_lan = refl

not_empty :
    (s : Str)
    → str_mem s (codes "rns" ∷ codes "beacon" ∷ codes "lan" ∷ [] ∷ []) ≡ false
    → truthy s ≡ true
not_empty [] m = cc (m, empty_is_lan)
not_empty (c ∷ s) m = refl

via_part_trimmed :
    (via : Option Str) → (rstrip (via_part via) ≡ via_part via) × (truthy (via_part via) ≡ true)
unfolding via_part
via_part_trimmed via = elim (Bool-cases (str_eq (raw_via via) (codes "serial"))) [
  | inl e ↦ rw (e, via_part) (known_trimmed.0, refl)
  | inr e ↦
      elim (Bool-cases
        (str_mem (raw_via via) (codes "rns" ∷ codes "beacon" ∷ codes "lan" ∷ [] ∷ []))) [
          | inl m ↦ rw (e, m, via_part) (known_trimmed.1, refl)
          | inr m ↦ rw (e, m, via_part) (raw_via_trimmed via, not_empty (raw_via via) m)
        ]
]

-- A key that is not empty is its own stripped form.
pub strip-storage_key :
    (hash via : Option Str)
    → truthy (normalize_hash hash) ≡ true
    → strip (storage_key hash via) ≡ storage_key hash via
unfolding storage_key strip
strip-storage_key hash via real =
    let h = normalize_hash hash in
    let v = via_part_trimmed via in
    let bare = append-IsBare h (58 ∷ via_part via) real (normalize_hash-IsBare hash) in
    rw (real, lstrip_bare (h ++ 58 ∷ via_part via) bare)
      (rstrip-append h (58 ∷ via_part via) refl (rstrip_longer 58 (via_part via) v.1 v.0))
