-- ===== src/Dict/Items.antt =====
-- A property of all items of a dict.
use chatxz.Dict.{IsDistinct}
use chatxz.Dict.{has_key}
use chatxz.Dict.Laws.{get_of_absent}
use chatxz.Prelude.{
  ◌≡◌, refl, inl, inr, false, some, [], ◌∷◌, arith, Bool-cases, Str, str_eq, str_eq_refl,
  str_eq_iff,
}
use chatxz.Dict.{Dict, get, pop, put}

module _ {ℓ} {V : Type ℓ} where
  get-first : (k : Str) (v : V) (d : Dict V) → get k ((k, v) ∷ d) ≡ some v
  unfolding get
  get-first k v d = rw (str_eq_refl k) refl

  get-later :
      (k : Str) (v : V) (j : Str) (w : V) (d : Dict V)
      → has_key j d ≡ false
      → get k d ≡ some v
      → get k ((j, w) ∷ d) ≡ some v
  unfolding get
  get-later k v j w d h e = ground (arith, str_eq_iff j k, get_of_absent j d h)

module _ {ℓ κ} {V : Type ℓ} (P : Str → V → Type κ) where
  abbrev pub AllItems : Dict V → Type κ
  AllItems [] = Unit
  AllItems ((k, v) ∷ d) = P k v × AllItems d

  pub AllItems-pop : (k : Str) (d : Dict V) → AllItems d → AllItems (pop k d)
  unfolding pop
  AllItems-pop k [] h = tt
  AllItems-pop k ((j, v) ∷ d) h = elim (Bool-cases (str_eq j k)) [
    | inl e ↦ rw (e, pop) (AllItems-pop k d h.1)
    | inr e ↦ rw (e, pop) (h.0, AllItems-pop k d h.1)
  ]

  pub AllItems-put : (k : Str) (v : V) (d : Dict V) → P k v → AllItems d → AllItems (put k v d)
  unfolding put
  AllItems-put k v [] p h = (p, tt)
  AllItems-put k v ((j, w) ∷ d) p h = elim (Bool-cases (str_eq j k)) [
    | inl e ↦ rw (e, put) (rw ((str_eq_iff j k).0 e) p, h.1)
    | inr e ↦ rw (e, put) (h.0, AllItems-put k v d p h.1)
  ]

  pub AllItems-get : (k : Str) (v : V) (d : Dict V) → get k d ≡ some v → AllItems d → P k v
  unfolding get
  AllItems-get k v [] e h = cc
  AllItems-get k v ((j, w) ∷ d) e h = elim (Bool-cases (str_eq j k)) [
    | inl same ↦ ground (arith, str_eq_iff j k)
    | inr other ↦ AllItems-get k v d (ground arith) h.1
  ]

  -- What holds of every item that a look-up finds holds of all.
  pub AllItems-get_all :
      (d : Dict V) → IsDistinct d → ((k : Str) (v : V) → get k d ≡ some v → P k v) → AllItems d
  AllItems-get_all [] h f = tt
  AllItems-get_all ((j, w) ∷ d) h f =
      (f j w (get-first j w d), AllItems-get_all d h.1 (λ k v e. f k v (get-later k v j w d h.0 e)))
