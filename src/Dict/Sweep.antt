-- ===== src/Dict/Sweep.antt =====
-- The loop that pops items of a dict while it walks a copy of its items.
use mathlib.Core.List.{append_assoc}
use chatxz.Prelude.{
  ℕ, ◌+◌, Bool, false, ◌||◌, Option, none, some, [], ◌∷◌, ◌++◌, ◌≡◌, refl, ◌∙◌, inl, inr, arith,
  Str, str_eq_iff, if◌then◌else◌, length, Bool-cases,
}
use chatxz.Dict.{Dict, get, has_key, pop, IsDistinct, sweep, survivors, casualties}
use chatxz.Dict.Laws.{pop_absent, get_of_absent}

module _ {ℓ} {V : Type ℓ} where
  -- No key of `items` stands in `front`.
  abbrev IsApart : Dict V → Dict V → Type 0
  IsApart front [] = Unit
  IsApart front ((k, v) ∷ items) = (has_key k front ≡ false) × IsApart front items

  has_key-append : (k : Str) (a b : Dict V) → has_key k (a ++ b) ≡ has_key k a || has_key k b
  unfolding has_key
  has_key-append k [] b = refl
  has_key-append k ((j, v) ∷ a) b = ground (arith, has_key-append k a b)

  pop-append : (k : Str) (a b : Dict V) → pop k (a ++ b) ≡ pop k a ++ pop k b
  unfolding pop
  pop-append k [] b = refl
  pop-append k ((j, v) ∷ a) b = ground (arith, pop-append k a b)

  pop_middle :
      (k : Str) (v : V) (front items : Dict V)
      → has_key k front ≡ false
      → has_key k items ≡ false
      → pop k (front ++ (k, v) ∷ items) ≡ front ++ items
  unfolding pop
  pop_middle k v front items hf hi = ground (
    arith,
    pop-append k front ((k, v) ∷ items),
    pop_absent k front hf,
    pop_absent k items hi,
    str_eq_iff k k,
  )

  IsApart-snoc :
      (k : Str) (v : V) (front items : Dict V)
      → has_key k items ≡ false
      → IsApart front items
      → IsApart (front ++ (k, v) ∷ []) items
  unfolding has_key
  IsApart-snoc k v front [] h a = tt
  IsApart-snoc k v front ((j, w) ∷ items) h a = ground (
    arith,
    IsApart-snoc k v front items,
    has_key-append j front ((k, v) ∷ []),
    str_eq_iff k j,
    str_eq_iff j k,
  )

  module _ (doomed : Str → V → Bool) where
    sweep_from :
        (front items : Dict V) (n : ℕ)
        → IsApart front items
        → IsDistinct items
        → sweep doomed items (front ++ items) n
          ≡ (front ++ survivors doomed items, n + casualties doomed items)
    unfolding sweep survivors casualties
    sweep_from front [] n a d = ground arith
    sweep_from front ((k, v) ∷ items) n a d = elim (Bool-cases (doomed k v)) [
      | inl e ↦
          rw (e, pop_middle k v front items a.0 d.0)
            (sweep_from front items (n + 1) a.1 d.1 ∙ ground arith)
      | inr e ↦
          rw (e, ← append_assoc front ((k, v) ∷ []) items)
            (sweep_from (front ++ (k, v) ∷ []) items n (IsApart-snoc k v front items d.0 a.1) d.1
              ∙ rw append_assoc refl)
    ]

    IsApart-nil : (items : Dict V) → IsApart [] items
    unfolding has_key
    IsApart-nil [] = tt
    IsApart-nil ((k, v) ∷ items) = (refl, IsApart-nil items)

    pub sweep_lem :
        (d : Dict V) → IsDistinct d → sweep doomed d d 0 ≡ (survivors doomed d, casualties doomed d)
    sweep_lem d h = sweep_from [] d 0 (IsApart-nil d) h ∙ ground arith

    has_key-survivors :
        (k : Str) (d : Dict V) → has_key k d ≡ false → has_key k (survivors doomed d) ≡ false
    unfolding has_key survivors
    has_key-survivors k [] h = refl
    has_key-survivors k ((j, v) ∷ d) h = ground (arith, has_key-survivors k d)

    pub survivors-IsDistinct : (d : Dict V) → IsDistinct d → IsDistinct (survivors doomed d)
    unfolding survivors
    survivors-IsDistinct [] h = tt
    survivors-IsDistinct ((k, v) ∷ d) h =
        ground (arith, survivors-IsDistinct d h.1, has_key-survivors k d h.0)

    -- A key's item survives exactly if it is spared.
    abbrev pub spared : Str → Option V → Option V
    spared k none = none
    spared k (some v) = if doomed k v then none else some v

    pub get-survivors :
        (k : Str) (d : Dict V) → IsDistinct d → get k (survivors doomed d) ≡ spared k (get k d)
    unfolding get survivors
    get-survivors k [] h = refl
    get-survivors k ((j, v) ∷ d) h =
        ground (arith, get-survivors k d h.1, str_eq_iff j k, get_of_absent j d h.0)

    pub casualties_lem : (d : Dict V) → length (survivors doomed d) + casualties doomed d ≡ length d
    unfolding survivors casualties
    casualties_lem [] = omega arith
    casualties_lem ((k, v) ∷ d) = ground (arith, casualties_lem d)
