-- ===== src/Dict/Laws.antt =====
-- Laws of `Dict`.
use chatxz.Prelude.{
  false, ◌||◌, none, some, [], ◌∷◌, ◌≡◌, refl, arith, Str, str_eq, str_eq_iff, if◌then◌else◌,
}
use chatxz.Dict.{Dict, get, has_key, pop, put, IsDistinct}

module _ {ℓ} {V : Type ℓ} where
  pub get-pop : (k j : Str) (d : Dict V) → get j (pop k d) ≡ (if str_eq k j then none else get j d)
  unfolding get pop
  get-pop k j [] = ground arith
  get-pop k j ((i, v) ∷ d) =
      ground (arith, get-pop k j d, str_eq_iff i k, str_eq_iff i j, str_eq_iff k j)

  pub get-put :
      (k j : Str) (v : V) (d : Dict V)
      → get j (put k v d) ≡ (if str_eq k j then some v else get j d)
  unfolding get put
  get-put k j v [] = refl
  get-put k j v ((i, w) ∷ d) =
      ground (arith, get-put k j v d, str_eq_iff i k, str_eq_iff i j, str_eq_iff k j)

  pub has_key-pop :
      (k j : Str) (d : Dict V) → has_key j (pop k d) ≡ (if str_eq k j then false else has_key j d)
  unfolding has_key pop
  has_key-pop k j [] = ground arith
  has_key-pop k j ((i, v) ∷ d) =
      ground (arith, has_key-pop k j d, str_eq_iff i k, str_eq_iff i j, str_eq_iff k j)

  pub has_key-put :
      (k j : Str) (v : V) (d : Dict V) → has_key j (put k v d) ≡ str_eq k j || has_key j d
  unfolding has_key put
  has_key-put k j v [] = ground arith
  has_key-put k j v ((i, w) ∷ d) =
      ground (arith, has_key-put k j v d, str_eq_iff i k, str_eq_iff i j, str_eq_iff k j)

  -- Membership is the same question as a look-up.
  pub get_of_absent : (k : Str) (d : Dict V) → has_key k d ≡ false → get k d ≡ none
  unfolding has_key get
  get_of_absent k [] h = refl
  get_of_absent k ((i, v) ∷ d) h = ground (arith, get_of_absent k d)

  pub pop_absent : (k : Str) (d : Dict V) → has_key k d ≡ false → pop k d ≡ d
  unfolding has_key pop
  pop_absent k [] h = refl
  pop_absent k ((i, v) ∷ d) h = ground (arith, pop_absent k d)

  pub pop-IsDistinct : (k : Str) (d : Dict V) → IsDistinct d → IsDistinct (pop k d)
  unfolding pop
  pop-IsDistinct k [] h = tt
  pop-IsDistinct k ((i, v) ∷ d) h =
      ground (arith, pop-IsDistinct k d h.1, has_key-pop k i d, str_eq_iff i k)

  pub put-IsDistinct : (k : Str) (v : V) (d : Dict V) → IsDistinct d → IsDistinct (put k v d)
  unfolding put has_key
  put-IsDistinct k v [] h = (refl, tt)
  put-IsDistinct k v ((i, w) ∷ d) h =
      ground (arith, put-IsDistinct k v d h.1, has_key-put k i v d, str_eq_iff i k, str_eq_iff k i)
