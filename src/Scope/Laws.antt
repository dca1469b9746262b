-- ===== src/Scope/Laws.antt =====
-- Laws of chatxz/utils/lan_scope.py.
use chatxz.Prelude.{
  ◌≡◌, refl, ◌∙◌, ◌⊎◌, inl, inr, Bool, true, ◌&&◌, Option, none, some, arith, Option-cases, Str,
  str_eq, split, str_eq_iff,
}
use chatxz.Prelude.Int.{ℤ, pos, parse_int}
use chatxz.Scope.{Quad, quad, private_pair, private_octets, same_quads, same_lan_scope}

private_pair_sym : (a b c d : ℤ) → private_pair a b c d ≡ private_pair c d a b
private_pair_sym a b c d = ground arith

private_octets_sym :
    (a0 a1 b0 b1 : Option ℤ) → private_octets a0 a1 b0 b1 ≡ private_octets b0 b1 a0 a1
private_octets_sym none _ none _ = ground arith
private_octets_sym none _ (some c) _ = ground arith
private_octets_sym (some a) none none _ = ground arith
private_octets_sym (some a) none (some c) _ = ground arith
private_octets_sym (some a) (some b) none _ = ground arith
private_octets_sym (some a) (some b) (some c) none = refl
private_octets_sym (some a) (some b) (some c) (some d) = private_pair_sym a b c d

private_octets_trans :
    (a0 a1 b0 b1 c0 c1 : Option ℤ)
    → private_octets a0 a1 b0 b1 ≡ true
    → private_octets b0 b1 c0 c1 ≡ true
    → private_octets a0 a1 c0 c1 ≡ true
private_octets_trans a0 a1 b0 b1 c0 c1 h k = ground arith

same_quads_sym : (a b : Quad) → same_quads a b ≡ same_quads b a
unfolding same_quads
same_quads_sym a b = ground (
  arith,
  str_eq_iff a.o0 b.o0,
  str_eq_iff b.o0 a.o0,
  str_eq_iff a.o1 b.o1,
  str_eq_iff b.o1 a.o1,
  str_eq_iff a.o2 b.o2,
  str_eq_iff b.o2 a.o2,
  private_octets_sym (parse_int a.o0) (parse_int a.o1) (parse_int b.o0) (parse_int b.o1),
)

abbrev SamePrefix : Quad → Quad → Type 0
SamePrefix a b = (a.o0 ≡ b.o0) × (a.o1 ≡ b.o1) × (a.o2 ≡ b.o2)

abbrev octets : Quad → Quad → Bool
octets a b = private_octets (parse_int a.o0) (parse_int a.o1) (parse_int b.o0) (parse_int b.o1)

same_quads_cases : (a b : Quad) → same_quads a b ≡ true → SamePrefix a b ⊎ (octets a b ≡ true)
unfolding same_quads
same_quads_cases a b h =
    ground (arith, str_eq_iff a.o0 b.o0, str_eq_iff a.o1 b.o1, str_eq_iff a.o2 b.o2)

of_prefix : (a b : Quad) → SamePrefix a b → same_quads a b ≡ true
unfolding same_quads
of_prefix a b h = ground (arith, str_eq_iff a.o0 b.o0, str_eq_iff a.o1 b.o1, str_eq_iff a.o2 b.o2)

of_octets : (a b : Quad) → octets a b ≡ true → same_quads a b ≡ true
unfolding same_quads
of_octets a b h = ground arith

same_quads_trans :
    (a b c : Quad) → same_quads a b ≡ true → same_quads b c ≡ true → same_quads a c ≡ true
same_quads_trans a b c h k = elim (same_quads_cases a b h) [
  | inl p ↦ elim (same_quads_cases b c k) [
    | inl q ↦ of_prefix a c (p.0 ∙ q.0, p.1 ∙ q.1, p.2 ∙ q.2)
    | inr q ↦ of_octets a c (cc (p.0, p.1, q))
  ]
  | inr p ↦ elim (same_quads_cases b c k) [
    | inl q ↦ of_octets a c (cc (q.0, q.1, p))
    | inr q ↦ of_octets a c (
        private_octets_trans (parse_int a.o0) (parse_int a.o1) (parse_int b.o0) (parse_int b.o1)
          (parse_int c.o0) (parse_int c.o1) p q)
  ]
]

-- Scope is symmetric, whatever the two texts are.
pub same_lan_scope_sym : (a b : Str) → same_lan_scope a b ≡ same_lan_scope b a
unfolding same_lan_scope
same_lan_scope_sym a b = elim (Option-cases (quad (split 46 a))) [
  | inl e ↦ ground arith
  | inr (q, e) ↦ elim (Option-cases (quad (split 46 b))) [
    | inl f ↦ ground arith
    | inr (r, f) ↦ ground (arith, same_quads_sym q r)
  ]
]

-- Two addresses that are in the scope of a third are in the scope of each other, also where one
-- pair shares a /24 and the other a private range.
pub same_lan_scope_trans :
    (a b c : Str)
    → same_lan_scope a b ≡ true
    → same_lan_scope b c ≡ true
    → same_lan_scope a c ≡ true
unfolding same_lan_scope
same_lan_scope_trans a b c h k = elim (Option-cases (quad (split 46 a))) [
  | inl e ↦ ground arith
  | inr (q, e) ↦ elim (Option-cases (quad (split 46 b))) [
    | inl f ↦ ground arith
    | inr (r, f) ↦ elim (Option-cases (quad (split 46 c))) [
      | inl g ↦ ground arith
      | inr (s, g) ↦ ground (arith, same_quads_trans q r s)
    ]
  ]
]

-- Two addresses of four parts whose first part is 10 are in one scope exactly if they share the first
-- three parts: 10.0.0.0/8 is not one network.
pub same_quads_ten :
    (a b : Quad)
    → parse_int a.o0 ≡ some (pos 10)
    → same_quads a b ≡ str_eq a.o0 b.o0 && (str_eq a.o1 b.o1 && str_eq a.o2 b.o2)
unfolding same_quads
same_quads_ten a b ten = ground arith
