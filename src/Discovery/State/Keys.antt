-- ===== src/Discovery/State/Keys.antt =====
-- The keys of the table in chatxz/core/discovery.py.
use chatxz.Prelude.{
  ◌≡◌, refl, ap, ◌∙◌, Bool, true, false, not, ◌||◌, Option, none, some, [], ◌∷◌, ◌++◌, arith, ◌==◌,
  if◌then◌else◌, Str, codes, str_eq, truthy, or_empty, without, lstrip, rstrip, strip, lower_code,
  lower, str_eq_refl, str_eq_iff, Lacks, without-Lacks, normalize_printed_twice, folded-Lacks,
}
use chatxz.Discovery.State.{normalize_hash, raw_via, via_part, storage_key}

pub normalize_hash_twice :
    (h : Option Str) → normalize_hash (some (normalize_hash h)) ≡ normalize_hash h
unfolding normalize_hash
normalize_hash_twice h = normalize_printed_twice (or_empty h)

pub normalize_hash-Lacks : (h : Option Str) → Lacks 58 (normalize_hash h)
unfolding normalize_hash
normalize_hash-Lacks h =
    folded-Lacks 58 (without 58 (without 62 (without 60 (or_empty h)))) refl
      (without-Lacks 58 (without 62 (without 60 (or_empty h))))

-- The text after the first colon.
pub after_colon : Str → Str
after_colon [] = []
after_colon (c ∷ s) = let rest = after_colon s in if c == 58 then s else rest

pub after_colon-append : (h v : Str) → Lacks 58 h → after_colon (h ++ 58 ∷ v) ≡ v
unfolding after_colon
after_colon-append [] v l = refl
after_colon-append (c ∷ h) v l = ground (arith, after_colon-append h v l.1)

pub before_colon : Str → Str
before_colon [] = []
before_colon (c ∷ s) = let rest = before_colon s in if c == 58 then [] else c ∷ rest

pub before_colon-append : (h v : Str) → Lacks 58 h → before_colon (h ++ 58 ∷ v) ≡ h
unfolding before_colon
before_colon-append [] v l = refl
before_colon-append (c ∷ h) v l = ground (arith, before_colon-append h v l.1)

-- Where neither hash is blank, two peers have the same key only if their hashes are the same in
-- normal form and the keys name the same transport.
pub storage_key_inj :
    (h g via other : Option Str)
    → truthy (normalize_hash h) ≡ true
    → truthy (normalize_hash g) ≡ true
    → storage_key h via ≡ storage_key g other
    → (normalize_hash h ≡ normalize_hash g) × (via_part via ≡ via_part other)
unfolding storage_key
storage_key_inj h g via other real_h real_g e =
    let l = normalize_hash-Lacks h in
    let m = normalize_hash-Lacks g in
    let same : normalize_hash h ++ 58 ∷ via_part via ≡ normalize_hash g ++ 58 ∷ via_part other =
      ground arith in
    (
      cc (
        ap before_colon same,
        before_colon-append (normalize_hash h) (via_part via) l,
        before_colon-append (normalize_hash g) (via_part other) m,
      ),
      cc (
        ap after_colon same,
        after_colon-append (normalize_hash h) (via_part via) l,
        after_colon-append (normalize_hash g) (via_part other) m,
      ),
    )

-- "serial" is written in lower case if it is meant.
abbrev pub is_plain : Option Str → Bool
is_plain via =
    not (str_eq (raw_via via) (codes "serial")) || str_eq (strip (or_empty via)) (codes "serial")

-- A `via` that is "serial" but for the blanks around it stays so in lower case.
raw_serial :
    (via : Option Str)
    → str_eq (strip (or_empty via)) (codes "serial") ≡ true
    → str_eq (raw_via via) (codes "serial") ≡ true
unfolding strip lstrip rstrip str_eq lower lower_code
raw_serial none h = cc
raw_serial (some []) h = cc
raw_serial (some (c ∷ s)) h =
    let same : strip (c ∷ s) ≡ codes "serial" = (str_eq_iff _ _).0 h in
    ap (λ (t : Str). str_eq (lower t) (codes "serial")) same

lan_is_not_serial : str_eq (codes "lan") (codes "serial") ≡ false
unfolding str_eq
lan_is_not_serial = refl

via_part_raw :
    (via : Option Str)
    → str_eq (via_part via) (codes "serial") ≡ str_eq (raw_via via) (codes "serial")
unfolding via_part
via_part_raw via = ground (arith, lan_is_not_serial, str_eq_refl (codes "serial"))

pub via_part-serial :
    (via : Option Str)
    → is_plain via ≡ true
    → str_eq (via_part via) (codes "serial") ≡ str_eq (strip (or_empty via)) (codes "serial")
via_part-serial via plain = via_part_raw via ∙ ground (arith, raw_serial via)
