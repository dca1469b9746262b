-- ===== src/Scope.antt =====
-- chatxz/utils/lan_scope.py: which IPv4 addresses count as one LAN.
pub mod Laws
use chatxz.Prelude.{
  Bool, true, false, not, ◌&&◌, ◌||◌, Option, none, some, List, [], ◌∷◌, if◌then◌else◌, Str, str_eq,
  truthy, or_empty, strip, split,
}
use chatxz.Prelude.Int.{ℤ, parse_int, is_pos, is_between}

-- `16 <= a1 <= 31` under 172, and 168 under 192
abbrev pub private_pair : ℤ → ℤ → ℤ → ℤ → Bool
private_pair a0 a1 b0 b1 =
    (is_pos 172 a0 && is_pos 172 b0 && (is_between 16 31 a1 && is_between 16 31 b1))
    || (is_pos 192 a0 && is_pos 192 b0 && (is_pos 168 a1 && is_pos 168 b1))

-- A ValueError of `int` is the answer `False`.
abbrev pub private_octets : Option ℤ → Option ℤ → Option ℤ → Option ℤ → Bool
private_octets (some a0) (some a1) (some b0) (some b1) = private_pair a0 a1 b0 b1
private_octets _ _ _ _ = false

-- The parts of an address, if they are four.
pub record Quad : Type 0 where
  pub o0 : Str
  pub o1 : Str
  pub o2 : Str
  pub o3 : Str

unfoldable pub quad : List Str → Option Quad
quad (a ∷ b ∷ c ∷ d ∷ []) = some (record { o0 = a; o1 = b; o2 = c; o3 = d })
quad _ = none

unfoldable pub same_quads : Quad → Quad → Bool
same_quads a b =
    if str_eq a.o0 b.o0 && (str_eq a.o1 b.o1 && str_eq a.o2 b.o2)
    then true
    else private_octets (parse_int a.o0) (parse_int a.o1) (parse_int b.o0) (parse_int b.o1)

abbrev pub both : Option Quad → Option Quad → Bool
both (some a) (some b) = same_quads a b
both _ _ = false

unfoldable pub same_lan_scope : Str → Str → Bool
unfolding quad same_quads
same_lan_scope a b =
    if not (truthy a) || not (truthy b) then false else both (quad (split 46 a)) (quad (split 46 b))

unfoldable pub peer_in_scope : Option Str → Option Str → Bool
unfolding same_lan_scope
peer_in_scope peer_ip scope_ip =
    let peer = strip (or_empty peer_ip) in
    let scope = strip (or_empty scope_ip) in
    if not (truthy peer) || not (truthy scope) then false else same_lan_scope peer scope
