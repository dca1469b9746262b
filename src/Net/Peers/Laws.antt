-- ===== src/Net/Peers/Laws.antt =====
-- The known addresses of chatxz/core/lan_rns.py after registering and pruning.
use chatxz.Prelude.{
  ℕ, ◌+◌, ◌≡◌, ◌∙◌, inl, inr, Bool, true, false, not, ◌&&◌, Option, some, List, [], ◌∷◌, arith,
  if◌then◌else◌, Bool-cases, keep, Str, str_eq, truthy, or_empty, str_mem, strip, str_eq_iff,
}
use chatxz.Net.State.{Net}
use chatxz.Scope.{peer_in_scope}
use chatxz.Net.Peers.{
  is_refused, discard, register_udp_peer_ip, drop_out_of_scope, prune_known_udp_peer_ips,
  register_udp_peer_ips_from_discovery,
}

-- Every known address is non-empty and neither loopback nor link-local, and none stands twice.
abbrev pub IsUsable : List Str → Type 0
IsUsable [] = Unit
IsUsable (ip ∷ ips) = (is_refused ip ≡ false) × (str_mem ip ips ≡ false) × IsUsable ips

str_mem-discard :
    (s t : Str) (xs : List Str) → str_mem t (discard s xs) ≡ not (str_eq s t) && str_mem t xs
unfolding str_mem keep
str_mem-discard s t [] = ground arith
str_mem-discard s t (x ∷ xs) =
    ground (arith, str_mem-discard s t xs, str_eq_iff s x, str_eq_iff t x, str_eq_iff s t)

discard-IsUsable : (s : Str) (xs : List Str) → IsUsable xs → IsUsable (discard s xs)
unfolding keep
discard-IsUsable s [] h = tt
discard-IsUsable s (x ∷ xs) h = elim (Bool-cases (str_eq s x)) [
  | inl e ↦ rw e (discard-IsUsable s xs h.2)
  | inr e ↦ rw e (h.0, str_mem-discard s x xs ∙ ground arith, discard-IsUsable s xs h.2)
]

-- Registering keeps the known addresses usable, whatever text it is given.
pub register_udp_peer_ip-IsUsable :
    (ip : Option Str) (n : Net)
    → IsUsable n.known_ips
    → IsUsable (register_udp_peer_ip ip n).known_ips
unfolding register_udp_peer_ip
register_udp_peer_ip-IsUsable ip n h =
    let host = strip (or_empty ip) in
    elim (Bool-cases (is_refused host)) [
      | inl e ↦ rw e h
      | inr e ↦ rw e (elim (Bool-cases (str_mem host n.known_ips)) [
        | inl old ↦ rw old h
        | inr new ↦ rw new (e, new, h)
      ])
    ]

-- If the known addresses are different and usable, they are so after registering any addresses of
-- a discovery.
pub register_udp_peer_ips_from_discovery-IsUsable :
    (ips : List (Option Str)) (n : Net)
    → IsUsable n.known_ips
    → IsUsable (register_udp_peer_ips_from_discovery ips n).known_ips
unfolding register_udp_peer_ips_from_discovery
register_udp_peer_ips_from_discovery-IsUsable [] n h = h
register_udp_peer_ips_from_discovery-IsUsable (ip ∷ ips) n h =
    register_udp_peer_ips_from_discovery-IsUsable ips (register_udp_peer_ip ip n)
      (register_udp_peer_ip-IsUsable ip n h)

-- The hosts of `hosts` that a scope excludes.
abbrev excluded : Str → List Str → Str → Bool
excluded scope hosts t = str_mem t hosts && not (peer_in_scope (some t) (some scope))

mem_step :
    (out : Bool) (x t : Str) (known : List Str)
    → str_mem t (if out then discard x known else known)
      ≡ str_mem t known && not (out && str_eq x t)
mem_step true x t known = str_mem-discard x t known ∙ ground arith
mem_step false x t known = ground arith

str_mem-drop_out_of_scope :
    (scope t : Str) (hosts known : List Str) (removed : ℕ)
    → str_mem t (drop_out_of_scope scope hosts known removed).0
      ≡ str_mem t known && not (excluded scope hosts t)
unfolding drop_out_of_scope str_mem
str_mem-drop_out_of_scope scope t [] known removed = ground arith
str_mem-drop_out_of_scope scope t (x ∷ hosts) known removed =
    let out = not (peer_in_scope (some x) (some scope)) in
    str_mem-drop_out_of_scope scope t hosts (if out then discard x known else known)
      (if out then removed + 1 else removed)
    ∙ ground (arith, mem_step out x t known, str_eq_iff t x, str_eq_iff x t)

-- After pruning to a scope that is not blank the known addresses are exactly those that were
-- known and lie in the scope.
pub prune_known_udp_peer_ips_lem :
    (scope : Str) (t : Str) (n : Net)
    → truthy (strip scope) ≡ true
    → str_mem t (prune_known_udp_peer_ips (some scope) n).0.known_ips
      ≡ str_mem t n.known_ips && peer_in_scope (some t) (some (strip scope))
unfolding prune_known_udp_peer_ips
prune_known_udp_peer_ips_lem scope t n h =
    rw h (str_mem-drop_out_of_scope (strip scope) t n.known_ips n.known_ips 0 ∙ ground arith)
