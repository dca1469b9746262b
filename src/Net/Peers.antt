-- ===== src/Net/Peers.antt =====
-- The known LAN addresses of peers in chatxz/core/lan_rns.py, which the UDP interface sends to.
pub mod Laws
use chatxz.Prelude.{
  ℕ, ◌+◌, Bool, not, ◌||◌, Option, some, List, [], ◌∷◌, if◌then◌else◌, keep, Str, codes, str_eq,
  truthy, or_empty, str_mem, starts_with, strip,
}
use chatxz.Prelude.Int.{sorted}
use chatxz.Net.State.{Net}
use chatxz.Scope.{peer_in_scope}

-- `not host or host.startswith("127.") or host.startswith("169.254.")`
abbrev pub is_refused : Str → Bool
is_refused host =
    not (truthy host) || (starts_with host (codes "127.") || starts_with host (codes "169.254."))

-- `set.add`
abbrev pub add : Str → List Str → List Str
add s xs = if str_mem s xs then xs else s ∷ xs

abbrev pub discard : Str → List Str → List Str
discard s xs = keep (λ p. not (str_eq s p)) xs

unfoldable pub register_udp_peer_ip : Option Str → Net → Net
register_udp_peer_ip ip n =
    let host = strip (or_empty ip) in
    if is_refused host then n else record n { known_ips = add host n.known_ips }

unfoldable pub unregister_udp_peer_ip : Option Str → Net → Net
unregister_udp_peer_ip ip n =
    let host = strip (or_empty ip) in
    if truthy host then record n { known_ips = discard host n.known_ips } else n

-- The loop over a copy of the set.
unfoldable pub drop_out_of_scope : Str → List Str → List Str → ℕ → List Str × ℕ
drop_out_of_scope scope [] known removed = (known, removed)
drop_out_of_scope scope (host ∷ hosts) known removed =
    let out = not (peer_in_scope (some host) (some scope)) in
    drop_out_of_scope scope hosts (if out then discard host known else known)
      (if out then removed + 1 else removed)

unfoldable pub prune_known_udp_peer_ips : Option Str → Net → Net × ℕ
unfolding drop_out_of_scope
prune_known_udp_peer_ips scope_ip n =
    let scope = strip (or_empty scope_ip) in
    if not (truthy scope)
    then (n, 0)
    else let (known, removed) = drop_out_of_scope scope n.known_ips n.known_ips 0 in
      (record n { known_ips = known }, removed)

unfoldable pub known_udp_peer_ips : Net → List Str
known_udp_peer_ips n = sorted n.known_ips

unfoldable pub register_udp_peer_ips_from_discovery : List (Option Str) → Net → Net
register_udp_peer_ips_from_discovery [] n = n
register_udp_peer_ips_from_discovery (ip ∷ ips) n =
    register_udp_peer_ips_from_discovery ips (register_udp_peer_ip ip n)
