-- ===== src/Net/Prune.antt =====
-- The clean-up loops of chatxz/core/lan_rns.py over the whole path table.
pub mod Laws
use chatxz.Prelude.{
  ℕ, ◌+◌, Bool, false, not, ◌&&◌, ◌||◌, Option, none, some, List, [], ◌∷◌, Str, str_mem, strip,
  or_empty, truthy, leb, ltb, if◌then◌else◌,
}
use chatxz.Dict.{Dict, sweep}
use chatxz.Net.Iface.{
  Family, unknown, serial, tcp, lan, udp, other, fam_eq, Host, Iface, interface_family,
  interface_is_healthy,
}
use chatxz.Net.Dual.{is_lan_family, is_empty, dual_transport_isolation_enabled}
use chatxz.Net.Hash.{Bytes, to_hex, normalize_dest_hex}
use chatxz.Net.State.{PathEntry, Net}

-- The rows that the loops look at: `not (not entry or len(entry) <= 5)`, and the test of the loop.
abbrev pub dooms : (Bytes → PathEntry → Bool) → Bytes → PathEntry → Bool
dooms test k e = not (leb e.size 5) && test k e

unfoldable pub prune_where : (Bytes → PathEntry → Bool) → Net → Net × ℕ
prune_where test n =
    let (table, removed) = sweep (dooms test) n.path_table n.path_table 0 in
    (record n { path_table = table }, removed)

abbrev pub hops_or_zero : Option ℕ → ℕ
hops_or_zero none = 0
hops_or_zero (some h) = h

abbrev pub is_bridged : Bytes → PathEntry → Bool
is_bridged k e = is_lan_family (interface_family e.via) && ltb 1 (hops_or_zero e.hops)

unfoldable pub prune_bridged_lan_paths : Host → Net → Net × ℕ
prune_bridged_lan_paths host n =
    if dual_transport_isolation_enabled host n.roots then prune_where is_bridged n else (n, 0)

-- The set comprehension over `serial_peer_hashes`.
unfoldable pub serial_peer_set : List (Option Str) → List Str
serial_peer_set [] = []
serial_peer_set (h ∷ hs) =
    let rest = serial_peer_set hs in
    if truthy (strip (or_empty h)) then normalize_dest_hex h ∷ rest else rest

abbrev pub is_cross_zone : List Str → Bytes → PathEntry → Bool
is_cross_zone peers k e =
    if str_mem (to_hex k) peers
    then is_lan_family (interface_family e.via)
    else fam_eq (interface_family e.via) serial && not (is_empty peers)

unfoldable pub prune_cross_zone_paths : List (Option Str) → Net → Net × ℕ
prune_cross_zone_paths hashes n = prune_where (is_cross_zone (serial_peer_set hashes)) n

abbrev pub is_stale_lan : Host → Bytes → PathEntry → Bool
is_stale_lan host k e =
    (fam_eq (interface_family e.via) udp || fam_eq (interface_family e.via) lan)
    && (not (interface_is_healthy host e.via) || (not host.android && not host.lan_reachable))

unfoldable pub prune_stale_lan_paths : Host → Net → Net × ℕ
prune_stale_lan_paths host n = prune_where (is_stale_lan host) n

abbrev pub is_on : Family → Bytes → PathEntry → Bool
is_on family k e = fam_eq (interface_family e.via) family

unfoldable pub clear_paths_on_family : Family → Net → Net × ℕ
clear_paths_on_family family n = prune_where (is_on family) n

unfoldable pub clear_all_lan_paths : Net → Net × ℕ
unfolding clear_paths_on_family
clear_all_lan_paths n =
    let (n', a) = clear_paths_on_family udp n in
    let (n'', b) = clear_paths_on_family lan n' in (n'', a + b)

abbrev pub fam_mem : Family → List Family → Bool
fam_mem f [] = false
fam_mem f (g ∷ gs) = fam_eq f g || fam_mem f gs

-- `{f for f in (keep_families or ()) if f}`
unfoldable pub kept_families : List Family → List Family
kept_families [] = []
kept_families (f ∷ fs) = let rest = kept_families fs in if fam_eq f unknown then rest else f ∷ rest

abbrev pub is_outside : List Family → Bytes → PathEntry → Bool
is_outside keep k e = not (fam_mem (interface_family e.via) keep)

unfoldable pub clear_paths_except_families : List Family → Net → Net × ℕ
unfolding kept_families
clear_paths_except_families families n =
    if is_empty (kept_families families)
    then (n, 0)
    else prune_where (is_outside (kept_families families)) n
