-- ===== src/Net/Paths.antt =====
-- Single routes of the path table in chatxz/core/lan_rns.py.
pub mod Route
use chatxz.Prelude.{
  ℕ, Bool, true, false, not, Option, none, some, List, [], ◌∷◌, ◌++◌, Str, leb, map, if◌then◌else◌,
}
use chatxz.Dict.{Dict, get, has_key, pop, put}
use chatxz.Net.Iface.{
  Family, serial, fam_eq, Host, Iface, interface_family, interface_is_healthy, online_interfaces,
  is_wanted,
}
use chatxz.Net.Dual.{is_lan_family}
use chatxz.Net.Hash.{Bytes, Dest, raw, hex, dest_bytes_for_hash, dest_key_bytes}
use chatxz.Net.State.{PathEntry, AnnounceEntry, Request, Net}

-- `(entry, entry[5])` if the entry has more than five slots, else `(None, None)`.
abbrev pub row : Option PathEntry → Option PathEntry × Option Iface
row none = (none, none)
row (some e) = if leb e.size 5 then (none, none) else (some e, e.via)

abbrev pub row_at : Dict PathEntry → Option Bytes → Option PathEntry × Option Iface
row_at t none = (none, none)
row_at t (some k) = row (get k t)

unfoldable pub peer_path_entry : Option Str → Net → Option PathEntry × Option Iface
peer_path_entry h n = row_at n.path_table (dest_bytes_for_hash h)

-- The interface of a peer's route.
abbrev pub route : Option Str → Net → Option Iface
route h n = (peer_path_entry h n).1

unfoldable pub peer_path_hops : Option Str → Net → Option ℕ
peer_path_hops h n = elim (peer_path_entry h n).0 [
  | none ↦ none
  | some e ↦ if leb e.size 2 then none else e.hops
]

received : Option AnnounceEntry → Option Iface
received none = none
received (some a) = if leb a.size 5 then none else a.receiving

unfoldable pub announce_packet_receiving_interface : Dest → Net → Option Iface
unfolding received
announce_packet_receiving_interface d n = elim (dest_key_bytes d) [
  | none ↦ none
  | some k ↦ received (get k n.announces)
]

-- `a if a is not None else b`
abbrev pub if_none : Option Iface → Option Iface → Option Iface
if_none none b = b
if_none (some a) b = some a

unfoldable pub announce_receiving_interface : Dest → Net → Option Iface
announce_receiving_interface d n = elim (dest_key_bytes d) [
  | none ↦ none
  | some k ↦
      let packet_iface = announce_packet_receiving_interface d n in
      if fam_eq (interface_family packet_iface) serial
      then packet_iface
      else if_none (row (get k n.path_table)).1 packet_iface
]

unfoldable pub clear_peer_path : Option Str → Net → Net × Bool
clear_peer_path h n = elim (dest_bytes_for_hash h) [
  | none ↦ (n, false)
  | some k ↦
      if has_key k n.path_table
      then (record n { path_table = pop k n.path_table }, true)
      else (n, false)
]

-- `clear_peer_path` where the route leads over an interface that fails the test.
abbrev pub clear_if : (Iface → Bool) → Option Str → Net → Net × Bool
clear_if bad h n = elim (route h n) [
  | none ↦ (n, false)
  | some i ↦ if bad i then clear_peer_path h n else (n, false)
]

unfoldable pub scrub_peer_path : Host → Option Str → Net → Net × Bool
scrub_peer_path host h n = clear_if (λ i. not (interface_is_healthy host (some i))) h n

unfoldable pub clear_peer_path_unless_family : Host → Option Str → Family → Net → Net × Bool
unfolding scrub_peer_path
clear_peer_path_unless_family host h family n =
    let (n', _) = scrub_peer_path host h n in
    clear_if (λ i. not (fam_eq (interface_family (some i)) family)) h n'

-- `path_iface` if it is healthy and of the wanted family
abbrev pub accept : Host → Option Family → Option Iface → Option Iface
accept host family none = none
accept host family (some i) =
    if interface_is_healthy host (some i)
    then (if is_wanted family i then some i else none)
    else none

unfoldable pub peer_path_on_family : Host → Option Str → Option Family → Net → Net × Option Iface
unfolding scrub_peer_path
peer_path_on_family host h family n =
    let (n', _) = scrub_peer_path host h n in (n', accept host family (route h n'))

-- `if is_lan_transport_family(interface_family(entry[5])): pop; return True`
drop_lan_row : Bytes → Option PathEntry → Net → Net × Bool
drop_lan_row k none n = (n, false)
drop_lan_row k (some e) n =
    if leb e.size 5
    then (n, false)
    else if is_lan_family (interface_family e.via)
    then (record n { path_table = pop k n.path_table }, true)
    else (n, false)

unfoldable pub prune_lan_path_for_peer : Option Str → Net → Net × Bool
unfolding drop_lan_row
prune_lan_path_for_peer h n = elim (dest_bytes_for_hash h) [
  | none ↦ (n, false)
  | some k ↦ drop_lan_row k (get k n.path_table) n
]

unfoldable pub request_path_for_hash : Option Str → Net → Net × Bool
request_path_for_hash h n = elim (dest_bytes_for_hash h) [
  | none ↦ (n, false)
  | some k ↦ (record n { requests = n.requests ++ record { dest = k; on = none } ∷ [] }, true)
]

-- One request for each interface, or one on all interfaces if there is none.
requests_for : Bytes → List Iface → List Request
requests_for k [] = record { dest = k; on = none } ∷ []
requests_for k (i ∷ is) = map (λ (j : Iface). record { dest = k; on = some j }) (i ∷ is)

unfoldable pub request_paths_for_hash : Host → Option Str → Option Family → Net → Net × Bool
unfolding requests_for
request_paths_for_hash host h family n = elim (dest_bytes_for_hash h) [
  | none ↦ (n, false)
  | some k ↦ (
    record n { requests = n.requests ++ requests_for k (online_interfaces host family n.roots) },
    true,
  )
]
