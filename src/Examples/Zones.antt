-- ===== src/Examples/Zones.antt =====
-- Path requests of transport_isolation.py, and addresses and scopes, on one machine.
use mathlib.Core.List.{Memᴰ}
use chatxz.Prelude.{
  ◌≡◌, refl, ◌↔◌, Bool, true, false, ◌&&◌, Option, none, some, List, [], ◌∷◌, ◌++◌, codes, str_eq,
  str_mem, strip, split_on, split,
}
use chatxz.Prelude.Int.{parse_int}
use chatxz.Examples.Machine.{host, usb_iface, roots_of_both, bridged_net}
use chatxz.Net.Hash.{Bytes}
use chatxz.Net.Iface.{Iface, Root}
use chatxz.Net.Isolation.{filter_interfaces}
use chatxz.Net.Isolation.Offered.{mem-filter_interfaces, is_withheld}
use chatxz.Net.Peers.{prune_known_udp_peer_ips}
use chatxz.Net.Peers.Laws.{prune_known_udp_peer_ips_lem}
use chatxz.Net.State.{Net}
use chatxz.Scope.{same_lan_scope, same_quads, quad, peer_in_scope}
use chatxz.Scope.Laws.{same_lan_scope_trans}

prune_known_udp_peer_ips_lem_example :
    str_mem
      (codes "10.9.9.9")
      (prune_known_udp_peer_ips (some (codes "192.168.1.2")) bridged_net).0.known_ips
    ≡ str_mem (codes "10.9.9.9") bridged_net.known_ips
      && peer_in_scope (some (codes "10.9.9.9")) (some (strip (codes "192.168.1.2")))
unfolding strip codes
prune_known_udp_peer_ips_lem_example =
    prune_known_udp_peer_ips_lem (codes "192.168.1.2") (codes "10.9.9.9") bridged_net refl

abbrev usb_root : Root
usb_root = record { iface = usb_iface; spawned = none }

mem-filter_interfaces_example :
    (Memᴰ usb_root (filter_interfaces host roots_of_both (some usb_iface) roots_of_both)) ↔ (
      Memᴰ usb_root roots_of_both
      × (is_withheld host roots_of_both usb_iface usb_root.iface ≡ false))
mem-filter_interfaces_example =
    mem-filter_interfaces host roots_of_both roots_of_both usb_iface usb_root

-- A transport that asks on the first interface of its list.
abbrev ask_at : List Root → Bytes → Net → Net × Bool
ask_at [] k n = (n, false)
ask_at (r ∷ rs) k n =
    (record n { requests = n.requests ++ record { dest = k; on = some r.iface } ∷ [] }, true)

abbrev ask_first : Bytes → Option Iface → Net → Net × Bool
ask_first k a n = ask_at n.roots k n

same_lan_scope_trans_example : same_lan_scope (codes "172.16.0.1") (codes "172.31.0.9") ≡ true
unfolding same_lan_scope quad same_quads codes split split_on str_eq parse_int strip
same_lan_scope_trans_example =
    same_lan_scope_trans (codes "172.16.0.1") (codes "172.20.5.5") (codes "172.31.0.9") refl refl
