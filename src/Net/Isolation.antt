-- ===== src/Net/Isolation.antt =====
-- chatxz/core/transport_isolation.py: the patched `path_request` and `outbound` of the transport.
pub mod Laws
pub mod Offered
use chatxz.Prelude.{
  ℕ, Bool, false, not, ◌&&◌, ◌||◌, Option, none, some, List, [], ◌∷◌, leb, ◌==◌, if◌then◌else◌,
}
use chatxz.Dict.{Dict, get, pop}
use chatxz.Net.Iface.{Family, serial, fam_eq, Host, Iface, Root, interface_family}
use chatxz.Net.Dual.{is_lan_family, dual_transport_isolation_enabled, families_compatible}
use chatxz.Net.Hash.{Bytes}
use chatxz.Net.State.{PathEntry, AnnounceEntry, Net}
use chatxz.Net.Paths.{row}

-- The interfaces other than the source whose family may talk to the source's.
unfoldable pub select_compatible : Iface → List Root → List Root
select_compatible source [] = []
select_compatible source (r ∷ rs) =
    let rest = select_compatible source rs in
    if r.iface.id == source.id
    then rest
    else if families_compatible (interface_family (some source)) (interface_family (some r.iface))
    then r ∷ rest
    else rest

-- `source == _SERIAL or _is_lan_family(source)`
abbrev pub is_zoned : Family → Bool
is_zoned f = fam_eq f serial || is_lan_family f

unfoldable pub filter_interfaces : Host → List Root → Option Iface → List Root → List Root
filter_interfaces host roots none interfaces = interfaces
filter_interfaces host roots (some source) interfaces =
    if not (dual_transport_isolation_enabled host roots)
    then interfaces
    else if not (is_zoned (interface_family (some source)))
    then interfaces
    else select_compatible source interfaces

-- `entry[5]` of a cached path that crosses the zones is dropped.
abbrev pub crosses_from : Iface → Option PathEntry → Bool
crosses_from source none = false
crosses_from source (some e) =
    not (leb e.size 5)
    && not (families_compatible (interface_family (some source)) (interface_family e.via))

unfoldable pub drop_crossing : Bytes → Iface → Net → Net
drop_crossing k source n =
    if is_zoned (interface_family (some source))
    then (if crosses_from source (get k n.path_table)
        then record n { path_table = pop k n.path_table }
        else n)
    else n

-- `original` is the transport's own `path_request`; what it returns or raises is its `Reply`.
module _ {Reply : Type 0} (original : Bytes → Option Iface → Net → Net × Reply) where
  unfoldable pub path_request : Host → Bytes → Option Iface → Net → Net × Reply
  path_request host k none n = original k none n
  path_request host k (some source) n =
      if not (dual_transport_isolation_enabled host n.roots)
      then original k (some source) n
      else let dropped = drop_crossing k source n in
        let narrowed = record dropped {
          roots = filter_interfaces host dropped.roots (some source) dropped.roots;
        } in
        let (after, reply) = original k (some source) narrowed in
        (record after { roots = dropped.roots }, reply)

-- A packet on its way out.
pub record Packet : Type 0 where
  pub is_announce : Bool
  pub hops : ℕ
  pub attached : Option Iface
  pub receiving : Option Iface
  pub dest : Bytes

abbrev pub first_of_three : Option Iface → Option Iface → Option Iface → Option Iface
first_of_three (some a) b c = some a
first_of_three none (some b) c = some b
first_of_three none none c = c

-- `getattr(orig, "receiving_interface", None)` of an entry with more than five slots
abbrev pub announced : Option AnnounceEntry → Option Iface
announced none = none
announced (some a) = if leb a.size 5 then none else a.receiving

-- The interface that received an announce: by the packet, the path table, or the announce table.
unfoldable pub source_of : Packet → Net → Option Iface
source_of p n =
    first_of_three p.receiving (row (get p.dest n.path_table)).1
      (announced (get p.dest n.announces))

unfoldable pub pin_announce_interface : Host → Packet → Net → Packet
pin_announce_interface host p n =
    if not (dual_transport_isolation_enabled host n.roots)
    then p
    else if not p.is_announce || p.hops == 0
    then p
    else elim p.attached [
      | some i ↦ p
      | none ↦ elim (source_of p n) [ none ↦ p | some i ↦ record p { attached = some i } ]
    ]
