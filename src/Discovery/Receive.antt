-- ===== src/Discovery/Receive.antt =====
-- `_on_announce` of chatxz/core/discovery.py.
pub mod Laws
use chatxz.Prelude.{
  ℕ, ◌+◌, Bool, true, false, not, ◌&&◌, ◌||◌, Option, none, some, [], ◌∷◌, ◌++◌, ltb, if◌then◌else◌,
  is_some, take, Str, codes, str_eq, truthy, or_empty, or_else, strip,
}
use chatxz.Prelude.Int.{pos}
use chatxz.Dict.{Dict, get, put}
use chatxz.Scope.{peer_in_scope}
use chatxz.Contacts.Record.{Port, num}
use chatxz.Net.Hash.{Bytes, raw}
use chatxz.Net.Dual.{is_empty}
use chatxz.Net.Iface.{Host, Iface, Family, serial, udp, lan, tcp, fam_eq, interface_family}
use chatxz.Net.Paths.{announce_packet_receiving_interface}
use chatxz.Net.Pins.{reinforce_serial_peer_path}
use chatxz.Discovery.State.{
  Row, PeerDiscovery, World, empty_row, normalize_hash, scope_of, is_serial, row_key, storage_key,
  is_local_hash,
}
use chatxz.Discovery.Scope.{peer_allowed}
use chatxz.Discovery.Remove.{hash_set, remove_peer_entry}
use chatxz.Discovery.Probing.{keys_of}
use chatxz.Discovery.Store.{store_peer}

abbrev pub app_name : Str
app_name = codes "chatxz"

-- The JSON text in an announce, as far as it could be read.
pub record AppData : Type 0 where
  pub app : Str
  pub name : Str
  pub ip : Option Str

-- An announce as RNS hands it over, the identity's hash and key in their printed forms.
pub record Announce : Type 0 where
  pub destination : Bytes
  pub hexrep : Str
  pub identity : Option Str
  pub public_key : Option Str
  pub app_data : Option AppData

abbrev pub announce_app : Option AppData → Str
announce_app none = []
announce_app (some a) = a.app

abbrev announce_name : Option AppData → Str
announce_name none = []
announce_name (some a) = a.name

abbrev pub announce_ip : Option AppData → Str
announce_ip none = []
announce_ip (some a) = strip (or_empty a.ip)

-- `_log_once`
unfoldable pub log_once : World → Str → PeerDiscovery → PeerDiscovery
log_once w key d =
    if ltb w.now (elim (get key d.last_log) as (λ o. ℕ) [ none ↦ 0 | some t ↦ t ] + 5)
    then d
    else record d { last_log = put key w.now d.last_log }

-- Which transport an announce belongs to, if it is let in: the family of the interface that received it,
-- and the address in it.
unfoldable pub admitted_via : World → Option Iface → Str → Option (Str × Str)
admitted_via w packet_iface ip =
    let fam = interface_family packet_iface in
    let inside = not (truthy (scope_of w)) || peer_in_scope (some ip) (some (scope_of w)) in
    if is_some packet_iface && fam_eq fam serial
    then (if truthy ip || not w.usb then none else some (codes "serial", []))
    else if is_some packet_iface && (fam_eq fam udp || (fam_eq fam lan || fam_eq fam tcp))
    then (if truthy ip && inside then some (codes "rns", ip) else none)
    else if truthy ip
    then (if inside then some (codes "rns", ip) else none)
    else none

-- `peer = {...}`
abbrev pub announced_row : World → Announce → Str → Str → Row
announced_row w a via ip =
    let hash_hex = normalize_hash (some a.hexrep) in
    let identity_hex = normalize_hash a.identity in
    record empty_row {
      hash = some hash_hex;
      name = some (or_else (announce_name a.app_data) (take 8 hash_hex));
      last_seen = some w.now;
      via = some via;
      serial_rns = if str_eq via (codes "serial") then some true else none;
      ip = if truthy ip then some ip else none;
      identity_hash = if truthy identity_hex then some identity_hex else none;
      pubkey = a.public_key;
    }

-- What follows a call of `_store_peer`.
abbrev pub after_store : Host → World → Str → Str → PeerDiscovery × Bool → PeerDiscovery
after_store host w hash_hex via (d, false) = d
after_store host w hash_hex via (d, true) = log_once w (hash_hex ++ 58 ∷ via) (
    if str_eq via (codes "serial")
    then record d { net = (reinforce_serial_peer_path host (some hash_hex) d.net).0 }
    else d)

unfoldable pub store_announced :
    Host → World → Announce → PeerDiscovery → Option (Str × Str) → PeerDiscovery
store_announced host w a d none = d
store_announced host w a d (some (via, ip)) =
    after_store host w (normalize_hash (some a.hexrep)) via
      (store_peer w (announced_row w a via ip) d)

-- `_on_announce`
unfoldable pub on_announce : Host → World → Announce → PeerDiscovery → PeerDiscovery
unfolding store_announced
on_announce host w a d =
    if not d.running || not d.accept_peers
    then d
    else if not (str_eq (announce_app a.app_data) app_name)
    then d
    else if is_local_hash (normalize_hash (some a.hexrep)) d
    then d
    else if is_local_hash (normalize_hash a.identity) d
    then d
    else store_announced host w a d (
        admitted_via w (announce_packet_receiving_interface (raw a.destination) d.net)
          (announce_ip a.app_data))
