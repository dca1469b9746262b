-- ===== src/Discovery/Receive/Laws.antt =====
-- What an announce may do to the table of chatxz/core/discovery.py.
use chatxz.Net.Iface.{fam_eq}
use chatxz.Net.Iface.{interface_family}
use chatxz.Scope.{peer_in_scope}
use chatxz.Prelude.{
  ◌≡◌, refl, ap, inl, inr, Bool, true, false, not, ◌&&◌, ◌||◌, Option, none, some, List, arith,
  if◌then◌else◌, Bool-cases, Str, codes, str_eq, truthy, is_space, lstrip, rstrip, strip,
  lower_code, lower, branch,
}
use chatxz.Discovery.Invariant.{IsSound}
use chatxz.Net.Iface.{serial}
use chatxz.Discovery.Receive.{
  app_name, announce_app, announce_ip, Announce, admitted_via, announced_row, after_store,
  store_announced, on_announce, log_once,
}
use chatxz.Discovery.State.{is_local_hash, normalize_hash, PeerDiscovery, World, scope_of}
use chatxz.Discovery.State.Keys.{is_plain}
use chatxz.Discovery.Store.Address.{AllSome}
use chatxz.Discovery.Store.Invariant.{store_peer-IsSound}
use chatxz.Discovery.Store.Merge.{same_table}
use chatxz.Net.Hash.{raw}
use chatxz.Net.Iface.{Host, Iface}
use chatxz.Net.Paths.{announce_packet_receiving_interface}

rns-is_plain : is_plain (some (codes "rns")) ≡ true
unfolding strip lstrip rstrip is_space lower lower_code str_eq
rns-is_plain = refl

serial-is_plain : is_plain (some (codes "serial")) ≡ true
unfolding strip lstrip rstrip is_space lower lower_code str_eq
serial-is_plain = refl

log_once-peers : (w : World) (key : Str) (d : PeerDiscovery) → (log_once w key d).peers ≡ d.peers
unfolding log_once
log_once-peers w key d = ground arith

log_once-locals :
    (w : World) (key : Str) (d : PeerDiscovery) → (log_once w key d).local_hashes ≡ d.local_hashes
unfolding log_once
log_once-locals w key d = ground arith

admitted_via-is_plain :
    (w : World) (i : Option Iface) (ip : Str)
    → AllSome (λ (p : Str × Str). is_plain (some p.0) ≡ true) (admitted_via w i ip)
unfolding admitted_via
admitted_via-is_plain w i ip = ground (arith, rns-is_plain, serial-is_plain)

module _ (scope : Str) (locals : List Str) where
  pub log_once-IsSound :
      (w : World) (key : Str) (d : PeerDiscovery)
      → IsSound scope locals d
      → IsSound scope locals (log_once w key d)
  log_once-IsSound w key d =
      same_table scope locals d (log_once w key d) (log_once-peers w key d)
        (log_once-locals w key d)

  after_store-IsSound :
      (host : Host) (w : World) (h via : Str) (r : PeerDiscovery × Bool)
      → IsSound scope locals r.0
      → IsSound scope locals (after_store host w h via r)
  after_store-IsSound host w h via (d, false) s = s
  after_store-IsSound host w h via (d, true) s =
      log_once-IsSound w _ _ (elim (Bool-cases (str_eq via (codes "serial"))) [
        | inl e ↦ rw e (same_table scope locals d _ refl refl s)
        | inr e ↦ rw e s
      ])

  store_announced-IsSound :
      (host : Host) (w : World) (a : Announce) (d : PeerDiscovery) (o : Option (Str × Str))
      → scope_of w ≡ scope
      → AllSome (λ (p : Str × Str). is_plain (some p.0) ≡ true) o
      → IsSound scope locals d
      → IsSound scope locals (store_announced host w a d o)
  unfolding store_announced
  store_announced-IsSound host w a d none same plain s = s
  store_announced-IsSound host w a d (some (via, ip)) same plain s =
      after_store-IsSound host w _ via _
        (store_peer-IsSound scope locals w same (announced_row w a via ip) d plain s)

  -- An announce keeps the invariant.
  pub on_announce-IsSound :
      (host : Host) (w : World) (a : Announce) (d : PeerDiscovery)
      → scope_of w ≡ scope
      → IsSound scope locals d
      → IsSound scope locals (on_announce host w a d)
  unfolding on_announce
  on_announce-IsSound host w a d same s =
      let keep = λ (b : Bool) (x : PeerDiscovery). branch (IsSound scope locals) b d x s in
      keep (not d.running || not d.accept_peers) _ (
        keep (not (str_eq (announce_app a.app_data) app_name)) _ (
          keep (is_local_hash (normalize_hash (some a.hexrep)) d) _ (
            keep (is_local_hash (normalize_hash a.identity) d) _ (
              store_announced-IsSound host w a d _ same
                (admitted_via-is_plain w
                  (announce_packet_receiving_interface (raw a.destination) d.net)
                  (announce_ip a.app_data))
                s))))

-- An announce that came the wrong way: with an address over serial, or with serial off; over anything else
-- without an address, or with one outside the scope.
abbrev pub is_crossing : World → Option Iface → Str → Bool
is_crossing w i ip =
    if fam_eq (interface_family i) serial
    then truthy ip || not w.usb
    else not (truthy ip)
      || (truthy (scope_of w) && not (peer_in_scope (some ip) (some (scope_of w))))

admitted_via-crossing :
    (w : World) (i : Option Iface) (ip : Str)
    → is_crossing w i ip ≡ true
    → admitted_via w i ip ≡ none
unfolding admitted_via interface_family
admitted_via-crossing w none ip c = ground arith
admitted_via-crossing w (some i) ip c = ground arith

-- An announce that came over serial with an address or while serial is off, or over anything else
-- without an address or with one outside a scope that is set, changes nothing.
pub on_announce_crossing :
    (host : Host) (w : World) (a : Announce) (d : PeerDiscovery)
    → is_crossing w
        (announce_packet_receiving_interface (raw a.destination) d.net)
        (announce_ip a.app_data)
      ≡ true
    → on_announce host w a d ≡ d
unfolding on_announce store_announced
on_announce_crossing host w a d c =
    let none_in = admitted_via-crossing w _ (announce_ip a.app_data) c in
    let keep = λ (b : Bool) (x : PeerDiscovery). branch (λ e. e ≡ d) b d x refl in
    keep (not d.running || not d.accept_peers) _ (
      keep (not (str_eq (announce_app a.app_data) app_name)) _ (
        keep (is_local_hash (normalize_hash (some a.hexrep)) d) _ (
          keep (is_local_hash (normalize_hash a.identity) d) _
            (ap (store_announced host w a d) none_in))))
