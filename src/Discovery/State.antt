-- ===== src/Discovery/State.antt =====
-- The rows and the state of `PeerDiscovery` in chatxz/core/discovery.py, and the keys of its dict.
pub mod Keys
pub mod Trim
use chatxz.Prelude.{
  ℕ, Bool, true, false, not, ◌&&◌, Option, none, some, List, [], ◌∷◌, ◌++◌, if◌then◌else◌, is_some,
  Str, codes, str_eq, truthy, or_empty, or_else, str_mem, without, strip, lower,
}
use chatxz.Dict.{Dict, get}
use chatxz.Net.Iface.{Host, serial_interface_online}
use chatxz.Net.State.{Net}
use chatxz.Contacts.Record.{Port}

-- `normalize_hash`
unfoldable pub normalize_hash : Option Str → Str
normalize_hash h = lower (strip (without 58 (without 62 (without 60 (or_empty h)))))

-- The dict of one peer; `none` is an absent key.
pub record Row : Type 0 where
  pub hash : Option Str
  pub identity_hash : Option Str
  pub pubkey : Option Str
  pub name : Option Str
  pub ip : Option Str
  pub port : Option Port
  pub via : Option Str
  pub last_seen : Option ℕ
  pub serial_rns : Option Bool
  pub probe_failures : ℕ
  pub last_probe_ok : ℕ
  pub last_probe_at : ℕ
  pub last_rtt_probe_at : Option ℕ
  pub rtt_ms : Option ℕ
  pub rtt_avg_ms : Option ℕ
  pub rtt_samples : List ℕ

abbrev pub empty_row : Row
empty_row = record {
  hash = none;
  identity_hash = none;
  pubkey = none;
  name = none;
  ip = none;
  port = none;
  via = none;
  last_seen = none;
  serial_rns = none;
  probe_failures = 0;
  last_probe_ok = 0;
  last_probe_at = 0;
  last_rtt_probe_at = none;
  rtt_ms = none;
  rtt_avg_ms = none;
  rtt_samples = [];
}

-- A call of `on_peer_evicted` or of `on_peer_seen`.
pub data Notice : Type 0 where
  evicted : List Str → Option Row → Notice
  seen : Row → Notice

-- `net` is the state of lan_rns.py; `notices` are the callbacks so far, the last one first.
pub record PeerDiscovery : Type 0 where
  pub peers : Dict Row
  pub running : Bool
  pub accept_peers : Bool
  pub last_log : Dict ℕ
  pub local_hashes : List Str
  pub net : Net
  pub notices : List Notice

-- What a call finds outside: the time, `discovery_scope_ip()`, and `serial_discovery_active()`.
pub record World : Type 0 where
  pub now : ℕ
  pub scope_ip : Option Str
  pub usb : Bool

-- `serial_discovery_active`, where the settings say whether serial is configured
unfoldable pub serial_discovery_active : Bool → Host → Net → Bool
serial_discovery_active configured host n =
    configured && is_some (serial_interface_online host none n.roots)

-- `self._scope_ip()`; the empty text is None.
abbrev pub scope_of : World → Str
scope_of w = strip (or_empty w.scope_ip)

abbrev pub row_via : Row → Str
row_via r = strip (or_empty r.via)

abbrev pub row_ip : Row → Str
row_ip r = strip (or_empty r.ip)

-- `(peer.get("via") or "").strip() == "serial"`
abbrev pub is_serial : Row → Bool
is_serial r = str_eq (row_via r) (codes "serial")

-- `(peer.get("via") or "lan").strip().lower()`
abbrev pub raw_via : Option Str → Str
raw_via via = lower (strip (or_else (or_empty via) (codes "lan")))

-- The transport part of a key.
unfoldable pub via_part : Option Str → Str
via_part via =
    let raw = raw_via via in
    if str_eq raw (codes "serial")
    then codes "serial"
    else if str_mem raw (codes "rns" ∷ codes "beacon" ∷ codes "lan" ∷ [] ∷ [])
    then codes "lan"
    else raw

-- `_peer_storage_key`
unfoldable pub storage_key : Option Str → Option Str → Str
storage_key hash via =
    let h = normalize_hash hash in if truthy h then h ++ 58 ∷ via_part via else []

abbrev pub row_key : Row → Str
row_key r = storage_key r.hash r.via

-- `self.peers.values()`
unfoldable pub rows_of : Dict Row → List Row
rows_of [] = []
rows_of ((k, r) ∷ d) = r ∷ rows_of d

unfoldable pub first_with_hash : Str → Dict Row → Option Row
first_with_hash h [] = none
first_with_hash h ((k, r) ∷ d) =
    let rest = first_with_hash h d in if str_eq (normalize_hash r.hash) h then some r else rest

abbrev or_row : Option Row → Option Row → Option Row
or_row none b = b
or_row (some r) b = some r

-- `peer_row`
unfoldable pub peer_row : Option Str → Option Str → PeerDiscovery → Option Row
peer_row hash via d =
    let h = normalize_hash hash in
    if not (truthy h)
    then none
    else if truthy (or_empty via)
    then get (storage_key (some h) via) d.peers
    else or_row (first_with_hash h d.peers) (get h d.peers)

-- `has_peer_hash`
unfoldable pub has_peer_hash : Option Str → PeerDiscovery → Bool
has_peer_hash hash d =
    let h = normalize_hash hash in
    if not (truthy h)
    then false
    else if is_some (get h d.peers)
    then true
    else is_some (first_with_hash h d.peers)

-- `_is_local_hash`
abbrev pub is_local_hash : Str → PeerDiscovery → Bool
is_local_hash h d =
    truthy (normalize_hash (some h)) && str_mem (normalize_hash (some h)) d.local_hashes
