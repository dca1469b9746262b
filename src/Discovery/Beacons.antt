-- ===== src/Discovery/Beacons.antt =====
-- `_on_beacon` of chatxz/core/discovery.py, and `peer_record_from_beacon` of
-- chatxz/core/peer_identity.py.
pub mod Laws
use chatxz.Prelude.{
  Bool, true, false, not, ◌&&◌, ◌||◌, Option, none, some, [], ◌∷◌, ◌++◌, ◌==◌, if◌then◌else◌,
  length, take, Str, codes, str_eq, truthy, or_empty, or_else, strip, lower,
}
use chatxz.Prelude.Int.{pos}
use chatxz.Dict.{Dict, get}
use chatxz.Scope.{peer_in_scope}
use chatxz.Contacts.Record.{Port, num}
use chatxz.Discovery.State.{
  Row, PeerDiscovery, World, empty_row, normalize_hash, scope_of, storage_key, is_local_hash,
}
use chatxz.Discovery.Scope.{peer_allowed}
use chatxz.Discovery.Remove.{remove_peer_entry}
use chatxz.Discovery.Store.{store_peer}
use chatxz.Discovery.Receive.{app_name, log_once}

-- The payload of a beacon.
pub record Beacon : Type 0 where
  pub app : Str
  pub hash : Option Str
  pub identity_hash : Option Str
  pub name : Option Str
  pub ip : Option Str
  pub port : Option Port
  pub pubkey : Option Str

abbrev non_empty : Str → Option Str
non_empty s = if truthy s then some s else none

abbrev pub beacon_hash : Str → Beacon → Str
beacon_hash connect b = normalize_hash (some (or_else connect (or_empty b.hash)))

-- `peer_record_from_beacon`; `connect` is what `register_beacon_identity` gave back.
unfoldable pub peer_record_from_beacon : Str → Beacon → Option Row
peer_record_from_beacon connect b =
    let hash_hex = beacon_hash connect b in
    let identity_hex = normalize_hash b.identity_hash in
    if not (str_eq b.app app_name)
    then none
    else if not (length hash_hex == 32)
    then none
    else some (record empty_row {
      hash = some hash_hex;
      name = some (or_else (strip (or_empty b.name)) (take 8 hash_hex));
      ip = non_empty (strip (or_empty b.ip));
      port = some (elim b.port as (λ o. Port) [ none ↦ num (pos 8742) | some p ↦ p ]);
      via = some (codes "beacon");
      identity_hash =
          if truthy identity_hex && not (str_eq identity_hex hash_hex)
          then some identity_hex
          else none;
      pubkey = if truthy (or_empty b.pubkey) then b.pubkey else none;
    })

-- The address that a beacon's peer gets, if it is let in.
unfoldable pub beacon_ip : World → Str → Str → Option (Option Str)
beacon_ip w ip source =
    let scope = scope_of w in
    if not (truthy scope)
    then some (non_empty (or_else ip source))
    else if truthy source && not (peer_in_scope (some source) (some scope))
    then none
    else if truthy ip && not (peer_in_scope (some ip) (some scope))
    then none
    else if truthy (or_else ip source) && peer_in_scope (some (or_else ip source)) (some scope)
    then some (some (or_else ip source))
    else none

-- A name that is only the start of the hash.
abbrev pub is_short_hash : Str → Str → Bool
is_short_hash h name = str_eq name (take 8 h) || str_eq (lower name) (lower (take 8 h))

-- The first stored name of the identity that is more than the start of the hash.
unfoldable pub known_name : Str → Str → Dict Row → Str
known_name identity_hex name [] = name
known_name identity_hex name ((k, r) ∷ d) =
    let rest = known_name identity_hex name d in
    let eh = normalize_hash r.hash in
    let en = strip (or_empty r.name) in
    if (truthy identity_hex
        && (str_eq (normalize_hash r.identity_hash) identity_hex || str_eq eh identity_hex))
      && (truthy en && (not (str_eq en (take 8 eh)) && not (str_eq (lower en) (lower (take 8 eh)))))
    then en
    else rest

abbrev pub beacon_name : Str → Str → Dict Row → Str → Str
beacon_name h identity_hex peers name =
    if not (truthy name) || is_short_hash h name then known_name identity_hex name peers else name

-- A serial row that no serial announce brought goes.
abbrev pub drop_unconfirmed : Str → PeerDiscovery → PeerDiscovery
drop_unconfirmed key d = elim (get key d.peers) as (λ o. PeerDiscovery) [
  | none ↦ d
  | some r ↦
      if elim r.serial_rns as (λ o. Bool) [ none ↦ false | some b ↦ b ]
      then d
      else remove_peer_entry key d
]

-- The row of a beacon with its address, its name and the time.
abbrev pub completed : World → Row → Str → Dict Row → Row
completed w peer identity_hex peers =
    let h = normalize_hash peer.hash in
    record peer {
      name =
          some (or_else (beacon_name h identity_hex peers (strip (or_empty peer.name))) (take 8 h));
    }

-- The calls of `_store_peer` and `_log_once` at the end; what the first returns is not looked at.
unfoldable pub accept_beacon : World → Bool → Row → Str → PeerDiscovery → PeerDiscovery
accept_beacon w registered peer identity_hex d =
    let h = normalize_hash peer.hash in
    let row = completed w peer identity_hex d.peers in
    let d₁ = drop_unconfirmed (storage_key (some h) (some (codes "serial"))) d in
    let d₂ = if registered then log_once w (codes "beacon-id:" ++ h ++ codes ":lan") d₁ else d₁ in
    log_once w (codes "beacon:" ++ h) (store_peer w row d₂).0

-- The address and the scope.
unfoldable pub place_beacon :
    World → Bool → Row → Str → PeerDiscovery → Option (Option Str) → PeerDiscovery × Bool
unfolding accept_beacon
place_beacon w registered peer identity_hex d none = (d, false)
place_beacon w registered peer identity_hex d (some ip) =
    let row = record peer { ip = ip; last_seen = some w.now } in
    if not (peer_allowed w d.peers row)
    then (d, false)
    else (accept_beacon w registered row identity_hex d, true)

-- Whether a hash or an identity is one of this machine's.
abbrev pub is_own : Str → Str → Str → Str → PeerDiscovery → Bool
is_own my_dest my_ident hash_hex identity_hex d =
    str_eq hash_hex my_dest
    || (str_eq hash_hex my_ident || (is_local_hash hash_hex d || is_local_hash identity_hex d))

-- `peer` of the beacon, unless it is this machine's.
unfoldable pub meet_beacon :
    World → Bool → Beacon → Str → Str → Str → PeerDiscovery → Option Row → PeerDiscovery × Bool
unfolding place_beacon
meet_beacon w registered b my_dest my_ident source d none = (d, false)
meet_beacon w registered b my_dest my_ident source d (some peer) =
    let identity_hex = normalize_hash b.identity_hash in
    if is_own my_dest my_ident (normalize_hash peer.hash) identity_hex d
    then (d, false)
    else place_beacon w registered peer identity_hex d
        (beacon_ip w (strip (or_else (or_empty b.ip) (or_empty peer.ip))) source)

-- The identities after the call: registered once if the beacon was turned down, and twice if not.
abbrev pub with_identities : {R : Type 0} → R → R → PeerDiscovery × Bool → PeerDiscovery × R × Bool
with_identities once twice (d, false) = (d, once, false)
with_identities once twice (d, true) = (d, twice, true)

-- `register` is `register_beacon_identity` with the identities that it reads and writes.
module _ {R : Type 0} (register : Beacon → R → R × Str) where
  -- What follows the tests of the switches, the app and the own identity. The identity is registered
  -- before the peer's record is made, and again once the peer is let in.
  unfoldable pub take_beacon :
      World → Beacon → Str → Str → Str → PeerDiscovery → R → PeerDiscovery × R × Bool
  unfolding meet_beacon
  take_beacon w b my_dest my_ident source d r =
      let (once, connect) = register b r in
      let (twice, again) = register b once in
      with_identities once twice (
        meet_beacon w (truthy again) b my_dest my_ident source d
          (peer_record_from_beacon connect b))

  -- `_on_beacon`
  unfoldable pub on_beacon :
      World
      → Beacon
      → Option Str
      → Option Str
      → Option Str
      → PeerDiscovery
      → R
      → PeerDiscovery × R × Bool
  unfolding take_beacon
  on_beacon w b my_dest_hash my_identity_hash source_ip d r =
      let my_dest = normalize_hash my_dest_hash in
      let my_ident =
        normalize_hash (some (or_else (or_empty my_identity_hash) (or_empty my_dest_hash))) in
      let identity_hex = normalize_hash b.identity_hash in
      if not d.running || not d.accept_peers
      then (d, r, false)
      else if not (str_eq b.app app_name)
      then (d, r, false)
      else if truthy identity_hex && (str_eq identity_hex my_ident || str_eq identity_hex my_dest)
      then (d, r, false)
      else take_beacon w b my_dest my_ident (strip (or_empty source_ip)) d r
