-- ===== src/Discovery/Store.antt =====
-- `_store_peer` of chatxz/core/discovery.py: how a discovered peer enters the table.
pub mod Address
pub mod Merge
pub mod Invariant
pub mod Found
use chatxz.Prelude.{
  Bool, true, false, not, ◌&&◌, ◌||◌, Option, none, some, List, [], ◌∷◌, if◌then◌else◌, take, Str,
  codes, str_eq, truthy, or_empty, or_else, strip, lower,
}
use chatxz.Prelude.Int.{pos}
use chatxz.Dict.{Dict, get, pop, put}
use chatxz.Scope.{peer_in_scope}
use chatxz.Contacts.Record.{Port, num}
use chatxz.Net.Dual.{is_empty}
use chatxz.Net.Peers.{register_udp_peer_ip}
use chatxz.Discovery.State.{
  Row, Notice, evicted, seen, PeerDiscovery, World, empty_row, normalize_hash, scope_of, row_via,
  row_ip, is_serial, row_key, storage_key, is_local_hash,
}
use chatxz.Discovery.Scope.{attach_peer_ip, sanitize_peer_scope, peer_allowed, port_or}
use chatxz.Discovery.Remove.{hash_or_key, remove_peer_entry}
use chatxz.Discovery.Probing.{reset_peer_probe_state, reset_row, keys_of}

abbrev pub bool_eq : Bool → Bool → Bool
bool_eq true b = b
bool_eq false b = not b

abbrev pub same_text : Option Str → Option Str → Bool
same_text a b = truthy (or_empty a) && str_eq (or_empty b) (or_empty a)

-- `same_host` for the new peer's address
abbrev same_host : Row → Row → Bool
same_host peer existing = truthy (row_ip peer) && str_eq (or_empty existing.ip) (row_ip peer)

abbrev same_ident : Row → Row → Bool
same_ident peer existing =
    truthy (normalize_hash peer.identity_hash)
    && str_eq (normalize_hash existing.identity_hash) (normalize_hash peer.identity_hash)

abbrev stripped_name : Row → Str
stripped_name r = strip (or_empty r.name)

abbrev same_name : Row → Row → Bool
same_name peer existing =
    truthy (stripped_name peer)
    && (truthy (stripped_name existing)
        && (str_eq (stripped_name peer) (stripped_name existing)
            && (not (str_eq (stripped_name peer) (take 8 (normalize_hash peer.hash)))
                && not (str_eq (stripped_name existing) (take 8 (normalize_hash existing.hash))))))

-- `{"serial", "rns"} & {new_via, existing_via}`
abbrev is_rns_or_serial : Row → Bool
is_rns_or_serial r = is_serial r || str_eq (row_via r) (codes "rns")

-- Whether a row gives way to the new peer.
unfoldable pub is_superseded : World → Row → Row → Bool
is_superseded w peer existing =
    if str_eq (normalize_hash existing.hash) (normalize_hash peer.hash)
    then false
    else if not (bool_eq (is_serial existing) (is_serial peer))
    then false
    else if same_ident peer existing || same_text peer.pubkey existing.pubkey
    then true
    else if w.usb && (same_name peer existing && not (same_host peer existing))
    then false
    else if same_name peer existing
        && ((is_rns_or_serial peer || is_rns_or_serial existing)
            && (same_ident peer existing || same_text peer.pubkey existing.pubkey))
    then false
    else same_host peer existing || same_name peer existing

-- The hashes and the table after the loop of `_evict_superseded_peers`.
unfoldable pub evict_rows : World → Row → Dict Row → List Str × Dict Row
evict_rows w peer [] = ([], [])
evict_rows w peer ((k, r) ∷ d) =
    let (hashes, kept) = evict_rows w peer d in
    if is_superseded w peer r
    then (or_else (normalize_hash r.hash) k ∷ hashes, kept)
    else (hashes, (k, r) ∷ kept)

-- `_evict_superseded_peers`: the hashes that went, the peer with its address, and the table.
unfoldable pub evict_superseded_peers : World → Row → Dict Row → List Str × Row × Dict Row
evict_superseded_peers w peer peers =
    let p = if is_serial peer then peer else attach_peer_ip (scope_of w) peers peer in
    let (hashes, kept) = evict_rows w p peers in (hashes, p, kept)

abbrev notify_evicted : List Str → Row → List Notice → List Notice
notify_evicted [] peer notices = notices
notify_evicted (h ∷ hs) peer notices = evicted (h ∷ hs) (some peer) ∷ notices

-- Every row of the hash goes, under whatever key it stands.
unfoldable pub remove_hash : Str → List Str → PeerDiscovery → PeerDiscovery
remove_hash h [] d = d
remove_hash h (k ∷ ks) d =
    let hit = elim (get k d.peers) as (λ o. Bool) [
      | none ↦ false
      | some r ↦ str_eq (normalize_hash r.hash) h
    ] in
    remove_hash h ks (if hit then remove_peer_entry k d else d)

-- `name == prefix or name.lower() == prefix.lower()`, or no name
abbrev pub is_hash_name : Str → Str → Bool
is_hash_name h name =
    not (truthy name) || (str_eq name (take 8 h) || str_eq (lower name) (lower (take 8 h)))

-- What became of an address: the row, or `none` if the row has to go.
unfoldable pub update_ip : World → Row → Row → Option Row
update_ip w peer existing =
    let admitted =
      not (truthy (scope_of w)) || peer_in_scope (some (row_ip peer)) (some (scope_of w)) in
    if truthy (row_ip peer) && not (str_eq (row_ip peer) (row_ip existing))
    then (if admitted
        then some (record existing {
          ip = some (row_ip peer);
          port =
              port_or peer.port
                (elim existing.port as (λ o. Port) [ none ↦ num (pos 8742) | some q ↦ q ]);
        })
        else none)
    else if truthy (or_empty peer.ip) && (not (truthy (or_empty existing.ip)) && admitted)
    then some (record existing { ip = peer.ip; port = port_or peer.port (num (pos 8742)) })
    else some existing

abbrev fill_text : Option Str → Option Str → Option Str
fill_text new old = if truthy (or_empty new) && not (truthy (or_empty old)) then new else old

-- What the old row takes from the new one besides the address.
unfoldable pub update_rest : World → Str → Row → Row → Row
update_rest w h peer existing = record existing {
  identity_hash = fill_text peer.identity_hash existing.identity_hash;
  pubkey = fill_text peer.pubkey existing.pubkey;
  name =
      if truthy (stripped_name peer) && not (is_hash_name h (stripped_name peer))
      then some (stripped_name peer)
      else existing.name;
  last_seen = elim peer.last_seen [ none ↦ some w.now | some t ↦ some t ];
}

-- The end of `_store_peer`, once the row stands in the table.
unfoldable pub finish_store : World → Str → Row → PeerDiscovery → PeerDiscovery
finish_store w h row d =
    let d₁ =
      if truthy (or_empty row.ip)
      then record d { net = register_udp_peer_ip row.ip d.net }
      else d in
    let d₂ = reset_peer_probe_state w (some h) d₁ in
    record d₂ { notices = seen (reset_row w h row) ∷ d₂.notices }

unfoldable pub put_row : World → Str → Str → Row → PeerDiscovery → PeerDiscovery × Bool
put_row w h key row d = (finish_store w h row (record d { peers = put key row d.peers }), true)

-- Where there is a row under the key already.
unfoldable pub merge_row :
    World → Str → Str → Row → Option Row → PeerDiscovery → PeerDiscovery × Bool
unfolding put_row
merge_row w h key peer none d = (remove_peer_entry key d, false)
merge_row w h key peer (some existing) d = put_row w h key (update_rest w h peer existing) d

-- `existing = self.peers.get(storage_key)` and what follows
unfoldable pub place_row : World → Str → Row → PeerDiscovery → PeerDiscovery × Bool
unfolding merge_row put_row
place_row w h peer d =
    let key = row_key peer in
    if not (truthy key) then (d, false) else elim (get key d.peers) [
      | none ↦ put_row w h key peer d
      | some existing ↦ merge_row w h key peer (update_ip w peer existing) d
    ]

-- A peer outside the scope takes its rows with it.
abbrev pub refuse : Str → Row → PeerDiscovery → PeerDiscovery
refuse h peer d = let d' = remove_peer_entry (row_key peer) d in remove_hash h (keys_of d'.peers) d'

-- `peer["hash"] = hash_hex`, and `setdefault("serial_rns", True)`
abbrev pub prepared : Str → Row → Row
prepared h peer = record peer {
  hash = some h;
  serial_rns =
      if is_serial peer
      then elim peer.serial_rns [ none ↦ some true | some b ↦ some b ]
      else peer.serial_rns;
}

unfoldable pub admit : World → Str → Row → PeerDiscovery → PeerDiscovery × Bool
admit w h peer d =
    let p = if is_serial peer then record peer { ip = none } else peer in
    let (hashes, p', kept) = evict_superseded_peers w p d.peers in
    place_row w h p' (record d { peers = kept; notices = notify_evicted hashes p' d.notices })

unfoldable pub store_peer : World → Row → PeerDiscovery → PeerDiscovery × Bool
unfolding admit
store_peer w peer d =
    let h = normalize_hash peer.hash in
    if not (truthy h) || is_local_hash h d
    then (d, false)
    else if truthy (normalize_hash peer.identity_hash)
        && is_local_hash (normalize_hash peer.identity_hash) d
    then (d, false)
    else elim (sanitize_peer_scope w d.peers (prepared h peer)) [
      | none ↦ (refuse h (prepared h peer) d, false)
      | some p ↦ admit w h p d
    ]

-- `register_link_peer`
unfoldable pub register_link_peer :
    World → Option Str → Option Str → Option Str → Option Str → PeerDiscovery → PeerDiscovery
register_link_peer w hash name via ip d =
    let h = normalize_hash hash in
    let label = or_else (strip (or_else (or_empty name) (take 8 h))) (take 8 h) in
    let peer = record empty_row {
      hash = some h;
      name = some label;
      via = via;
      last_seen = some w.now;
      ip = if truthy (or_empty ip) then some (strip (or_empty ip)) else none;
    } in
    if not (truthy h)
    then d
    else if not (peer_allowed w d.peers peer)
    then d
    else (store_peer w peer d).0
