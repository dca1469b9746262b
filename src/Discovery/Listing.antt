-- ===== src/Discovery/Listing.antt =====
-- `get_peers` of chatxz/core/discovery.py, the peers that the user is shown.
pub mod Laws
use chatxz.Discovery.State.{scope_of}
use chatxz.Prelude.{
  ◌+◌, Bool, true, false, not, ◌&&◌, ◌||◌, Option, none, some, List, [], ◌∷◌, ◌++◌, ltb, leb,
  if◌then◌else◌, is_some, keep, all, Str, str_eq, truthy, or_empty, str_mem,
}
use chatxz.Dict.{Dict, get, put}
use chatxz.Scope.{same_lan_scope}
use chatxz.Discovery.State.{
  Row, PeerDiscovery, World, normalize_hash, row_via, row_ip, is_serial, rows_of,
}
use chatxz.Discovery.Scope.{peer_viable}
use chatxz.Discovery.Remove.{purge, leave}
use chatxz.Discovery.Ranking.{
  seen_at, prefer_peer, same_ip_preferred, same_peer_identity, peer_dedup_key,
}

abbrev is_verified : Row → Bool
is_verified r = truthy (or_empty r.pubkey)

-- `_same_subnet`
abbrev same_subnet : Str → Str → Bool
same_subnet ip_a ip_b = not (truthy ip_a) || (not (truthy ip_b) || same_lan_scope ip_a ip_b)

-- `deduped[key] = ...` where there is a row under the key already.
collide : World → Option Str → Str → Row → Row → Dict Row → Dict Row
collide w scope_ip key peer existing deduped =
    if str_eq (normalize_hash existing.hash) (normalize_hash peer.hash)
    then put key (prefer_peer w scope_ip existing peer) deduped
    else if not (str_eq (row_via existing) (row_via peer))
    then put (key ++ 58 ∷ normalize_hash peer.hash) peer deduped
    else if same_peer_identity existing peer
    then put key (prefer_peer w scope_ip existing peer) deduped
    else if is_verified peer && not (is_verified existing)
    then put key peer deduped
    else if is_verified existing && not (is_verified peer)
    then deduped
    else if leb (seen_at existing) (seen_at peer)
    then put key peer deduped
    else deduped

unfoldable pub dedup_rows : World → Option Str → List Row → Dict Row → Dict Row
unfolding collide
dedup_rows w scope_ip [] deduped = deduped
dedup_rows w scope_ip (peer ∷ rows) deduped =
    let skip =
      truthy (or_empty scope_ip)
      && (truthy (or_empty peer.ip) && not (same_subnet (or_empty peer.ip) (or_empty scope_ip))) in
    let key = peer_dedup_key peer in
    let added = elim (get key deduped) as (λ o. Dict Row) [
      | none ↦ put key peer deduped
      | some existing ↦ collide w scope_ip key peer existing deduped
    ] in
    dedup_rows w scope_ip rows (if skip then deduped else added)

-- `has_lan_row`
unfoldable pub has_lan_row : Str → List Row → Bool
has_lan_row h [] = false
has_lan_row h (r ∷ rows) =
    (str_eq (normalize_hash r.hash) h && not (is_serial r)) || has_lan_row h rows

abbrev is_confirmed : Row → Bool
is_confirmed r = elim r.serial_rns as (λ o. Bool) [ none ↦ false | some b ↦ b ]

-- Whether a serial row is shown.
abbrev pub shows_serial : World → List Row → Row → Bool
shows_serial w all r = w.usb && (is_confirmed r || not (has_lan_row (normalize_hash r.hash) all))

-- `collapsed[ip] = ...`
abbrev pub collapse_one : World → Option Str → Row → Dict Row → Dict Row
collapse_one w scope_ip r collapsed = elim (get (row_ip r) collapsed) as (λ o. Dict Row) [
  | none ↦ put (row_ip r) r collapsed
  | some existing ↦ put (row_ip r) (same_ip_preferred w scope_ip r existing) collapsed
]

-- The rows without an address, and the others by their addresses.
unfoldable pub collapse : World → Option Str → List Row → List Row → Dict Row → List Row × Dict Row
collapse w scope_ip all [] collapsed = ([], collapsed)
collapse w scope_ip all (r ∷ rows) collapsed =
    let (no_ip, rest) = collapse w scope_ip all rows collapsed in
    let (no_ip', rest') = collapse w scope_ip all rows (collapse_one w scope_ip r collapsed) in
    if is_serial r
    then (if shows_serial w all r then (record r { ip = none } ∷ no_ip, rest) else (no_ip, rest))
    else if truthy (row_ip r)
    then (no_ip', rest')
    else (no_ip, rest)

-- `now - p["last_seen"] > ttl`, for a row that has the key
abbrev pub is_expired : World → Str → Row → Bool
is_expired w k r = ltb (seen_at r + 300) w.now

-- Every row has the key "last_seen"; if not, the code raises a KeyError.
unfoldable pub all_dated : Dict Row → Bool
all_dated [] = true
all_dated ((k, r) ∷ d) = is_some r.last_seen && all_dated d

-- The list that is shown.
unfoldable pub shown : World → Option Str → Dict Row → List Row
shown w scope_ip peers =
    let all = rows_of (dedup_rows w scope_ip (rows_of peers) []) in
    let (no_ip, collapsed) = collapse w scope_ip all all [] in
    keep (peer_viable w scope_ip) (no_ip ++ rows_of collapsed)

-- `get_peers`; `none` is the KeyError.
unfoldable pub get_peers : World → Option Str → PeerDiscovery → PeerDiscovery × Option (List Row)
get_peers w scope_ip d =
    let d' = (purge (is_expired w) leave d.peers d 0).0 in
    if not d.accept_peers
    then (d, some [])
    else if not (all_dated d.peers)
    then (d, none)
    else (d', some (shown w scope_ip d'.peers))

-- The hashes and identities of a list of rows.
unfoldable pub row_hashes : List Row → List Str
row_hashes [] = []
row_hashes (r ∷ rows) =
    let rest = row_hashes rows in
    let idents =
      if truthy (normalize_hash r.identity_hash)
      then normalize_hash r.identity_hash ∷ rest
      else rest in
    if truthy (normalize_hash r.hash) then normalize_hash r.hash ∷ idents else idents

abbrev hashes_of : PeerDiscovery × Option (List Row) → PeerDiscovery × Option (List Str)
hashes_of (d, none) = (d, none)
hashes_of (d, some rows) = (d, some (row_hashes rows))

-- `current_hashes`
unfoldable pub current_hashes : World → PeerDiscovery → PeerDiscovery × Option (List Str)
current_hashes w d = hashes_of (get_peers w none d)

abbrev holds : Str → PeerDiscovery × Option (List Str) → PeerDiscovery × Option Bool
holds h (d, none) = (d, none)
holds h (d, some hashes) = (d, some (str_mem h hashes))

-- `peer_is_current`; a scope that is None is `self._scope_ip()`.
unfoldable pub peer_is_current :
    World → Option Str → Option Str → PeerDiscovery → PeerDiscovery × Option Bool
peer_is_current w peer_hash scope_ip d =
    let h = normalize_hash peer_hash in
    let scope =
      if is_some scope_ip
      then scope_ip
      else if truthy (scope_of w)
      then some (scope_of w)
      else none in
    if not (truthy h) then (d, some false) else holds h (hashes_of (get_peers w scope d))
