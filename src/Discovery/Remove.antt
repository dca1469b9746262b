-- ===== src/Discovery/Remove.antt =====
-- How rows leave the table of chatxz/core/discovery.py.
pub mod Laws
use chatxz.Prelude.{
  ℕ, ◌+◌, Bool, false, not, ◌&&◌, ◌||◌, Option, none, some, List, [], ◌∷◌, ◌++◌, if◌then◌else◌, Str,
  codes, truthy, or_empty, or_else, str_mem, strip,
}
use chatxz.Dict.{Dict, get, has_key, pop}
use chatxz.Scope.{same_lan_scope}
use chatxz.Net.Hash.{from_hex, raw}
use chatxz.Net.Dual.{is_empty}
use chatxz.Net.Iface.{Iface, serial, fam_eq, interface_family}
use chatxz.Net.Paths.{announce_packet_receiving_interface}
use chatxz.Net.Peers.{unregister_udp_peer_ip}
use chatxz.Net.State.{Net}
use chatxz.Discovery.State.{
  Row, Notice, evicted, PeerDiscovery, World, normalize_hash, is_serial, row_ip,
}

-- `normalize_hash(row.get("hash") or key)`
abbrev pub hash_or_key : Str → Row → Str
hash_or_key key r = normalize_hash (some (or_else (or_empty r.hash) key))

-- `self._last_log.pop(...)` for a hash
abbrev pub forget_log : Str → Dict ℕ → Dict ℕ
forget_log h log = pop (codes "beacon-id:" ++ h) (pop (codes "beacon:" ++ h) (pop h log))

-- The key under which `_remove_peer_entry` finds a row, if it does.
unfoldable pub entry_key : Str → Dict Row → Option Str
entry_key storage_key peers =
    let key = strip storage_key in
    if not (truthy key)
    then none
    else if has_key key peers
    then some key
    else if truthy (normalize_hash (some key)) && has_key (normalize_hash (some key)) peers
    then some (normalize_hash (some key))
    else none

-- Dropping the row at a key that is there.
unfoldable pub drop_entry : Str → Row → PeerDiscovery → PeerDiscovery
drop_entry key entry d = record d {
  peers = pop key d.peers;
  net = if truthy (or_empty entry.ip) then unregister_udp_peer_ip entry.ip d.net else d.net;
  last_log = forget_log (hash_or_key key entry) d.last_log;
  notices = evicted (hash_or_key key entry ∷ []) none ∷ d.notices;
}

unfoldable pub drop_found : Option Str → PeerDiscovery → PeerDiscovery
drop_found none d = d
drop_found (some key) d = elim (get key d.peers) [ none ↦ d | some entry ↦ drop_entry key entry d ]

-- `_remove_peer_entry`
unfoldable pub remove_peer_entry : Str → PeerDiscovery → PeerDiscovery
unfolding drop_found
remove_peer_entry storage_key d = drop_found (entry_key storage_key d.peers) d

-- `for key in list(self.peers.keys()): if <doomed>: <extra>; del self.peers[key]; removed += 1`
unfoldable pub purge :
    (Str → Row → Bool)
    → (Str → Row → PeerDiscovery → PeerDiscovery)
    → Dict Row
    → PeerDiscovery
    → ℕ
    → PeerDiscovery × ℕ
purge doomed extra [] d removed = (d, removed)
purge doomed extra ((k, r) ∷ items) d removed =
    purge doomed extra items
      (if doomed k r then (let d' = extra k r d in record d' { peers = pop k d'.peers }) else d)
      (if doomed k r then removed + 1 else removed)

abbrev pub is_out_of_scope : Str → Str → Row → Bool
is_out_of_scope scope k r =
    not (is_serial r) && (truthy (row_ip r) && not (same_lan_scope (row_ip r) scope))

abbrev pub unregister_row : Str → Row → PeerDiscovery → PeerDiscovery
unregister_row k r d = record d { net = unregister_udp_peer_ip (some (row_ip r)) d.net }

-- `purge_out_of_scope`
unfoldable pub purge_out_of_scope : Option Str → PeerDiscovery → PeerDiscovery × ℕ
purge_out_of_scope scope_ip d =
    let scope = strip (or_empty scope_ip) in
    if not (truthy scope) then (d, 0) else purge (is_out_of_scope scope) unregister_row d.peers d 0

abbrev pub is_ghost : Str → Row → Bool
is_ghost k r = not (is_serial r) && not (truthy (row_ip r))

abbrev pub leave : Str → Row → PeerDiscovery → PeerDiscovery
leave k r d = d

-- `purge_ipless_non_serial`
unfoldable pub purge_ipless_non_serial : PeerDiscovery → PeerDiscovery × ℕ
purge_ipless_non_serial d = purge is_ghost leave d.peers d 0

-- The interface that received the latest announce of a hash, if the hash is hexadecimal and not empty.
abbrev pub announced_on : Str → Net → Option Iface
announced_on h n = elim (from_hex h) as (λ o. Option Iface) [
  | none ↦ none
  | some [] ↦ none
  | some (b ∷ bs) ↦ announce_packet_receiving_interface (raw (b ∷ bs)) n
]

abbrev pub came_by_other : Option Iface → Bool
came_by_other none = false
came_by_other (some i) = not (fam_eq (interface_family (some i)) serial)

abbrev pub is_misclassified : Net → Str → Row → Bool
is_misclassified n k r = is_serial r && came_by_other (announced_on (hash_or_key k r) n)

abbrev pub forget_row : Str → Row → PeerDiscovery → PeerDiscovery
forget_row k r d = record d { last_log = pop (hash_or_key k r) d.last_log }

-- `purge_misclassified_serial`
unfoldable pub purge_misclassified_serial : PeerDiscovery → PeerDiscovery × ℕ
purge_misclassified_serial d = purge (is_misclassified d.net) forget_row d.peers d 0

abbrev pub is_serial_row : Str → Row → Bool
is_serial_row k r = is_serial r

-- `purge_offline_serial_peers`
unfoldable pub purge_offline_serial_peers : World → PeerDiscovery → PeerDiscovery × ℕ
purge_offline_serial_peers w d =
    if w.usb then (d, 0) else purge is_serial_row forget_row d.peers d 0

-- The set of normal forms that are not empty.
unfoldable pub hash_set : List (Option Str) → List Str
hash_set [] = []
hash_set (h ∷ hs) =
    let rest = hash_set hs in if truthy (normalize_hash h) then normalize_hash h ∷ rest else rest

-- `peer_hashes & targets`
abbrev pub is_target : List Str → Str → Row → Bool
is_target targets k r =
    str_mem (normalize_hash (some k)) targets
    || (str_mem (normalize_hash r.hash) targets || str_mem (normalize_hash r.identity_hash) targets)

unfoldable pub forget_logs : List Str → Dict ℕ → Dict ℕ
forget_logs [] log = log
forget_logs (h ∷ hs) log = forget_logs hs (forget_log h log)

-- `purge_hashes`
unfoldable pub purge_hashes : List (Option Str) → PeerDiscovery → PeerDiscovery × ℕ
purge_hashes hashes d =
    let targets = hash_set hashes in
    if is_empty targets
    then (d, 0)
    else (let (d', removed) = purge (is_target targets) leave d.peers d 0 in
        (record d' { last_log = forget_logs targets d'.last_log }, removed))
