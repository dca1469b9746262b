-- ===== src/Discovery/Lifecycle.antt =====
-- `start`, `stop`, `set_local_hashes` and the switches of chatxz/core/discovery.py.
pub mod Laws
pub mod Rescope
use chatxz.Discovery.State.{Row}
use chatxz.Prelude.{
  Bool, true, false, ◌||◌, Option, none, some, List, [], ◌∷◌, if◌then◌else◌, Str, str_mem,
}
use chatxz.Dict.{get}
use chatxz.Net.Dual.{is_empty}
use chatxz.Discovery.State.{PeerDiscovery, normalize_hash}
use chatxz.Discovery.Remove.{hash_set, remove_peer_entry}
use chatxz.Discovery.Probing.{keys_of}

-- `rh in clean or ih in clean`; an absent row is the empty dict.
abbrev pub is_mine : List Str → Option Row → Bool
is_mine clean none = str_mem [] clean
is_mine clean (some r) =
    str_mem (normalize_hash r.hash) clean || str_mem (normalize_hash r.identity_hash) clean

-- The rows of one's own hashes go.
unfoldable pub drop_own : List Str → List Str → PeerDiscovery → PeerDiscovery
drop_own clean [] d = d
drop_own clean (k ∷ ks) d =
    drop_own clean ks (if is_mine clean (get k d.peers) then remove_peer_entry k d else d)

-- `set_local_hashes`
unfoldable pub set_local_hashes : List (Option Str) → PeerDiscovery → PeerDiscovery
set_local_hashes hashes d =
    let clean = hash_set hashes in
    let d' = record d { local_hashes = clean } in
    if is_empty clean then d' else drop_own clean (keys_of d'.peers) d'

-- `clear_peers`
abbrev pub clear_peers : PeerDiscovery → PeerDiscovery
clear_peers d = record d { peers = []; last_log = [] }

-- `start` and `stop`
abbrev pub start : PeerDiscovery → PeerDiscovery
start d = record d { running = true; accept_peers = false }

abbrev pub stop : PeerDiscovery → PeerDiscovery
stop d = record d { running = false }

-- `enable_discovery` and `disable_discovery`
abbrev pub enable_discovery : Bool → PeerDiscovery → PeerDiscovery
enable_discovery clear d =
    let d' = record d { accept_peers = true } in if clear then clear_peers d' else d'

abbrev pub disable_discovery : PeerDiscovery → PeerDiscovery
disable_discovery d = clear_peers (record d { accept_peers = false })
