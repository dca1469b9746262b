-- ===== src/Examples/Discovered.antt =====
-- The table of discovery.py on a machine with the address 10.0.0.7.
use chatxz.Prelude.{
  ◌≡◌, refl, true, false, not, ◌&&◌, ◌||◌, none, some, List, [], ◌∷◌, Str, codes, str_eq, truthy,
  or_empty, str_mem, without, is_space, lstrip, rstrip, strip, lower, split,
}
use chatxz.Dict.{has_key}
use chatxz.Discovery.History.{Call, run, started, enabled, announced, probed, scope_purged}
use chatxz.Discovery.History.Laws.{run-IsSound}
use chatxz.Discovery.Invariant.{IsFit, IsSound}
use chatxz.Discovery.Lifecycle.{set_local_hashes}
use chatxz.Discovery.Lifecycle.Laws.{set_local_hashes-IsSound}
use chatxz.Discovery.Lifecycle.Rescope.{rescoped-IsSound}
use chatxz.Discovery.Receive.{Announce}
use chatxz.Discovery.Remove.{purge_out_of_scope, purge_ipless_non_serial, hash_set}
use chatxz.Discovery.Scope.{sanitize_peer_scope, peer_allowed}
use chatxz.Discovery.State.{
  is_local_hash, Row, PeerDiscovery, World, empty_row, normalize_hash, storage_key, via_part,
  scope_of,
}
use chatxz.Discovery.State.Keys.{is_plain}
use chatxz.Discovery.Store.{prepared, store_peer}
use chatxz.Discovery.Store.Found.{IsFound, store_peer-IsFound}
use chatxz.Examples.Machine.{host}
use chatxz.Net.State.{Net}
use chatxz.Scope.{peer_in_scope}

abbrev quiet_net : Net
quiet_net = record {
  roots = [];
  path_table = [];
  announces = [];
  pins = [];
  known_ips = [];
  requests = [];
}

abbrev pub scope : Str
scope = codes "10.0.0.7"

abbrev pub world : World
world = record { now = 1000; scope_ip = some (codes "10.0.0.7"); usb = true }

abbrev pub old_row : Row
old_row = record empty_row {
  hash = some (codes "aa");
  via = some (codes "rns");
  ip = some (codes "10.0.0.9");
  last_seen = some 900;
}

abbrev pub serial_row : Row
serial_row = record empty_row {
  hash = some (codes "bb");
  via = some (codes "serial");
  last_seen = some 900;
  serial_rns = some true;
}

abbrev fresh : PeerDiscovery
fresh = record {
  peers = [];
  running = false;
  accept_peers = false;
  last_log = [];
  local_hashes = [];
  net = quiet_net;
  notices = [];
}

abbrev pub known : PeerDiscovery
known = record fresh { peers = (codes "aa:lan", old_row) ∷ (codes "bb:serial", serial_row) ∷ [] }

fresh-IsSound : IsSound scope [] fresh
fresh-IsSound = record { rows = tt; distinct = tt; locals_same = refl }

world_scope : scope_of world ≡ scope
unfolding strip lstrip rstrip is_space
world_scope = refl

old_row-IsFit : IsFit scope [] (codes "aa:lan") old_row
unfolding storage_key normalize_hash lower strip without via_part str_eq str_mem peer_in_scope split
old_row-IsFit = record { keyed = refl; real = refl; plain = refl; placed = refl; foreign = refl }

serial_row-IsFit : IsFit scope [] (codes "bb:serial") serial_row
unfolding storage_key normalize_hash lower strip without via_part str_eq str_mem
serial_row-IsFit = record { keyed = refl; real = refl; plain = refl; placed = refl; foreign = refl }

pub known-IsSound : IsSound scope [] known
unfolding has_key str_eq
known-IsSound = record {
  rows = (old_row-IsFit, (serial_row-IsFit, tt));
  distinct = (refl, (refl, tt));
  locals_same = refl;
}

abbrev pub announce : Announce
announce = record {
  destination = 170 ∷ [];
  hexrep = codes "<cc>";
  identity = none;
  public_key = none;
  app_data =
      some (record { app = codes "chatxz"; name = codes "Ann"; ip = some (codes "10.0.0.12") });
}

abbrev calls : List Call
calls =
    record { host = host; world = world; event = started }
    ∷ record { host = host; world = world; event = enabled false }
    ∷ record { host = host; world = world; event = announced announce }
    ∷ record { host = host; world = world; event = probed (some (codes "cc")) none false }
    ∷ record { host = host; world = world; event = scope_purged (some (codes "10.0.0.7")) }
    ∷ []

run-IsSound_example : IsSound scope [] (run calls fresh)
run-IsSound_example =
    run-IsSound scope [] calls fresh
      (
        (world_scope, refl),
        (
          (world_scope, refl),
          ((world_scope, refl), ((world_scope, refl), ((world_scope, refl), tt))),
        ),
      )
      fresh-IsSound

set_local_hashes-IsSound_example :
    IsSound scope
      (hash_set (some (codes "<bb>") ∷ []))
      (set_local_hashes (some (codes "<bb>") ∷ []) known)
set_local_hashes-IsSound_example =
    set_local_hashes-IsSound scope [] (some (codes "<bb>") ∷ []) known known-IsSound

new_scope_is_real : truthy (strip (or_empty (some (codes "192.168.1.5")))) ≡ true
unfolding strip lstrip rstrip is_space
new_scope_is_real = refl

rescoped-IsSound_example :
    IsSound
      (strip (or_empty (some (codes "192.168.1.5"))))
      []
      (purge_ipless_non_serial (purge_out_of_scope (some (codes "192.168.1.5")) known).0).0
rescoped-IsSound_example =
    rescoped-IsSound scope [] (some (codes "192.168.1.5")) known new_scope_is_real known-IsSound

abbrev new_row : Row
new_row = record empty_row {
  hash = some (codes "<CC>");
  via = some (codes "beacon");
  ip = some (codes "10.0.0.12");
  last_seen = some 1000;
}

new_row_is_plain : is_plain new_row.via ≡ true
unfolding lower strip str_eq
new_row_is_plain = refl

new_row_is_strange :
    (not (truthy (normalize_hash new_row.hash))
      || is_local_hash (normalize_hash new_row.hash) known)
    ≡ false
unfolding normalize_hash lower strip without str_mem
new_row_is_strange = refl

new_row_has_no_identity :
    (truthy (normalize_hash new_row.identity_hash)
      && is_local_hash (normalize_hash new_row.identity_hash) known)
    ≡ false
unfolding normalize_hash lower strip without str_mem
new_row_has_no_identity = refl

new_row_is_allowed :
    peer_allowed world known.peers (prepared (normalize_hash new_row.hash) new_row) ≡ true
unfolding sanitize_peer_scope str_eq strip peer_in_scope split
new_row_is_allowed = refl

store_peer-IsFound_example :
    IsFound
      (storage_key new_row.hash new_row.via)
      (normalize_hash new_row.hash)
      (store_peer world new_row known)
store_peer-IsFound_example =
    store_peer-IsFound scope [] world world_scope new_row known new_row_is_plain known-IsSound
      new_row_is_strange new_row_has_no_identity new_row_is_allowed
