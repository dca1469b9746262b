-- ===== src/Examples/Watched.antt =====
-- Probes, announces, beacons and the listing of discovery.py at the table of Examples/Discovered.
use chatxz.Prelude.{
  ◌≡◌, refl, ◌⊎◌, true, false, none, some, List, [], ◌∷◌, Str, codes, str_eq, truthy, str_mem,
  starts_with, contains, without, strip, lower, split,
}
use chatxz.Prelude.Int.{parse_int}
use chatxz.Dict.{Dict, get}
use chatxz.Dict.Items.{AllItems}
use chatxz.Dict.Sweep.{spared}
use chatxz.Discovery.Beacons.{peer_record_from_beacon, beacon_ip, Beacon, on_beacon}
use chatxz.Discovery.Beacons.Laws.{on_beacon_refused}
use chatxz.Discovery.Listing.{all_dated, get_peers}
use chatxz.Discovery.Listing.Laws.{IsListing, get_peers-IsListing}
use chatxz.Discovery.Probing.{has_hash, is_silent, Limits, purge_stale_probes, is_stale_row}
use chatxz.Discovery.Probing.Laws.{purge_stale_probes_lem}
use chatxz.Discovery.Probing.Silence.{failed_probes, silent_peer_is_purged}
use chatxz.Discovery.Ranking.{dedupe_identities}
use chatxz.Discovery.Ranking.Settled.{NoUsb, dedupe_identities_idle}
use chatxz.Discovery.Receive.{announce_ip, Announce, on_announce}
use chatxz.Discovery.Receive.Laws.{is_crossing, on_announce_crossing}
use chatxz.Discovery.Remove.{purge_misclassified_serial, hash_or_key}
use chatxz.Discovery.Remove.Laws.{purge_misclassified_serial_lem}
use chatxz.Discovery.State.{is_serial, Row, PeerDiscovery, normalize_hash}
use chatxz.Examples.Discovered.{serial_row, scope, world, old_row, known, announce, known-IsSound}
use chatxz.Examples.Identities.{far_beacon, reticulum}
use chatxz.Examples.Machine.{udp_iface, host}
use chatxz.Identity.{connect_hash, Known, register_beacon_identity}
use chatxz.Net.Hash.{hex_value, from_hex, dest_key_bytes, raw}
use chatxz.Net.Iface.{interface_family}
use chatxz.Net.Paths.{announce_packet_receiving_interface}
use chatxz.Scope.{peer_in_scope}

abbrev far_announce : Announce
far_announce = record announce {
  app_data =
      some (record { app = codes "chatxz"; name = codes "Ann"; ip = some (codes "8.8.8.8") });
}

abbrev limits : Limits
limits = record { max_rtt_ms = 10000; stale_s = 30; max_failures = 5 }

aa_is_real : truthy (normalize_hash (some (codes "aa"))) ≡ true
unfolding normalize_hash lower strip without
aa_is_real = refl

aa_is_there : get (codes "aa:lan") known.peers ≡ some old_row
unfolding get str_eq
aa_is_there = refl

aa_is_mine : has_hash (normalize_hash (some (codes "aa"))) old_row ≡ true
unfolding normalize_hash str_eq lower strip without
aa_is_mine = refl

aa_is_lan : is_serial old_row ≡ false
unfolding strip str_eq
aa_is_lan = refl

aa_is_silent : is_silent world 30 old_row ≡ true
unfolding is_silent
aa_is_silent = refl

silent_peer_is_purged_example :
    get
      (codes "aa:lan")
      (purge_stale_probes world limits (failed_probes world (some (codes "aa")) 5 known)).0.peers
    ≡ none
silent_peer_is_purged_example =
    silent_peer_is_purged scope [] world limits (some (codes "aa")) known (codes "aa:lan") old_row
      refl known-IsSound aa_is_real aa_is_there aa_is_mine aa_is_lan aa_is_silent

purge_stale_probes_lem_example :
    get (codes "aa:lan") (purge_stale_probes world limits known).0.peers
    ≡ spared
        (λ j r. is_stale_row world limits r)
        (codes "aa:lan")
        (get (codes "aa:lan") known.peers)
purge_stale_probes_lem_example =
    purge_stale_probes_lem scope [] world limits known (codes "aa:lan") known-IsSound

far_announce_crosses :
    is_crossing world
      (announce_packet_receiving_interface (raw far_announce.destination) known.net)
      (announce_ip far_announce.app_data)
    ≡ true
unfolding strip interface_family announce_packet_receiving_interface dest_key_bytes get
    peer_in_scope split str_eq parse_int
far_announce_crosses = refl

on_announce_crossing_example : on_announce host world far_announce known ≡ known
on_announce_crossing_example =
    on_announce_crossing host world far_announce known far_announce_crosses

abbrev listening : PeerDiscovery
listening = record known { running = true; accept_peers = true }

abbrev register : Beacon → Dict Known → Dict Known × Str
register = register_beacon_identity reticulum

far_beacon_is_refused :
    (on_beacon register world far_beacon
      (some (codes "dd"))
      none
      (some (codes "10.0.0.12"))
      listening
      []).2
    ≡ false
unfolding on_beacon str_eq normalize_hash lower strip without peer_record_from_beacon str_mem
    beacon_ip peer_in_scope split parse_int register_beacon_identity from_hex hex_value connect_hash
far_beacon_is_refused = refl

on_beacon_refused_example :
    ((on_beacon register world far_beacon
        (some (codes "dd"))
        none
        (some (codes "10.0.0.12"))
        listening
        []).0
      ≡ listening)
    × (((on_beacon register world far_beacon
            (some (codes "dd"))
            none
            (some (codes "10.0.0.12"))
            listening
            []).1
          ≡ [])
        ⊎ ((on_beacon register world far_beacon
              (some (codes "dd"))
              none
              (some (codes "10.0.0.12"))
              listening
              []).1
            ≡ (register far_beacon []).0))
on_beacon_refused_example =
    on_beacon_refused register world far_beacon (some (codes "dd")) none (some (codes "10.0.0.12"))
      listening [] far_beacon_is_refused

-- The serial peer's latest announce came in over UDP.
abbrev strayed : PeerDiscovery
strayed = record known {
  net = record known.net {
    announces = (187 ∷ [], record { size = 6; receiving = some udp_iface }) ∷ [];
  };
}

serial_row_is_there : get (codes "bb:serial") strayed.peers ≡ some serial_row
unfolding get str_eq
serial_row_is_there = refl

bb_is_hex : from_hex (hash_or_key (codes "bb:serial") serial_row) ≡ some (187 ∷ [])
unfolding from_hex normalize_hash lower strip without hex_value
bb_is_hex = refl

purge_misclassified_serial_lem_example :
    get (codes "bb:serial") (purge_misclassified_serial strayed).0.peers ≡ none
unfolding announce_packet_receiving_interface dest_key_bytes get interface_family str_eq strip
    contains lower starts_with
purge_misclassified_serial_lem_example =
    purge_misclassified_serial_lem strayed (codes "bb:serial") serial_row 187 []
      known-IsSound.distinct serial_row_is_there bb_is_hex

abbrev shown_known : PeerDiscovery
shown_known = record known { accept_peers = true }

known_is_dated : all_dated shown_known.peers ≡ true
unfolding all_dated
known_is_dated = refl

get_peers-IsListing_example :
    (rows : List Row) × ((get_peers world (some (codes "10.0.0.7")) shown_known).1 ≡ some rows)
    × IsListing world (some (codes "10.0.0.7")) rows
get_peers-IsListing_example =
    get_peers-IsListing world (some (codes "10.0.0.7")) shown_known known_is_dated

usb_absent : AllItems NoUsb known.peers
unfolding lower strip str_eq
usb_absent = (refl, (refl, tt))

dedupe_identities_idle_example : dedupe_identities world none known ≡ (known, 0)
dedupe_identities_idle_example =
    dedupe_identities_idle scope [] world none known known-IsSound usb_absent
