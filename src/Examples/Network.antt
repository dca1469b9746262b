-- ===== src/Examples/Network.antt =====
-- Pins, clean-ups and waits of lan_rns.py on one machine.
use chatxz.Dict.{sweep}
use chatxz.Net.Prune.{prune_where}
use chatxz.Prelude.{
  ◌≡◌, refl, ◌≢◌, true, false, ◌&&◌, ◌||◌, some, List, [], ◌∷◌, is_some, length, keep, codes,
  str_eq, str_mem, starts_with, contains, without, is_space, lstrip, rstrip, strip, lower_code,
  lower,
}
use chatxz.Dict.{get, IsDistinct, has_key}
use chatxz.Net.Iface.{serial, interface_family}
use chatxz.Net.Dual.{is_lan_family, dual_transport_isolation_enabled}
use chatxz.Net.Hash.{
  from_hex, to_hex, hex_value, hex_digit, normalize_dest_hex, dest_bytes_for_hash,
}
use chatxz.Net.State.{Net, PathEntry}
use chatxz.Net.Paths.{route}
use chatxz.Net.Paths.Route.{only}
use chatxz.Net.Prune.{prune_bridged_lan_paths, prune_cross_zone_paths, is_bridged, serial_peer_set}
use chatxz.Net.Prune.Laws.{Prunes, prune_bridged_lan_paths-Prunes}
use chatxz.Net.Pins.{
  Poll, ensure_serial_path_pinned, reinforce_serial_peer_path, serial_path_is_pinned,
  wait_for_peer_path_families,
}
use chatxz.Net.Pins.Laws.{is_good, ensure_serial_path_pinned-route}
use chatxz.Net.Pins.Pinned.{ensure_serial_path_pinned-pinned}
use chatxz.Net.Pins.Repair.{
  IsServed, IsOffLan, reinforce_serial_peer_path-IsServed, reinforce_serial_peer_path-IsOffLan,
}
use chatxz.Net.Pins.Wait.{first_offer, before_stop, wait_for_peer_path_families_lem}
use chatxz.Examples.Machine.{host, usb_iface, peer_hash, peer_key, other_key, bridged_net}

full_hash : length (normalize_dest_hex (some peer_hash)) ≡ 32
unfolding length normalize_dest_hex lower strip lstrip rstrip without keep lower_code is_space codes
full_hash = refl

IsDistinct-rows : IsDistinct bridged_net.path_table
unfolding has_key str_eq
IsDistinct-rows = (refl, (refl, tt))

ensure_serial_path_pinned-route_example :
    (route
        (some (normalize_dest_hex (some peer_hash)))
        (ensure_serial_path_pinned host (some peer_hash) true bridged_net).0
      ≡ only (is_good host) (route (some (normalize_dest_hex (some peer_hash))) bridged_net))
    × ((ensure_serial_path_pinned host (some peer_hash) true bridged_net).1
        ≡ is_some
            (only (is_good host) (route (some (normalize_dest_hex (some peer_hash))) bridged_net)))
ensure_serial_path_pinned-route_example =
    ensure_serial_path_pinned-route host (some peer_hash) true bridged_net full_hash

other_apart : dest_bytes_for_hash (some (normalize_dest_hex (some peer_hash))) ≢ some other_key
unfolding dest_bytes_for_hash from_hex hex_value length normalize_dest_hex lower strip lstrip rstrip
    without keep lower_code is_space codes
other_apart e = cc

ensure_serial_path_pinned-pinned_example :
    (serial_path_is_pinned
        (some peer_hash)
        (ensure_serial_path_pinned host (some peer_hash) true bridged_net).0
      ≡ str_eq (normalize_dest_hex (some peer_hash)) (normalize_dest_hex (some peer_hash))
        || serial_path_is_pinned (some peer_hash) bridged_net)
    × (get other_key (ensure_serial_path_pinned host (some peer_hash) true bridged_net).0.path_table
        ≡ get other_key bridged_net.path_table)
ensure_serial_path_pinned-pinned_example =
    ensure_serial_path_pinned-pinned host (some peer_hash) (some peer_hash) true bridged_net
      other_key full_hash other_apart

reinforce_serial_peer_path-IsServed_example :
    IsServed host
      (some (normalize_dest_hex (some peer_hash)))
      (reinforce_serial_peer_path host (some peer_hash) bridged_net)
reinforce_serial_peer_path-IsServed_example =
    reinforce_serial_peer_path-IsServed host (some peer_hash) bridged_net

reinforce_serial_peer_path-IsOffLan_example :
    IsOffLan
      (some (normalize_dest_hex (some peer_hash)))
      (reinforce_serial_peer_path host (some peer_hash) bridged_net).0
reinforce_serial_peer_path-IsOffLan_example =
    reinforce_serial_peer_path-IsOffLan host (some peer_hash) bridged_net full_hash

prune_bridged_lan_paths-Prunes_example :
    Prunes
      (λ k e. dual_transport_isolation_enabled host bridged_net.roots && is_bridged k e)
      bridged_net
      (prune_bridged_lan_paths host bridged_net)
prune_bridged_lan_paths-Prunes_example =
    prune_bridged_lan_paths-Prunes host bridged_net IsDistinct-rows

-- A table whose only row leads to the peer over USB.
abbrev usb_row : PathEntry
usb_row = record { size = 6; hops = some 1; via = some usb_iface }

abbrev usb_net : Net
usb_net = record bridged_net { path_table = (peer_key, usb_row) ∷ [] }

usb_rows : IsDistinct usb_net.path_table
unfolding has_key
usb_rows = (refl, tt)

usb_row_stays :
    get peer_key (prune_cross_zone_paths (some peer_hash ∷ []) usb_net).0.path_table ≡ some usb_row
unfolding prune_cross_zone_paths prune_where sweep serial_peer_set interface_family codes contains
    starts_with lower lower_code str_eq str_mem get to_hex hex_digit normalize_dest_hex strip lstrip
    rstrip without keep is_space is_lan_family
usb_row_stays = refl

peer_listed : str_mem (to_hex peer_key) (serial_peer_set (some peer_hash ∷ [])) ≡ true
unfolding serial_peer_set codes lower lower_code str_eq str_mem to_hex hex_digit normalize_dest_hex
    strip lstrip rstrip without keep is_space
peer_listed = refl

-- A wait whose second turn finds the route.
abbrev two_polls : List Poll
two_polls =
    record { stop = false; net = record bridged_net { path_table = [] } }
    ∷ record { stop = false; net = usb_net }
    ∷ []

wait_for_peer_path_families_lem_example :
    wait_for_peer_path_families host (some peer_hash) (some serial ∷ []) two_polls
    ≡ first_offer host (some peer_hash) (some serial ∷ []) (before_stop two_polls)
wait_for_peer_path_families_lem_example =
    wait_for_peer_path_families_lem host (some peer_hash) (some serial ∷ []) two_polls
