-- ===== src/Examples/Machine.antt =====
-- A machine with a USB serial interface and a LAN interface, and its tables in lan_rns.py.
use chatxz.Prelude.{ℕ, true, false, none, some, List, [], ◌∷◌, Str, codes}
use chatxz.Net.Iface.{Host, Iface, Root}
use chatxz.Net.Hash.{Bytes}
use chatxz.Net.State.{Net}

abbrev pub host : Host
host = record { android = false; lan_reachable = true }

abbrev pub iface_of : ℕ → Str → Str → Iface
iface_of id class_name text = record {
  id = id;
  class_name = class_name;
  text = text;
  detached = false;
  online = some true;
  owner = none;
  addr = none;
  ifname = none;
  port = none;
}

abbrev pub usb_iface : Iface
usb_iface = iface_of 1 (codes "SerialInterface") (codes "Serial[/dev/ttyUSB0]")

abbrev pub udp_iface : Iface
udp_iface = iface_of 2 (codes "UDPInterface") (codes "UDP[LAN]")

abbrev pub roots_of_both : List Root
roots_of_both =
    record { iface = usb_iface; spawned = none } ∷ record { iface = udp_iface; spawned = none } ∷ []

abbrev pub peer_hash : Str
peer_hash = codes "00000000000000000000000000000001"

abbrev pub peer_key : Bytes
peer_key = 0 ∷ 0 ∷ 0 ∷ 0 ∷ 0 ∷ 0 ∷ 0 ∷ 0 ∷ 0 ∷ 0 ∷ 0 ∷ 0 ∷ 0 ∷ 0 ∷ 0 ∷ 1 ∷ []

abbrev pub other_key : Bytes
other_key = 9 ∷ []

-- A bridged route of the peer over the LAN, and a route of another peer over USB.
abbrev pub bridged_net : Net
bridged_net = record {
  roots = roots_of_both;
  path_table =
      (peer_key, record { size = 6; hops = some 2; via = some udp_iface })
      ∷ (other_key, record { size = 6; hops = some 1; via = some usb_iface })
      ∷ [];
  announces = (peer_key, record { size = 6; receiving = some usb_iface }) ∷ [];
  pins = [];
  known_ips = codes "192.168.1.7" ∷ codes "10.9.9.9" ∷ [];
  requests = [];
}
