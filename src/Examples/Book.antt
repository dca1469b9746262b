-- ===== src/Examples/Book.antt =====
-- A small address book for contacts.py, and peers that discovery finds.
use chatxz.Prelude.{true, false, none, some, [], ◌∷◌, codes}
use chatxz.Prelude.Int.{pos}
use chatxz.Contacts.Record.{Contact, num, empty_contact}
use chatxz.Contacts.Blocklist.{Peer}
use chatxz.Contacts.Store.{Store, object}
use chatxz.Contacts.Save.{SaveArgs}

-- A contact on the LAN whose name the user chose.
abbrev pub ann : Contact
ann = record empty_contact {
  hash = some (codes "aa:01");
  lan_hash = some (codes "aa01");
  identity_hash = some (codes "1d01");
  ip = some (codes "192.168.1.5");
  port = some (num (pos 8742));
  name = some (codes "Ann");
  custom_name = some true;
}

-- The same person over USB.
abbrev pub ann_usb : Contact
ann_usb = record empty_contact {
  hash = some (codes "bb02");
  serial_hash = some (codes "bb02");
  name = some (codes "ann");
}

abbrev pub book : Store
book = record {
  files = (codes "aa01", object ann) ∷ [];
  deleted = record { hashes = codes "cc03" ∷ []; identities = []; names = codes "cid" ∷ [] };
}

abbrev pub save_args : SaveArgs
save_args = record {
  peer_hash = some (codes "cc:03");
  name = some (codes "Cid");
  ip = some (codes "192.168.1.9");
  port = none;
  identity_hash = none;
  via = some (codes "lan");
  lan_hash = some (codes "cc03");
  serial_hash = some (codes "dd04");
  lan_identity_hash = none;
  serial_identity_hash = none;
  custom_name = false;
}

-- Another peer found on the LAN under the hash of Ann.
abbrev pub lan_peer : Peer
lan_peer = record {
  hash = some (codes "aa01");
  identity_hash = some (codes "1d01");
  name = some (codes "laptop");
  ip = some (codes "10.9.9.9");
  port = none;
  via = some (codes "lan");
}

abbrev pub usb_peer : Peer
usb_peer = record lan_peer { via = some (codes " Serial ") }
