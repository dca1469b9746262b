-- ===== src/Examples/Identities.antt =====
-- A small Reticulum, and the registration of a beacon of peer_identity.py with it.
use chatxz.Prelude.{true, Option, none, some, [], ◌∷◌, codes}
use chatxz.Dict.{Dict, put}
use chatxz.Discovery.Beacons.{Beacon}
use chatxz.Identity.{Known, Reticulum}
use chatxz.Net.Hash.{Bytes, to_hex}

-- It knows no identity yet, and keeps what it is told under the destination.
abbrev write_known : Option Bytes → Bytes → Dict Known → Dict Known
write_known none key d = d
write_known (some h) key d = put h (record { size = 4; public_key = key }) d

abbrev pub reticulum : Reticulum Bytes
reticulum = record {
  key_size = 2;
  b64decode = λ s. some (1 ∷ 2 ∷ []);
  dumps = some;
  hexrep = to_hex;
  recall = λ identity d. none;
  hash_of = some;
  destination_hash = some;
  remember = λ identity dest key app d. (write_known dest key d, true);
}

abbrev pub far_beacon : Beacon
far_beacon = record {
  app = codes "chatxz";
  hash = some (codes "0123456789abcdef0123456789abcdef");
  identity_hash = some (codes "00000000000000000000000000000001");
  name = none;
  ip = some (codes "8.8.8.8");
  port = none;
  pubkey = some (codes "AQI=");
}

abbrev far_key : Bytes
far_key = 1 ∷ 35 ∷ 69 ∷ 103 ∷ 137 ∷ 171 ∷ 205 ∷ 239 ∷ 1 ∷ 35 ∷ 69 ∷ 103 ∷ 137 ∷ 171 ∷ 205 ∷ 239 ∷ []

abbrev far_identity : Bytes
far_identity = 0 ∷ 0 ∷ 0 ∷ 0 ∷ 0 ∷ 0 ∷ 0 ∷ 0 ∷ 0 ∷ 0 ∷ 0 ∷ 0 ∷ 0 ∷ 0 ∷ 0 ∷ 1 ∷ []

-- The same public key under another destination.
abbrev stale : Dict Known
stale = (170 ∷ [], record { size = 4; public_key = 1 ∷ 2 ∷ [] }) ∷ []

abbrev far_row : Known
far_row = record { size = 4; public_key = 1 ∷ 2 ∷ [] }
