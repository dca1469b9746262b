-- ===== src/Identity/Laws.antt =====
-- What `register_beacon_identity` of chatxz/core/peer_identity.py leaves of the known destinations.
use chatxz.Prelude.{◌≡◌, ◌⊎◌, true, Option, some, leb, Str, str_eq}
use chatxz.Dict.{Dict, get}
use chatxz.Discovery.State.{normalize_hash}
use chatxz.Identity.{canonical_dest, dest_bytes, expected_hash, Known, Reticulum}
use chatxz.Net.Hash.{Bytes, from_hex}

module _ {Ident : Type 0} (ret : Reticulum Ident) where
  -- A row for the key of a beacon that is not under a hash.
  abbrev IsUnder : Bytes → Str → Bytes → Known → Type 0
  IsUnder key canonical k e =
      leb 3 e.size ≡ true
      → str_eq e.public_key key ≡ true
      → normalize_hash (some (ret.hexrep k)) ≡ canonical

  module _
      (writes : (identity : Bytes) (dest : Option Bytes) (key : Bytes) (app : Option Bytes)
          (d : Dict Known) (k : Bytes)
        → (get k (ret.remember identity dest key app d).0 ≡ get k d) ⊎ (dest ≡ some k)) where
    -- A row for the key is under the hash that was canonical before, or was written by this call.
    abbrev IsSettled : Bytes → Str → Dict Known × Str → Dict Known → Bytes → Bytes → Known → Type 0
    IsSettled identity dest_hex r known key k e =
        let canonical = canonical_dest ret identity dest_hex known in
        IsUnder key (normalize_hash (some (expected_hash ret identity dest_hex known))) k e
        ⊎ ((dest_bytes ret canonical dest_hex ≡ some k) ⊎ (from_hex r.1 ≡ some k))
