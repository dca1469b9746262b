-- ===== src/Identity.antt =====
-- `register_beacon_identity` and `purge_stale_known_destinations` of chatxz/core/peer_identity.py, and
-- `message_dest_hash_for_identity` of chatxz/core/discovery.py.
pub mod Laws
use chatxz.Prelude.{
  ℕ, ◌+◌, Bool, true, false, not, ◌&&◌, Option, none, some, List, [], ◌∷◌, ltb, ◌==◌, if◌then◌else◌,
  length, Str, str_eq, truthy, or_empty, or_else, strip,
}
use chatxz.Dict.{Dict, get, has_key, pop}
use chatxz.Discovery.Beacons.{Beacon}
use chatxz.Discovery.State.{normalize_hash}
use chatxz.Net.Hash.{Bytes, from_hex, to_hex}

-- A row of `known_destinations`: its length, and the public key in its third slot.
pub record Known : Type 0 where
  pub size : ℕ
  pub public_key : Bytes

-- What the code calls of Reticulum and of Python's base64 and json; `none` stands for an exception.
-- `remember` also tells whether it returned.
pub record Reticulum (Ident : Type 0) : Type 0 where
  pub key_size : ℕ
  pub b64decode : Str → Option Bytes
  pub dumps : Str → Option Bytes
  pub hexrep : Bytes → Str
  pub recall : Bytes → Dict Known → Option Ident
  pub hash_of : Ident → Option Bytes
  pub destination_hash : Ident → Option Bytes
  pub remember : Bytes → Option Bytes → Bytes → Option Bytes → Dict Known → Dict Known × Bool

-- `if not pubkey`
abbrev pub no_bytes : Bytes → Bool
no_bytes [] = true
no_bytes (b ∷ bs) = false

module _ {Ident : Type 0} (ret : Reticulum Ident) where
  -- `message_dest_hash_for_identity` of an identity that has its hash
  abbrev of_destination : Option Bytes → Str
  of_destination none = []
  of_destination (some h) = normalize_hash (some (to_hex h))

  abbrev pub of_identity : Ident → Option Bytes → Str
  of_identity i none = []
  of_identity i (some h) = if no_bytes h then [] else of_destination (ret.destination_hash i)

  -- `connect_hash_from_identity`, which is `message_dest_hash_for_identity`
  unfoldable pub connect_hash : Option Ident → Str
  connect_hash none = []
  connect_hash (some i) = of_identity i (ret.hash_of i)

  -- Another destination hash is stored for the key.
  abbrev pub is_wrong : Bytes → Str → Bytes → Known → Bool
  is_wrong key canonical k e =
      (not (ltb e.size 3) && str_eq e.public_key key)
      && (truthy canonical && not (str_eq (normalize_hash (some (ret.hexrep k))) canonical))

  -- The list `stale`.
  unfoldable pub stale_known : Bytes → Str → Dict Known → List Bytes
  stale_known key canonical [] = []
  stale_known key canonical ((k, e) ∷ d) =
      let rest = stale_known key canonical d in
      if is_wrong key canonical k e then k ∷ rest else rest

  -- `del known_destinations[raw]; removed += 1`, where a missing key counts nothing.
  unfoldable pub delete_each : List Bytes → Dict Known → ℕ → Dict Known × ℕ
  delete_each [] d removed = (d, removed)
  delete_each (k ∷ ks) d removed =
      delete_each ks (pop k d) (if has_key k d then removed + 1 else removed)

  unfoldable pub purge_stale_known_destinations : Bytes → Str → Dict Known → Dict Known × ℕ
  purge_stale_known_destinations key canonical_dest known =
      if no_bytes key
      then (known, 0)
      else delete_each (stale_known key (normalize_hash (some canonical_dest)) known) known 0

  -- A hash of 32 digits, or nothing.
  abbrev pub if_full : Str → Str
  if_full h = if length h == 32 then h else []

  abbrev or_bytes : Option Bytes → Option Bytes → Option Bytes
  or_bytes none b = b
  or_bytes (some a) b = some a

  -- The bytes of a hash, unless it is empty or not hexadecimal.
  abbrev pub bytes_of : Str → Option Bytes
  bytes_of h = if truthy h then from_hex h else none

  -- `dest_bytes`
  abbrev pub dest_bytes : Str → Str → Option Bytes
  dest_bytes canonical dest_hex = or_bytes (bytes_of canonical) (bytes_of (if_full dest_hex))

  -- `app_data`
  abbrev pub app_data : Str → Option Bytes
  app_data name = if truthy name then ret.dumps name else none

  -- The second `remember`, for a canonical hash that the beacon did not name.
  abbrev pub remember_again : Bytes → Option Bytes → Bytes → Option Bytes → Dict Known → Dict Known
  remember_again identity none key app known = known
  remember_again identity (some h) key app known = (ret.remember identity (some h) key app known).0

  -- The hash of the destination that Reticulum knows for an identity, or else a full one of the beacon.
  abbrev pub canonical_dest : Bytes → Str → Dict Known → Str
  canonical_dest identity dest_hex known =
      or_else (connect_hash (ret.recall identity known)) (if_full dest_hex)

  -- What follows the first `remember`, if that returned.
  unfoldable pub settle_identity :
      Bytes → Str → Bytes → Option Bytes → Dict Known × Bool → Dict Known × Str
  settle_identity identity dest_hex key app (known, false) = (known, [])
  settle_identity identity dest_hex key app (known, true) =
      let canonical = canonical_dest identity dest_hex known in
      if not (truthy canonical)
      then (known, [])
      else if str_eq canonical dest_hex
      then (known, canonical)
      else (remember_again identity (from_hex canonical) key app known, canonical)

  -- `canonical_dest or dest_hex`
  abbrev pub expected_hash : Bytes → Str → Dict Known → Str
  expected_hash identity dest_hex known = or_else (canonical_dest identity dest_hex known) dest_hex

  -- Registering a key under the bytes of its identity.
  unfoldable pub enter_identity : Bytes → Str → Bytes → Str → Dict Known → Dict Known × Str
  unfolding settle_identity
  enter_identity identity dest_hex key name known =
      let canonical = canonical_dest identity dest_hex known in
      let purged =
        purge_stale_known_destinations key (expected_hash identity dest_hex known) known in
      settle_identity identity dest_hex key (app_data name)
        (ret.remember identity (dest_bytes canonical dest_hex) key (app_data name) purged.0)

  -- The identity hash of a beacon as bytes, if it has 32 digits.
  abbrev pub identity_bytes : Beacon → Option Bytes
  identity_bytes b =
      let identity_hex = normalize_hash b.identity_hash in
      if length identity_hex == 32 then from_hex identity_hex else none

  -- The public key of a beacon, if it can be decoded and has the right size.
  abbrev sized : Option Bytes → Option Bytes
  sized none = none
  sized (some key) = if length key == ret.key_size then some key else none

  abbrev pub public_key_of : Beacon → Option Bytes
  public_key_of b =
      if truthy (or_empty b.pubkey) then sized (ret.b64decode (or_empty b.pubkey)) else none

  abbrev with_both : Option Bytes → Option Bytes → Beacon → Dict Known → Dict Known × Str
  with_both (some key) (some identity) b known =
      enter_identity identity (normalize_hash b.hash) key (strip (or_empty b.name)) known
  with_both _ _ b known = (known, [])

  unfoldable pub register_beacon_identity : Beacon → Dict Known → Dict Known × Str
  unfolding enter_identity
  register_beacon_identity b known = with_both (public_key_of b) (identity_bytes b) b known
