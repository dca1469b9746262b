-- ===== src/Contacts/Sync/Refresh.antt =====
-- `sync_contact_from_discovery` of chatxz/core/contacts.py.
pub mod Laws
use chatxz.Prelude.{
  Bool, true, false, not, ◌&&◌, ◌||◌, Option, none, some, List, [], ◌∷◌, ◌==◌, if◌then◌else◌, all,
  Str, str_eq, truthy, or_else,
}
use chatxz.Prelude.Int.{ℤ, pos, negsuc}
use chatxz.Contacts.Record.{
  Port, num, Contact, clean, stripped, holds, normalize_contact, contact_hashes,
  contact_primary_hash,
}
use chatxz.Contacts.Names.{is_custom, is_serial_via, name_is_hash_like, resolve_contact_name}
use chatxz.Contacts.Blocklist.{Peer, peer_is_deleted}
use chatxz.Contacts.Store.{Store, write_contact, purge_stale_contact_files}
use chatxz.Contacts.Merge.{either}
use chatxz.Contacts.Listing.{list_contacts}
use chatxz.Contacts.Save.{port_number}
use chatxz.Contacts.Sync.Match.{
  Equivalence, contact_matches_discovery_peer, should_update_contact_ip,
}

-- A record on its way, and the variable `changed`.
pub record Draft : Type 0 where
  pub entry : Contact
  pub changed : Bool

abbrev pub int_eq : ℤ → ℤ → Bool
int_eq (pos a) (pos b) = a == b
int_eq (negsuc a) (negsuc b) = a == b
int_eq _ _ = false

-- `entry.get("port") == port_val`
abbrev pub is_port : Option Port → ℤ → Bool
is_port (some (num n)) m = int_eq n m
is_port _ m = false

refresh_serial : Str → Str → Draft → Draft
refresh_serial hash ident d =
    let d₁ =
      if str_eq (clean d.entry.serial_hash) hash
      then d
      else record { entry = record d.entry { serial_hash = some hash }; changed = true } in
    if truthy ident
    then record { entry = record d₁.entry { serial_identity_hash = some ident }; changed = true }
    else d₁

-- The two tests on the LAN hash write the same fields.
refresh_lan_hash : Str → Draft → Draft
refresh_lan_hash hash d =
    let lan = clean (either d.entry.lan_hash d.entry.hash) in
    let serial = clean d.entry.serial_hash in
    if not (str_eq lan hash) || (str_eq lan serial && (truthy serial && not (str_eq hash serial)))
    then record {
      entry = record d.entry { lan_hash = some hash; hash = some hash };
      changed = true;
    }
    else d

refresh_ip : Str → Option Str → Draft → Draft
refresh_ip ip scope d =
    if truthy ip && should_update_contact_ip (some (stripped d.entry.ip)) (some ip) scope
    then record { entry = record d.entry { ip = some ip }; changed = true }
    else if truthy ip && not (truthy (stripped d.entry.ip))
    then record { entry = record d.entry { ip = some ip }; changed = true }
    else d

refresh_port : Option Port → Draft → Draft
refresh_port port d = elim (port_number port) [
  | none ↦ d
  | some n ↦
      if is_port d.entry.port n
      then d
      else record { entry = record d.entry { port = some (num n) }; changed = true }
]

refresh_lan_identity : Str → Draft → Draft
refresh_lan_identity ident d =
    if truthy ident
    then record {
      entry = record d.entry { lan_identity_hash = some ident; identity_hash = some ident };
      changed = true;
    }
    else d

refresh_lan : Peer → Option Str → Draft → Draft
refresh_lan p scope d =
    refresh_lan_identity (clean p.identity_hash)
      (refresh_port p.port (refresh_ip (stripped p.ip) scope (refresh_lan_hash (clean p.hash) d)))

-- The record is normalised in place when the name is resolved.
refresh_name : Option Str → Draft → Draft
refresh_name name d =
    let entry = normalize_contact d.entry in
    let resolved = resolve_contact_name entry name false in
    let saved = stripped entry.name in
    let hashes = contact_hashes entry in
    if not (holds name) || is_custom d.entry
    then d
    else if truthy resolved && not (truthy saved)
    then record { entry = record entry { name = some resolved }; changed = true }
    else if truthy resolved
        && (truthy saved
            && (name_is_hash_like (some saved) hashes
                && not (name_is_hash_like (some resolved) hashes)))
    then record { entry = record entry { name = some resolved }; changed = true }
    else record d { entry = entry }

-- The record of a matching contact after all updates.
unfoldable pub refreshed : Peer → Option Str → Contact → Draft
unfolding refresh_serial refresh_lan refresh_lan_hash refresh_ip refresh_port refresh_lan_identity
    refresh_name
refreshed p scope contact =
    let d : Draft = record { entry = normalize_contact contact; changed = false } in
    refresh_name p.name (
      if is_serial_via p.via
      then refresh_serial (clean p.hash) (clean p.identity_hash) d
      else refresh_lan p scope d)

-- `a if key in entry else b`, field by field: `stale.update(entry)`
abbrev over : Option Str → Option Str → Option Str
over none b = b
over (some a) b = some a

stale_union : Contact → Contact → Contact
stale_union entry contact = record entry {
  hash = over entry.hash contact.hash;
  lan_hash = over entry.lan_hash contact.lan_hash;
  serial_hash = over entry.serial_hash contact.serial_hash;
  identity_hash = over entry.identity_hash contact.identity_hash;
  lan_identity_hash = over entry.lan_identity_hash contact.lan_identity_hash;
  serial_identity_hash = over entry.serial_identity_hash contact.serial_identity_hash;
}

unfoldable pub first_match : Peer → Equivalence → List Contact → Option Contact
first_match p eqv [] = none
first_match p eqv (c ∷ cs) =
    let rest = first_match p eqv cs in
    if contact_matches_discovery_peer c p eqv then some c else rest

-- Writing a changed record under its key, and removing the files that it replaces.
unfoldable pub store_refreshed : Str → Contact → Draft → Store → Store × Option Contact
unfolding stale_union
store_refreshed hash contact d s =
    if not d.changed
    then (s, some d.entry)
    else (let entry = normalize_contact d.entry in
        let key = or_else (contact_primary_hash entry) hash in
        (
          purge_stale_contact_files (stale_union entry contact) key (write_contact key entry s),
          some entry,
        ))

refresh_match : Peer → Option Str → Option Contact → Store → Store × Option Contact
refresh_match p scope none s = (s, none)
refresh_match p scope (some c) s = store_refreshed (clean p.hash) c (refreshed p scope c) s

unfoldable pub sync_contact_from_discovery :
    Peer → Equivalence → Option Str → Store → Store × Option Contact
unfolding refresh_match
sync_contact_from_discovery p eqv scope s =
    if not (truthy (clean p.hash))
    then (s, none)
    else if peer_is_deleted p s.deleted
    then (s, none)
    else (let (s', all) = list_contacts s in refresh_match p scope (first_match p eqv all) s')
