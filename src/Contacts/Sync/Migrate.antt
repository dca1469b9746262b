-- ===== src/Contacts/Sync/Migrate.antt =====
-- `update_contact_transport_hash` and `migrate_contact_hash` of chatxz/core/contacts.py: a new hash
-- takes the place of an old one.
use chatxz.Prelude.{
  Bool, true, false, not, ◌&&◌, ◌||◌, Option, none, some, if◌then◌else◌, Str, codes, str_eq, truthy,
  or_else,
}
use chatxz.Contacts.Record.{
  Port, Contact, clean, clean_arg, stripped, normalize_contact, contact_primary_hash,
}
use chatxz.Contacts.Names.{folded, resolve_contact_name}
use chatxz.Contacts.Store.{Store, load_contact, write_contact, unlink_contact_file}
use chatxz.Contacts.Merge.{either}
use chatxz.Contacts.Listing.{find_contact_by_hash}
use chatxz.Contacts.Save.{put_endpoint, put_lan_identity, put_serial_identity}

-- The arguments that both functions take.
pub record Move : Type 0 where
  pub old_hash : Option Str
  pub new_hash : Option Str
  pub name : Option Str
  pub ip : Option Str
  pub port : Option Port
  pub identity_hash : Option Str
  pub via : Option Str

-- The record with the new hash for one transport, and what came with it.
unfoldable pub move_hash : Bool → Move → Contact → Contact
move_hash true m c =
    put_serial_identity m.identity_hash (record c { serial_hash = some (clean_arg m.new_hash) })
move_hash false m c = put_endpoint m.ip m.port (
    put_lan_identity none m.identity_hash
      (record c { lan_hash = some (clean_arg m.new_hash); hash = some (clean_arg m.new_hash) }))

-- The name is resolved against the record, which is normalised in place then.
unfoldable pub move_name : Option Str → Contact → Contact
move_name name c =
    if truthy (stripped name)
    then (let entry = normalize_contact c in
        record entry { name = some (resolve_contact_name entry name false) })
    else c

abbrev pub is_no_move : Move → Bool
is_no_move m =
    not (truthy (clean_arg m.old_hash))
    || (not (truthy (clean_arg m.new_hash)) || str_eq (clean_arg m.old_hash) (clean_arg m.new_hash))

-- Writing the moved record, and removing the file of the old hash.
unfoldable pub store_moved : Move → Contact → Store → Store
store_moved m c s =
    let entry = normalize_contact c in
    let key = or_else (contact_primary_hash c) (clean_arg m.new_hash) in
    let s' = write_contact key entry s in
    if str_eq (clean_arg m.old_hash) key
    then s'
    else (unlink_contact_file (clean_arg m.old_hash) s').0

-- `transport == "serial" or (not transport and old_clean == serial)`
abbrev pub is_serial_update : Move → Contact → Bool
is_serial_update m c =
    str_eq (folded m.via) (codes "serial")
    || (not (truthy (folded m.via)) && str_eq (clean_arg m.old_hash) (clean c.serial_hash))

update_found : Move → Option Contact → Store → Store × Option Contact
update_found m none s = (s, none)
update_found m (some c) s =
    let moved = move_name m.name (move_hash (is_serial_update m c) m c) in
    (store_moved m moved s, some (normalize_contact moved))

unfoldable pub update_contact_transport_hash : Move → Store → Store × Option Contact
unfolding update_found
update_contact_transport_hash m s =
    if is_no_move m
    then (s, none)
    else (let (s', found) = find_contact_by_hash (some (clean_arg m.old_hash)) s in
        update_found m found s')

-- `... and old_clean != (lan_hash or hash)`
abbrev pub is_serial_migration : Move → Contact → Bool
is_serial_migration m c =
    str_eq (folded m.via) (codes "serial")
    || (not (truthy (folded m.via))
        && (str_eq (clean_arg m.old_hash) (clean c.serial_hash)
            && not (str_eq (clean_arg m.old_hash) (clean (either c.lan_hash c.hash)))))

abbrev or_loaded : Option Contact → Option Contact → Option Contact
or_loaded (some c) o = some c
or_loaded none o = o

migrate_found : Move → Option Contact → Store → Store × Bool
migrate_found m none s = (s, false)
migrate_found m (some found) s =
    let c = normalize_contact found in
    (store_moved m (move_name m.name (move_hash (is_serial_migration m c) m c)) s, true)

unfoldable pub migrate_contact_hash : Move → Store → Store × Bool
unfolding migrate_found
migrate_contact_hash m s =
    if is_no_move m
    then (s, false)
    else (let (s', found) = find_contact_by_hash (some (clean_arg m.old_hash)) s in
        migrate_found m (or_loaded found (load_contact (clean_arg m.old_hash) s')) s')
