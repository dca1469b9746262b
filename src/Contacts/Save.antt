-- ===== src/Contacts/Save.antt =====
-- `save_contact` of chatxz/core/contacts.py.
pub mod Entry
pub mod Files
pub mod Laws
use chatxz.Prelude.{
  Bool, true, not, ◌&&◌, ◌||◌, Option, none, some, List, [], ◌∷◌, if◌then◌else◌, all, Str, codes,
  str_eq, truthy, or_else, str_mem, lower,
}
use chatxz.Prelude.Int.{ℤ, parse_int}
use chatxz.Contacts.Record.{
  Port, num, txt, Contact, empty_contact, clean, clean_arg, stripped, holds, is_entry,
  normalize_contact, contact_hashes, contact_primary_hash,
}
use chatxz.Contacts.Names.{folded, names_related, resolve_contact_name, is_custom}
use chatxz.Contacts.Blocklist.{clear_contact_deleted}
use chatxz.Contacts.Store.{
  Store, load_contact, write_contact, unlink_contact_file, purge_stale_contact_files,
}
use chatxz.Contacts.Listing.{list_contacts, find_contact_by_hash}

-- The arguments of `save_contact`.
pub record SaveArgs : Type 0 where
  pub peer_hash : Option Str
  pub name : Option Str
  pub ip : Option Str
  pub port : Option Port
  pub identity_hash : Option Str
  pub via : Option Str
  pub lan_hash : Option Str
  pub serial_hash : Option Str
  pub lan_identity_hash : Option Str
  pub serial_identity_hash : Option Str
  pub custom_name : Bool

-- A dual save has two different transport hashes.
pub data Mode : Type 0 where
  dual serial lan : Mode

abbrev is_lan_word : Str → Bool
is_lan_word t =
    str_eq t (codes "lan")
    || (str_eq t (codes "rns")
        || (str_eq t (codes "beacon") || (str_eq t (codes "udp") || str_eq t (codes "tcp"))))

-- Which transport the arguments speak of: `dual_save`, `is_serial`, or neither.
unfoldable pub save_mode : SaveArgs → Mode
save_mode a =
    let lan_hex = clean_arg a.lan_hash in
    let ser_hex = clean_arg a.serial_hash in
    let explicit_serial = str_eq (folded a.via) (codes "serial") in
    let explicit_lan = is_lan_word (folded a.via) in
    if truthy lan_hex && (truthy ser_hex && not (str_eq lan_hex ser_hex))
    then dual
    else if truthy ser_hex && (not (truthy lan_hex) && not explicit_lan)
    then serial
    else if truthy lan_hex && (not (truthy ser_hex) && not explicit_serial)
    then lan
    else if explicit_serial && not explicit_lan
    then serial
    else lan

-- `int(port)`; `none` is the TypeError or ValueError.
abbrev pub port_number : Option Port → Option ℤ
port_number none = none
port_number (some (num n)) = some n
port_number (some (txt s)) = parse_int s

-- The first contact with one of the hashes.
unfoldable pub find_by_identity : Str → List Contact → Option Contact
find_by_identity ident [] = none
find_by_identity ident (c ∷ cs) =
    let rest = find_by_identity ident cs in
    if str_mem ident (contact_hashes c) then some (normalize_contact c) else rest

-- The first contact with a related name.
unfoldable pub find_by_name : Str → List Contact → Option Contact
find_by_name display [] = none
find_by_name display (c ∷ cs) =
    let rest = find_by_name display cs in
    if str_eq (lower (stripped c.name)) (lower display)
      || names_related (some (stripped c.name)) (some display)
    then some (normalize_contact c)
    else rest

-- By identity, where one is given and no contact has the hash.
by_identity : Option Contact → Option Str → Store → Store × Option Contact
by_identity (some c) ident s = (s, some c)
by_identity none ident s =
    if holds ident
    then (let (s', all) = list_contacts s in (s', find_by_identity (clean_arg ident) all))
    else (s, none)

-- By name, where one is given and no contact was found.
by_name : Option Contact → Str → Store → Store × Option Contact
by_name (some c) display s = (s, some c)
by_name none display s =
    if truthy display
    then (let (s', all) = list_contacts s in (s', find_by_name display all))
    else (s, none)

abbrev first_entry : Option Contact → Option Contact → Contact → Contact
first_entry (some c) o d = c
first_entry none (some c) d = c
first_entry none none d = d

-- The record that is to be changed: a saved contact of this peer, or a new one.
unfoldable pub existing_contact : SaveArgs → Store → Store × Contact
unfolding by_identity by_name
existing_contact a s =
    let h = clean_arg a.peer_hash in
    let (s₁, by_hash) = find_contact_by_hash (some h) s in
    let (s₂, by_ident) = by_identity by_hash a.identity_hash s₁ in
    let (s₃, merged) = by_name by_ident (stripped a.name) s₂ in
    (
      s₃,
      normalize_contact (
          first_entry merged (load_contact h s₃)
            (record empty_contact { hash = some h; name = some h })),
    )

unfoldable pub put_name : SaveArgs → Contact → Contact
put_name a c =
    let flagged = if a.custom_name then record c { custom_name = some true } else c in
    let resolved = resolve_contact_name flagged a.name a.custom_name in
    if truthy resolved then record flagged { name = some resolved } else flagged

-- `if ip is not None and str(ip).strip(): existing["ip"] = ...`, and the port if `int` reads it
unfoldable pub put_endpoint : Option Str → Option Port → Contact → Contact
put_endpoint ip port c =
    let c₁ = if truthy (stripped ip) then record c { ip = some (stripped ip) } else c in
    elim (port_number port) [ none ↦ c₁ | some n ↦ record c₁ { port = some (num n) } ]

-- `a or b` of two identities, cleaned, for both LAN fields
unfoldable pub put_lan_identity : Option Str → Option Str → Contact → Contact
put_lan_identity lan_identity identity c =
    if holds lan_identity || holds identity
    then (let ident = clean_arg (if holds lan_identity then lan_identity else identity) in
        record c { lan_identity_hash = some ident; identity_hash = some ident })
    else c

unfoldable pub put_serial_identity : Option Str → Contact → Contact
put_serial_identity ident c =
    if holds ident then record c { serial_identity_hash = some (clean_arg ident) } else c

unfoldable pub put_dual : SaveArgs → Contact → Contact
put_dual a c = put_endpoint a.ip a.port (
    put_serial_identity a.serial_identity_hash (
      put_lan_identity a.lan_identity_hash a.identity_hash (record c {
        lan_hash = some (clean_arg a.lan_hash);
        hash = some (clean_arg a.lan_hash);
        serial_hash = some (clean_arg a.serial_hash);
      })))

-- `ser_hex or (clean if clean != lan_hex else "")`
unfoldable pub serial_target : SaveArgs → Str
serial_target a =
    let h = clean_arg a.peer_hash in
    or_else (clean_arg a.serial_hash) (if str_eq h (clean_arg a.lan_hash) then [] else h)

unfoldable pub settle_serial : Str → Contact → Contact
settle_serial target c =
    let lan = clean c.lan_hash in
    if truthy lan && not (str_eq lan target)
    then record c { hash = some lan }
    else if str_eq lan target
    then record c { hash = none; lan_hash = none }
    else record c { hash = none }

unfoldable pub put_serial : SaveArgs → Contact → Contact
put_serial a c =
    let target = serial_target a in
    let c₁ = if truthy target then record c { serial_hash = some target } else c in
    settle_serial target (
      put_serial_identity
        (if holds a.serial_identity_hash then a.serial_identity_hash else a.identity_hash) c₁)

unfoldable pub put_lan : SaveArgs → Contact → Contact
put_lan a c =
    let lan = or_else (clean_arg a.lan_hash) (clean_arg a.peer_hash) in
    let c₁ = put_endpoint a.ip a.port (
      put_lan_identity a.lan_identity_hash a.identity_hash
        (record c { lan_hash = some lan; hash = some lan })) in
    if truthy (clean_arg a.serial_hash)
    then put_serial_identity a.serial_identity_hash
        (record c₁ { serial_hash = some (clean_arg a.serial_hash) })
    else c₁

unfoldable pub put_transport : SaveArgs → Contact → Contact
unfolding put_dual put_serial put_lan settle_serial serial_target put_endpoint put_lan_identity
    put_serial_identity
put_transport a c = elim (save_mode a) [
  | dual ↦ put_dual a c
  | serial ↦ put_serial a c
  | lan ↦ put_lan a c
]

-- The last test on the two hashes.
drop_twin : Contact → Contact
drop_twin c =
    if truthy (clean c.lan_hash)
      && (truthy (clean c.serial_hash) && str_eq (clean c.lan_hash) (clean c.serial_hash))
    then record c { serial_hash = none }
    else c

-- The record that is saved, from the record that is there.
unfoldable pub updated_contact : SaveArgs → Contact → Contact
unfolding drop_twin
updated_contact a c = drop_twin (normalize_contact (put_transport a (put_name a c)))

-- Writing the record under its key, and taking away what it replaces.
unfoldable pub store_contact : SaveArgs → Contact → Store → Store
store_contact a c s =
    let h = clean_arg a.peer_hash in
    let entry = normalize_contact c in
    let key = or_else (contact_primary_hash c) h in
    let s₁ = write_contact key entry s in
    let s₂ = purge_stale_contact_files entry key s₁ in
    let s₃ = if str_eq h key then s₂ else (unlink_contact_file h s₂).0 in
    record s₃ { deleted = clear_contact_deleted (some entry) (some h) s₃.deleted }

-- `none` is the ValueError "hash required".
unfoldable pub save_contact : SaveArgs → Store → Store × Option Contact
unfolding updated_contact store_contact
save_contact a s =
    if not (truthy (clean_arg a.peer_hash))
    then (s, none)
    else (let (s', existing) = existing_contact a s in
        let saved = updated_contact a existing in
        (store_contact a saved s', some (normalize_contact saved)))
