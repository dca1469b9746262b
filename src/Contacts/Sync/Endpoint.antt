-- ===== src/Contacts/Sync/Endpoint.antt =====
-- `migrate_contact_by_ip`, `update_contact_endpoint` and `contact_connect_meta` of
-- chatxz/core/contacts.py: the address of a contact.
use chatxz.Prelude.{
  zero, Bool, true, false, not, ◌&&◌, ◌||◌, Option, none, some, List, [], ◌∷◌, if◌then◌else◌, all,
  Str, codes, str_eq, truthy, or_empty, or_else,
}
use chatxz.Prelude.Int.{pos}
use chatxz.Contacts.Record.{
  Port, num, txt, Contact, clean, clean_arg, stripped, holds, normalize_contact,
  contact_primary_hash,
}
use chatxz.Contacts.Names.{folded, names_related, resolve_contact_name, is_custom}
use chatxz.Contacts.Blocklist.{peer_is_deleted}
use chatxz.Contacts.Store.{Store, unlink_contact_file}
use chatxz.Contacts.Merge.{either}
use chatxz.Contacts.Listing.{list_contacts}
use chatxz.Contacts.Save.{SaveArgs, save_contact}
use chatxz.Contacts.Sync.Match.{Equivalence, should_update_contact_ip}

-- What `migrate_contact_by_ip` passes to `save_contact` for one contact.
migration_args : Str → Option Str → Option Str → Option Port → Option Str → Contact → SaveArgs
migration_args ip new_hash name port ident prior = record {
  peer_hash = new_hash;
  name = some (resolve_contact_name prior name false);
  ip = some ip;
  port = port;
  identity_hash = ident;
  via = some (codes "lan");
  lan_hash = new_hash;
  serial_hash = prior.serial_hash;
  lan_identity_hash = none;
  serial_identity_hash = prior.serial_identity_hash;
  custom_name = is_custom prior;
}

abbrev primary_of : Option Contact → Str
primary_of none = []
primary_of (some c) = contact_primary_hash c

-- The loop over the contacts: those on the address are saved anew under the new hash.
unfoldable pub migrate_each :
    Str → Str → Option Str → Option Port → Option Str → List Contact → Store → Store × List Str
unfolding migration_args
migrate_each ip new name port ident [] s = (s, [])
migrate_each ip new name port ident (c ∷ cs) s =
    let skipped = migrate_each ip new name port ident cs s in
    let old_key = contact_primary_hash c in
    let (s₁, updated) =
      save_contact (migration_args ip (some new) name port ident (normalize_contact c)) s in
    let new_key = or_else (primary_of updated) new in
    let moved = truthy old_key && not (str_eq old_key new_key) in
    let (s₂, removed) =
      migrate_each ip new name port ident cs
        (if moved then (unlink_contact_file old_key s₁).0 else s₁) in
    if not (str_eq (stripped c.ip) ip)
    then skipped
    else (s₂, if moved then old_key ∷ removed else removed)

unfoldable pub migrate_contact_by_ip :
    Option Str → Option Str → Option Str → Option Port → Option Str → Store → Store × List Str
migrate_contact_by_ip ip_arg new_hash name port ident s =
    let ip = stripped ip_arg in
    let new = clean_arg new_hash in
    if not (truthy ip) || not (truthy new)
    then (s, [])
    else if peer_is_deleted
        (record {
          hash = some new;
          identity_hash = ident;
          name = name;
          ip = some ip;
          port = none;
          via = none;
        })
        s.deleted
    then (s, [])
    else (let (s', all) = list_contacts s in migrate_each ip new name port ident all s')

-- The arguments of `update_contact_endpoint` after the hash.
pub record Endpoint : Type 0 where
  pub ip : Option Str
  pub port : Option Port
  pub identity_hash : Option Str
  pub name : Option Str
  pub local_scope_ip : Option Str

-- Whether a contact is the peer of the update.
unfoldable pub is_same_peer : Str → Endpoint → Equivalence → Contact → Bool
is_same_peer h e eqv c =
    let ch = clean c.hash in
    let ih = clean c.identity_hash in
    let equivalent = elim eqv as (λ x. Bool) [
      | none ↦ false
      | some f ↦ f ch h || (truthy ih && f ih h)
    ] in
    let ident = clean_arg e.identity_hash in
    if str_eq ch h
    then true
    else if equivalent
    then true
    else if holds e.identity_hash && (str_eq ih ident || str_eq ch ident)
    then true
    else truthy (folded e.name)
      && (truthy (folded c.name)
          && (names_related (some (folded c.name)) (some (folded e.name))
              || str_eq (folded c.name) (folded e.name)))

abbrev or_port : Option Port → Option Port → Option Port
or_port none q = q
or_port (some p) q = some p

-- `text or None`
abbrev or_none : Str → Option Str
or_none [] = none
or_none (c ∷ s) = some (c ∷ s)

endpoint_args : Str → Str → Option Str → Endpoint → Contact → SaveArgs
endpoint_args peer lan ip e c = record {
  peer_hash = some peer;
  name = some (resolve_contact_name c e.name false);
  ip = ip;
  port = or_port e.port c.port;
  identity_hash = either e.identity_hash (or_none (clean c.identity_hash));
  via = some (codes "lan");
  lan_hash = some lan;
  serial_hash = c.serial_hash;
  lan_identity_hash = none;
  serial_identity_hash = c.serial_identity_hash;
  custom_name = is_custom c;
}

-- The body of the loop for the contact that is the peer.
unfoldable pub move_endpoint : Str → Endpoint → Contact → Store → Store × Option Contact
unfolding endpoint_args
move_endpoint h e c s =
    let target = stripped e.ip in
    let ch = clean c.hash in
    let lan = clean (some (or_else (or_empty c.lan_hash) ch)) in
    if truthy h && (not (str_eq lan h) && str_eq ch lan)
    then save_contact (endpoint_args h h (or_none (or_else target (stripped c.ip))) e c) s
    else if truthy target
        && should_update_contact_ip (some (stripped c.ip)) (some target) e.local_scope_ip
    then save_contact (endpoint_args (or_else ch h) (or_else lan h) (some target) e c) s
    else (s, none)

unfoldable pub first_same_peer : Str → Endpoint → Equivalence → List Contact → Option Contact
first_same_peer h e eqv [] = none
first_same_peer h e eqv (c ∷ cs) =
    let rest = first_same_peer h e eqv cs in if is_same_peer h e eqv c then some c else rest

move_first : Str → Endpoint → Option Contact → Store → Store × Option Contact
move_first h e none s = (s, none)
move_first h e (some c) s = move_endpoint h e c s

unfoldable pub update_contact_endpoint :
    Option Str → Endpoint → Equivalence → Store → Store × Option Contact
unfolding move_first first_same_peer
update_contact_endpoint peer_hash e eqv s =
    let h = clean_arg peer_hash in
    if not (truthy h)
    then (s, none)
    else (let (s', all) = list_contacts s in move_first h e (first_same_peer h e eqv all) s')

-- `contact.get("port") or 8742`
abbrev port_or_default : Option Port → Port
port_or_default none = num (pos 8742)
port_or_default (some (num (pos zero))) = num (pos 8742)
port_or_default (some (txt [])) = num (pos 8742)
port_or_default (some p) = p

unfoldable pub connect_meta_among : (Str → Str → Bool) → Str → List Contact → Option (Str × Port)
connect_meta_among eqv h [] = none
connect_meta_among eqv h (c ∷ cs) =
    let rest = connect_meta_among eqv h cs in
    let ch = clean c.hash in
    let ih = clean c.identity_hash in
    if (eqv ch h || (truthy ih && eqv ih h)) && truthy (stripped c.ip)
    then some (stripped c.ip, port_or_default c.port)
    else rest

-- `contact_connect_meta`; `none` is `(None, None)`.
unfoldable pub contact_connect_meta :
    (Str → Str → Bool) → Option Str → Store → Store × Option (Str × Port)
unfolding connect_meta_among
contact_connect_meta eqv peer_hash s =
    let (s', all) = list_contacts s in (s', connect_meta_among eqv (clean_arg peer_hash) all)
