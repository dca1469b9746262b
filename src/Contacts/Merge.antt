-- ===== src/Contacts/Merge.antt =====
-- Which contact records belong to one peer, and how they are merged, in chatxz/core/contacts.py.
pub mod Laws
use chatxz.Prelude.{
  Bool, true, false, not, ◌&&◌, ◌||◌, Option, none, some, List, [], ◌∷◌, ◌++◌, if◌then◌else◌, Str,
  codes, str_eq, truthy, or_else, str_mem, strip,
}
use chatxz.Contacts.Record.{
  Port, Contact, clean, stripped, holds, normalize_contact, contact_hashes,
}
use chatxz.Contacts.Names.{folded, name_is_hash_like, names_related, is_custom}

-- `a or b`
abbrev pub either : Option Str → Option Str → Option Str
either a b = if holds a then a else b

-- `_contact_dedup_keys`
unfoldable pub identity_keys : Contact → List Str
identity_keys c =
    let ident = clean c.identity_hash in if truthy ident then (codes "ident:" ++ ident) ∷ [] else []

unfoldable pub transport_keys : Contact → List Str
transport_keys c =
    let lan = clean (either c.lan_hash c.hash) in
    let serial = clean c.serial_hash in
    if truthy lan || truthy serial then (codes "h:" ++ (lan ++ (codes ":" ++ serial))) ∷ [] else []

unfoldable pub name_keys : Contact → List Str
name_keys c =
    let name = folded c.name in
    if truthy name && not (name_is_hash_like c.name (contact_hashes c))
    then (codes "name:" ++ name) ∷ []
    else []

orphan_key : Contact → Str
orphan_key c =
    codes "orphan:"
    ++ or_else (clean (either c.lan_hash c.hash)) (or_else (clean c.serial_hash) (codes "unknown"))

or_orphan : Contact → List Str → List Str
or_orphan c [] = orphan_key c ∷ []
or_orphan c (k ∷ ks) = k ∷ ks

unfoldable pub contact_dedup_keys : Contact → List Str
unfolding or_orphan orphan_key identity_keys transport_keys name_keys
contact_dedup_keys contact =
    let c = normalize_contact contact in
    or_orphan c (identity_keys c ++ (transport_keys c ++ name_keys c))

-- `set(a) & set(b)`
unfoldable pub share_one : List Str → List Str → Bool
share_one [] ys = false
share_one (x ∷ xs) ys = str_mem x ys || share_one xs ys

-- The LAN hash for the comparison: the plain hash stands in where there is no transport hash.
abbrev pub lan_or_hash : Contact → Str
lan_or_hash c =
    if not (truthy (clean c.lan_hash)) && (not (truthy (clean c.serial_hash)) && holds c.hash)
    then clean c.hash
    else clean c.lan_hash

abbrev pub complementary : Str → Str → Str → Str → Bool
complementary a_lan a_serial b_lan b_serial =
    (truthy a_lan && (truthy b_serial && (not (truthy a_serial) && not (truthy b_lan))))
    || (truthy a_serial && (truthy b_lan && (not (truthy a_lan) && not (truthy b_serial))))

-- `_should_merge_contacts`, on records in normal form
unfoldable pub belong_together : Contact → Contact → Bool
unfolding share_one
belong_together a b =
    let compl =
      complementary (lan_or_hash a) (clean a.serial_hash) (lan_or_hash b) (clean b.serial_hash) in
    if share_one (contact_hashes a) (contact_hashes b)
    then true
    else if truthy (clean a.identity_hash)
        && (truthy (clean b.identity_hash)
            && str_eq (clean a.identity_hash) (clean b.identity_hash))
    then true
    else if compl && names_related a.name b.name
    then true
    else compl
      && (truthy (folded a.name)
          && (truthy (folded b.name)
              && (str_eq (folded a.name) (folded b.name)
                  && not (name_is_hash_like a.name (contact_hashes a)))))

unfoldable pub should_merge_contacts : Contact → Contact → Bool
unfolding belong_together
should_merge_contacts primary secondary =
    belong_together (normalize_contact primary) (normalize_contact secondary)

-- `_contact_field_empty`
abbrev pub field_empty : Option Str → Bool
field_empty none = true
field_empty (some s) = not (truthy (strip s))

-- One turn of the loop over the fields.
abbrev pub fill : Option Str → Option Str → Option Str
fill mine theirs = if field_empty mine && not (field_empty theirs) then theirs else mine

abbrev pub fill_port : Option Port → Option Port → Option Port
fill_port none theirs = theirs
fill_port (some p) theirs = some p

fill_fields : Contact → Contact → Contact
fill_fields out other = record out {
  hash = fill out.hash other.hash;
  lan_hash = fill out.lan_hash other.lan_hash;
  serial_hash = fill out.serial_hash other.serial_hash;
  identity_hash = fill out.identity_hash other.identity_hash;
  lan_identity_hash = fill out.lan_identity_hash other.lan_identity_hash;
  serial_identity_hash = fill out.serial_identity_hash other.serial_identity_hash;
  ip = fill out.ip other.ip;
  name = fill out.name other.name;
  port = fill_port out.port other.port;
}

take_custom : Contact → Contact → Contact
take_custom out other =
    if is_custom other
    then record out {
      custom_name = some true;
      name = if truthy (stripped other.name) then other.name else out.name;
    }
    else out

take_lan : Contact → Contact
take_lan out =
    if not (holds out.lan_hash) && holds out.hash then record out { lan_hash = out.hash } else out

-- `_merge_contact_entries`
unfoldable pub merge_contact_entries : Contact → Contact → Contact
unfolding fill_fields take_custom take_lan
merge_contact_entries primary secondary =
    let out = normalize_contact primary in
    let other = normalize_contact secondary in
    normalize_contact (take_lan (take_custom (fill_fields out other) other))
