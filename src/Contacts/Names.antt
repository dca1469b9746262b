-- ===== src/Contacts/Names.antt =====
-- Display names of contacts in chatxz/core/contacts.py.
pub mod Laws
use chatxz.Prelude.{
  Bool, true, false, not, ◌&&◌, ◌||◌, Option, none, some, List, [], ◌∷◌, if◌then◌else◌, take, Str,
  codes, str_eq, truthy, or_empty, or_else, starts_with, strip, lower,
}
use chatxz.Contacts.Record.{Contact, stripped, normalize_contact, contact_hashes}

-- `raw == h or raw == h[:8] or raw == h[:12] or raw.startswith(h[:8])`
abbrev pub is_prefix_of_hash : Str → Str → Bool
is_prefix_of_hash raw h =
    str_eq raw h
    || (str_eq raw (take 8 h) || (str_eq raw (take 12 h) || starts_with raw (take 8 h)))

unfoldable pub matches_a_hash : Str → List Str → Bool
matches_a_hash raw [] = false
matches_a_hash raw (h ∷ hs) =
    let rest = matches_a_hash raw hs in
    if not (truthy h) then rest else if is_prefix_of_hash raw h then true else rest

-- `(name or "").strip().lower()`
abbrev pub folded : Option Str → Str
folded name = lower (strip (or_empty name))

unfoldable pub name_is_hash_like : Option Str → List Str → Bool
unfolding matches_a_hash
name_is_hash_like name hashes =
    if not (truthy (folded name)) then true else matches_a_hash (folded name) hashes

abbrev pub is_custom : Contact → Bool
is_custom c = elim c.custom_name [ none ↦ false | some b ↦ b ]

-- `_resolve_contact_name`
unfoldable pub resolve_contact_name : Contact → Option Str → Bool → Str
resolve_contact_name existing name custom_name =
    let entry = normalize_contact existing in
    let hashes = contact_hashes entry in
    let incoming = stripped name in
    let saved = stripped entry.name in
    if custom_name && truthy incoming
    then incoming
    else if is_custom entry
    then or_else saved incoming
    else if truthy incoming && not (name_is_hash_like (some incoming) hashes)
    then incoming
    else if truthy saved && not (name_is_hash_like (some saved) hashes)
    then saved
    else or_else incoming saved

-- `_names_related`
unfoldable pub names_related : Option Str → Option Str → Bool
names_related a b =
    let left = folded a in
    let right = folded b in
    if not (truthy left) || not (truthy right)
    then false
    else if str_eq left right
    then true
    else starts_with left right || starts_with right left

-- `_peer_transport_family`: true for serial
unfoldable pub is_serial_via : Option Str → Bool
is_serial_via via = str_eq (folded via) (codes "serial")
