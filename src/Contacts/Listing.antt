-- ===== src/Contacts/Listing.antt =====
-- `list_contacts` of chatxz/core/contacts.py: it reads all files, merges those of one peer, and cleans
-- the directory up.
pub mod Laws
use chatxz.Prelude.{
  ℕ, zero, suc, Bool, true, false, not, ◌&&◌, ◌||◌, Option, none, some, List, [], ◌∷◌, ◌++◌, ltb,
  if◌then◌else◌, is_some, length, keep, all, Str, str_eq, truthy, str_mem,
}
use chatxz.Dict.{Dict, get, put}
use chatxz.Contacts.Record.{
  Contact, clean_arg, normalize_contact, contact_hashes, contact_primary_hash,
}
use chatxz.Contacts.Store.{
  Store, iter_contact_files, write_contact, unlink_contact_file, purge_stale_contact_files,
}
use chatxz.Contacts.Merge.{contact_dedup_keys, should_merge_contacts, merge_contact_entries}

-- The variables of the first loop.
pub record Groups : Type 0 where
  pub deduped : Dict Contact
  pub key_to_primary : Dict Str
  pub orphans : List Str

-- `for key in keys: if key in key_to_primary: primary = ...; break`
unfoldable pub find_primary : List Str → Dict Str → Option Str
find_primary [] m = none
find_primary (k ∷ ks) m =
    let rest = find_primary ks m in elim (get k m) [ none ↦ rest | some p ↦ some p ]

unfoldable pub point_to : Str → List Str → Dict Str → Dict Str
point_to primary [] m = m
point_to primary (k ∷ ks) m = point_to primary ks (put k primary m)

-- `for h in hashes: if h and h != keep: orphans.append(h)`
unfoldable pub strays : Str → List Str → List Str
strays keep [] = []
strays keep (h ∷ hs) =
    let rest = strays keep hs in if truthy h && not (str_eq h keep) then h ∷ rest else rest

-- The key of a new group: the first of its keys, of which there is always one.
first_key : List Str → Str
first_key [] = []
first_key (k ∷ ks) = k

-- The entry that a primary key stands for; there is always one.
abbrev merged_with : Option Contact → Contact → Contact
merged_with none entry = entry
merged_with (some c) entry = merge_contact_entries c entry

unfoldable pub group_entry : Contact → Groups → Groups
unfolding first_key strays point_to find_primary
group_entry raw g =
    let entry = normalize_contact raw in
    let keys = contact_dedup_keys entry in
    elim (find_primary keys g.key_to_primary) [
      | none ↦ record g {
        deduped = put (first_key keys) entry g.deduped;
        key_to_primary = point_to (first_key keys) keys g.key_to_primary;
      }
      | some primary ↦
          let merged = merged_with (get primary g.deduped) entry in
          let keep = contact_primary_hash merged in
          record {
            deduped = put primary merged g.deduped;
            key_to_primary = point_to primary keys g.key_to_primary;
            orphans =
                g.orphans
                ++ (strays keep (contact_hashes entry) ++ strays keep (contact_hashes merged));
          }
    ]

unfoldable pub group_all : List (Str × Contact) → Groups → Groups
unfolding group_entry
group_all [] g = g
group_all ((name, c) ∷ rest) g = group_all rest (group_entry c g)

values : Dict Contact → List Contact
values [] = []
values ((k, c) ∷ d) = c ∷ values d

-- The inner loop of the second pass: the merged entry, the entries that stay, and the orphans.
pub record Absorbed : Type 0 where
  pub current : Contact
  pub left : List Contact
  pub orphans : List Str

unfoldable pub absorb : Contact → List Contact → Absorbed
absorb current [] = record { current = current; left = []; orphans = [] }
absorb current (c ∷ cs) =
    if should_merge_contacts current c
    then (let merged = merge_contact_entries current c in
        let rest = absorb merged cs in
        record rest {
          orphans = strays (contact_primary_hash merged) (contact_hashes c) ++ rest.orphans;
        })
    else (let rest = absorb current cs in record rest { left = c ∷ rest.left })

-- The outer loop: each turn takes one entry at least, so the number of entries is enough turns.
unfoldable pub merge_pass : ℕ → List Contact → List Contact × List Str
unfolding absorb
merge_pass zero cs = ([], [])
merge_pass (suc turns) [] = ([], [])
merge_pass (suc turns) (c ∷ cs) =
    let first = absorb (normalize_contact c) cs in
    let (rest, orphans) = merge_pass turns first.left in
    (first.current ∷ rest, first.orphans ++ orphans)

-- The strays of every listed entry.
unfoldable pub all_strays : List Contact → List Str
unfolding strays
all_strays [] = []
all_strays (c ∷ cs) = strays (contact_primary_hash c) (contact_hashes c) ++ all_strays cs

unfoldable pub persist_all : Bool → List Contact → Store → Store
persist_all needs [] s = s
persist_all needs (c ∷ cs) s =
    let keep = contact_primary_hash c in
    let s' = if needs && truthy keep then write_contact keep (normalize_contact c) s else s in
    persist_all needs cs (purge_stale_contact_files c keep s')

-- `orphan not in keepers`
unfoldable pub is_keeper : Str → List Contact → Bool
is_keeper h [] = false
is_keeper h (c ∷ cs) = str_eq h (contact_primary_hash c) || is_keeper h cs

unfoldable pub unlink_orphans : List Str → List Contact → Store → Store
unlink_orphans [] out s = s
unlink_orphans (h ∷ hs) out s =
    unlink_orphans hs out (if is_keeper h out then s else (unlink_contact_file h s).0)

abbrev any_stray : List Str → Bool
any_stray [] = false
any_stray (h ∷ hs) = true

unfoldable pub list_contacts : Store → Store × List Contact
unfolding values group_all
list_contacts s =
    let raw = iter_contact_files s in
    let g = group_all raw (record { deduped = []; key_to_primary = []; orphans = [] }) in
    let entries = values g.deduped in
    let (out, more) = merge_pass (length entries) entries in
    let orphans = g.orphans ++ (more ++ all_strays out) in
    let needs = ltb (length out) (length raw) || any_stray orphans in
    (unlink_orphans orphans out (persist_all needs out s), out)

unfoldable pub find_among : Str → List Contact → Option Contact
find_among h [] = none
find_among h (c ∷ cs) =
    let rest = find_among h cs in
    if str_mem h (contact_hashes c) then some (normalize_contact c) else rest

-- `find_contact_by_hash`
unfoldable pub find_contact_by_hash : Option Str → Store → Store × Option Contact
unfolding find_among
find_contact_by_hash peer_hash s =
    let h = clean_arg peer_hash in
    if not (truthy h)
    then (s, none)
    else (let (s', all) = list_contacts s in (s', find_among h all))

-- `contact_has_hash`
unfoldable pub contact_has_hash : Option Str → Store → Store × Bool
contact_has_hash peer_hash s =
    let (s', found) = find_contact_by_hash peer_hash s in (s', is_some found)
