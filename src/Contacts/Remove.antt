-- ===== src/Contacts/Remove.antt =====
-- `delete_contact` of chatxz/core/contacts.py.
pub mod Laws
use chatxz.Prelude.{
  Bool, false, not, ◌||◌, Option, none, some, List, [], ◌∷◌, if◌then◌else◌, Str, truthy, str_mem,
}
use chatxz.Contacts.Record.{Contact, clean_arg, normalize_contact, contact_hashes}
use chatxz.Contacts.Blocklist.{record_contact_deleted}
use chatxz.Contacts.Store.{Store, load_contact, unlink_contact_file, iter_contact_files}
use chatxz.Contacts.Merge.{should_merge_contacts, share_one}
use chatxz.Contacts.Listing.{find_contact_by_hash}

unfoldable pub select_related : Contact → List (Str × Contact) → List (Str × Contact)
select_related seed [] = []
select_related seed ((name, c) ∷ rest) =
    let more = select_related seed rest in
    if should_merge_contacts seed c || share_one (contact_hashes seed) (contact_hashes c)
    then (name, c) ∷ more
    else more

-- `_related_contact_files`
unfoldable pub related_contact_files : Contact → Store → List (Str × Contact)
unfolding select_related
related_contact_files seed s = select_related (normalize_contact seed) (iter_contact_files s)

-- The loop over the targets, with the files that were seen and whether one was removed.
unfoldable pub remove_targets : List (Str × Contact) → List Str → Bool → Store → Store × Bool
remove_targets [] seen removed s = (s, removed)
remove_targets ((name, c) ∷ rest) seen removed s =
    let skipped = remove_targets rest seen removed s in
    let (s', gone) = unlink_contact_file name s in
    let done =
      remove_targets rest (name ∷ seen) (gone || removed)
        (record s' { deleted = record_contact_deleted c s'.deleted }) in
    if str_mem name seen then skipped else done

abbrev lone_target : Str → Option Contact → List (Str × Contact)
lone_target h none = []
lone_target h (some c) = (h, c) ∷ []

-- The rows to remove: those of the contact that was found, or the file of the hash.
unfoldable pub delete_targets : Str → Option Contact → Store → List (Str × Contact)
delete_targets h (some c) s = related_contact_files c s
delete_targets h none s = lone_target h (load_contact h s)

unfoldable pub delete_rows : Str → List (Str × Contact) → Store → Store × Bool
delete_rows h [] s = unlink_contact_file h s
delete_rows h (t ∷ ts) s = remove_targets (t ∷ ts) [] false s

unfoldable pub delete_contact : Option Str → Store → Store × Bool
unfolding delete_targets delete_rows
delete_contact peer_hash s =
    let h = clean_arg peer_hash in
    if not (truthy h)
    then (s, false)
    else (let (s', found) = find_contact_by_hash (some h) s in
        delete_rows h (delete_targets h found s') s')
