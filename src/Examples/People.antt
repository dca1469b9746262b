-- ===== src/Examples/People.antt =====
-- Normal forms, merging and saving of the contacts of contacts.py.
use chatxz.Prelude.{
  ◌≡◌, refl, true, false, ◌||◌, none, some, if◌then◌else◌, length, take, keep, codes, str_eq,
  truthy, str_mem, starts_with, without, is_space, lstrip, rstrip, strip, lower_code, lower,
  split_on, split,
}
use chatxz.Prelude.Int.{insert_sorted, sorted, str_le}
use chatxz.Dict.{put, pop, has_key, get}
use chatxz.Contacts.Blocklist.{Peer, peer_is_deleted, clear_contact_deleted}
use chatxz.Contacts.Blocklist.Laws.{clear_contact_deleted_leaves_name}
use chatxz.Contacts.Listing.{
  find_primary, point_to, strays, group_entry, group_all, absorb, all_strays, persist_all,
  is_keeper, unlink_orphans, find_among, list_contacts, merge_pass, find_contact_by_hash,
}
use chatxz.Contacts.Merge.{
  identity_keys, transport_keys, contact_dedup_keys, share_one, should_merge_contacts,
  merge_contact_entries,
}
use chatxz.Contacts.Merge.Laws.{should_merge_contacts_sym}
use chatxz.Contacts.Names.{
  matches_a_hash, folded, is_custom, is_serial_via, name_is_hash_like, names_related,
  resolve_contact_name,
}
use chatxz.Contacts.Record.{
  clean, clean_arg, is_entry, normalize_contact, contact_hashes, stored_hashes,
  contact_primary_hash, stored_primary,
}
use chatxz.Contacts.Record.Laws.{IsNormal, normalize_contact-IsNormal}
use chatxz.Contacts.Save.{
  find_by_identity, find_by_name, save_mode, put_name, put_endpoint, put_lan_identity,
  put_serial_identity, put_dual, serial_target, settle_serial, put_serial, put_lan, put_transport,
  save_contact, existing_contact, updated_contact,
}
use chatxz.Contacts.Save.Files.{saved_key}
use chatxz.Contacts.Save.Laws.{
  saved_contact, save_contact-IsNormal, get-save_contact, load_contact-save_contact,
  save_contact_unblocks,
}
use chatxz.Contacts.Store.{
  write_contact, unlink_contact_file, unlink_all_but, purge_stale_contact_files, object,
  load_contact, or_default, iter_contact_files, read_body,
}
use chatxz.Contacts.Store.Files.{is_tidy, all_tidy}
use chatxz.Contacts.Sync.Refresh.{refreshed}
use chatxz.Contacts.Sync.Refresh.Laws.{refreshed_custom}
use chatxz.Examples.Book.{ann, ann_usb, book, save_args, lan_peer}

normalize_contact-IsNormal_example : IsNormal (normalize_contact ann_usb)
unfolding is_entry
normalize_contact-IsNormal_example = normalize_contact-IsNormal ann_usb refl

should_merge_contacts_sym_example :
    should_merge_contacts ann ann_usb ≡ should_merge_contacts ann_usb ann
should_merge_contacts_sym_example = should_merge_contacts_sym ann ann_usb

refreshed_custom_example :
    ((refreshed lan_peer none ann).entry.name ≡ ann.name)
    × (is_custom (refreshed lan_peer none ann).entry ≡ true)
refreshed_custom_example = refreshed_custom lan_peer none ann refl

real_hash : truthy (clean_arg save_args.peer_hash) ≡ true
unfolding clean_arg strip without keep codes
real_hash = refl

save_contact-IsNormal_example :
    ((save_contact save_args book).1 ≡ some (saved_contact save_args book))
    × IsNormal (saved_contact save_args book)
save_contact-IsNormal_example = save_contact-IsNormal save_args book real_hash

saved_tidy : all_tidy (contact_hashes (saved_contact save_args book)) ≡ true
unfolding all_tidy codes str_eq str_mem strip lstrip rstrip without keep is_space lower lower_code
    starts_with take length split split_on clean clean_arg is_entry normalize_contact stored_hashes
    contact_hashes stored_primary contact_primary_hash matches_a_hash name_is_hash_like
    resolve_contact_name names_related is_serial_via read_body load_contact iter_contact_files
    find_primary point_to strays group_entry group_all absorb merge_pass all_strays persist_all
    is_keeper unlink_orphans list_contacts find_among find_contact_by_hash identity_keys
    transport_keys contact_dedup_keys share_one should_merge_contacts merge_contact_entries
    write_contact unlink_contact_file unlink_all_but purge_stale_contact_files get put pop has_key
    insert_sorted sorted str_le find_by_identity find_by_name existing_contact save_mode put_name
    put_endpoint put_lan_identity put_serial_identity put_dual serial_target settle_serial
    put_serial put_lan put_transport updated_contact saved_key
saved_tidy = refl

key_tidy : is_tidy (clean_arg save_args.peer_hash) ≡ true
unfolding clean_arg strip lstrip rstrip without keep is_space codes str_eq
key_tidy = refl

get-save_contact_example : get (codes "dd04") (save_contact save_args book).0.files ≡ (
    if str_eq (codes "dd04") (saved_key save_args (saved_contact save_args book))
    then some (object (saved_contact save_args book))
    else if str_mem (codes "dd04") (contact_hashes (saved_contact save_args book))
        || str_eq (codes "dd04") (clean_arg save_args.peer_hash)
    then none
    else get (codes "dd04") (existing_contact save_args book).0.files)
unfolding codes
get-save_contact_example =
    get-save_contact save_args book (codes "dd04") real_hash saved_tidy key_tidy refl

saved_has_key : truthy (contact_primary_hash (saved_contact save_args book)) ≡ true
unfolding codes str_eq str_mem strip lstrip rstrip without keep is_space lower lower_code
    starts_with take length split split_on clean clean_arg is_entry normalize_contact stored_hashes
    contact_hashes stored_primary contact_primary_hash matches_a_hash name_is_hash_like
    resolve_contact_name names_related is_serial_via read_body load_contact iter_contact_files
    find_primary point_to strays group_entry group_all absorb merge_pass all_strays persist_all
    is_keeper unlink_orphans list_contacts find_among find_contact_by_hash identity_keys
    transport_keys contact_dedup_keys share_one should_merge_contacts merge_contact_entries
    write_contact unlink_contact_file unlink_all_but purge_stale_contact_files get put pop has_key
    insert_sorted sorted str_le find_by_identity find_by_name existing_contact save_mode put_name
    put_endpoint put_lan_identity put_serial_identity put_dual serial_target settle_serial
    put_serial put_lan put_transport updated_contact saved_key
saved_has_key = refl

load_contact-save_contact_example :
    load_contact
      (contact_primary_hash (saved_contact save_args book))
      (save_contact save_args book).0
    ≡ some (record (saved_contact save_args book) {
      name =
          or_default
            (saved_contact save_args book).name
            (contact_primary_hash (saved_contact save_args book));
    })
load_contact-save_contact_example =
    load_contact-save_contact save_args book real_hash saved_tidy key_tidy saved_has_key

was_target :
    (str_mem (codes "dd04") (contact_hashes (saved_contact save_args book))
      || str_eq (codes "dd04") (clean_arg save_args.peer_hash))
    ≡ true
unfolding codes str_eq str_mem strip lstrip rstrip without keep is_space lower lower_code
    starts_with take length split split_on clean clean_arg is_entry normalize_contact stored_hashes
    contact_hashes stored_primary contact_primary_hash matches_a_hash name_is_hash_like
    resolve_contact_name names_related is_serial_via read_body load_contact iter_contact_files
    find_primary point_to strays group_entry group_all absorb merge_pass all_strays persist_all
    is_keeper unlink_orphans list_contacts find_among find_contact_by_hash identity_keys
    transport_keys contact_dedup_keys share_one should_merge_contacts merge_contact_entries
    write_contact unlink_contact_file unlink_all_but purge_stale_contact_files get put pop has_key
    insert_sorted sorted str_le find_by_identity find_by_name existing_contact save_mode put_name
    put_endpoint put_lan_identity put_serial_identity put_dual serial_target settle_serial
    put_serial put_lan put_transport updated_contact saved_key
was_target = refl

save_contact_unblocks_example :
    (str_mem (codes "dd04") (save_contact save_args book).0.deleted.hashes ≡ false)
    × (str_mem (codes "dd04") (save_contact save_args book).0.deleted.identities ≡ false)
save_contact_unblocks_example =
    save_contact_unblocks save_args book (codes "dd04") real_hash key_tidy was_target

-- Cid was deleted by name before.
abbrev cid_peer : Peer
cid_peer = record lan_peer {
  hash = some (codes "ee05");
  identity_hash = none;
  name = some (codes "Cid");
}

cid_has_name : truthy (folded cid_peer.name) ≡ true
unfolding strip lstrip rstrip lower lower_code is_space codes
cid_has_name = refl

cid_listed : str_mem (folded cid_peer.name) book.deleted.names ≡ true
unfolding strip lstrip rstrip lower lower_code is_space codes str_mem str_eq
cid_listed = refl

clear_contact_deleted_leaves_name_example :
    peer_is_deleted cid_peer (clear_contact_deleted (some ann) (some (codes "cc03")) book.deleted)
    ≡ true
clear_contact_deleted_leaves_name_example =
    clear_contact_deleted_leaves_name (some ann) (some (codes "cc03")) book.deleted cid_peer
      cid_has_name cid_listed
