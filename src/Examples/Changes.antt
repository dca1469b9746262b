-- ===== src/Examples/Changes.antt =====
-- Deleting contacts of contacts.py, and what discovery changes in them.
use chatxz.Scope.{same_lan_scope, quad, same_quads}
use chatxz.Prelude.Int.{parse_int, insert_sorted, sorted, str_le}
use chatxz.Dict.{put, pop, has_key}
use chatxz.Contacts.Names.{matches_a_hash}
use chatxz.Contacts.Store.{
  write_contact, unlink_contact_file, unlink_all_but, purge_stale_contact_files,
}
use chatxz.Contacts.Merge.{identity_keys, transport_keys, contact_dedup_keys, share_one}
use chatxz.Contacts.Listing.{
  find_primary, point_to, strays, group_entry, group_all, absorb, all_strays, persist_all,
  is_keeper, unlink_orphans, find_among,
}
use chatxz.Contacts.Save.{
  find_by_identity, find_by_name, save_mode, put_name, put_endpoint, put_lan_identity,
  put_serial_identity, put_dual, serial_target, settle_serial, put_serial, put_lan, put_transport,
}
use chatxz.Contacts.Remove.{delete_targets, related_contact_files, select_related}
use chatxz.Prelude.{
  ◌≡◌, refl, true, false, Option, none, some, [], map, length, take, keep, Str, codes, str_eq,
  truthy, str_mem, starts_with, without, is_space, lstrip, rstrip, strip, lower_code, lower,
  split_on, split,
}
use chatxz.Dict.{get}
use chatxz.Contacts.Record.{
  Contact, clean, clean_arg, stripped, is_entry, normalize_contact, contact_hashes, stored_hashes,
  contact_primary_hash, stored_primary,
}
use chatxz.Contacts.Names.{is_serial_via, name_is_hash_like, names_related, resolve_contact_name}
use chatxz.Contacts.Store.{load_contact, iter_contact_files, read_body}
use chatxz.Contacts.Merge.{should_merge_contacts, merge_contact_entries}
use chatxz.Contacts.Listing.{list_contacts, merge_pass, find_contact_by_hash}
use chatxz.Contacts.Listing.Laws.{any_has, list_contacts-hashes}
use chatxz.Contacts.Save.{existing_contact, updated_contact}
use chatxz.Contacts.Save.Files.{saved_key}
use chatxz.Contacts.Remove.{delete_contact}
use chatxz.Contacts.Remove.Laws.{
  targets_of, is_fresh, rows_have, rows_name, delete_contact-files, delete_contact_stays,
}
use chatxz.Contacts.Sync.Match.{should_update_contact_ip}
use chatxz.Contacts.Sync.Refresh.{sync_contact_from_discovery, refreshed}
use chatxz.Contacts.Sync.Refresh.Laws.{refreshed_local}
use chatxz.Examples.Book.{ann, ann_usb, book, lan_peer, usb_peer}

delete_hash : truthy (clean_arg (some (codes "aa01"))) ≡ true
unfolding clean_arg strip lstrip rstrip without keep is_space codes
delete_hash = refl

delete_fresh : is_fresh (targets_of (clean_arg (some (codes "aa01"))) book) [] ≡ true
unfolding is_fresh delete_targets related_contact_files select_related codes str_eq str_mem strip
    lstrip rstrip without keep is_space lower lower_code starts_with take length split split_on
    clean clean_arg is_entry normalize_contact stored_hashes contact_hashes stored_primary
    contact_primary_hash matches_a_hash name_is_hash_like resolve_contact_name names_related
    is_serial_via read_body load_contact iter_contact_files find_primary point_to strays group_entry
    group_all absorb merge_pass all_strays persist_all is_keeper unlink_orphans list_contacts
    find_among find_contact_by_hash identity_keys transport_keys contact_dedup_keys share_one
    should_merge_contacts merge_contact_entries write_contact unlink_contact_file unlink_all_but
    purge_stale_contact_files get put pop has_key insert_sorted sorted str_le find_by_identity
    find_by_name existing_contact save_mode put_name put_endpoint put_lan_identity
    put_serial_identity put_dual serial_target settle_serial put_serial put_lan put_transport
    updated_contact saved_key
delete_fresh = refl

peer_hash_real : truthy (clean lan_peer.hash) ≡ true
unfolding clean without keep codes
peer_hash_real = refl

peer_in_rows :
    rows_have (clean lan_peer.hash) (targets_of (clean_arg (some (codes "aa01"))) book) ≡ true
unfolding rows_have delete_targets related_contact_files select_related codes str_eq str_mem strip
    lstrip rstrip without keep is_space lower lower_code starts_with take length split split_on
    clean clean_arg is_entry normalize_contact stored_hashes contact_hashes stored_primary
    contact_primary_hash matches_a_hash name_is_hash_like resolve_contact_name names_related
    is_serial_via read_body load_contact iter_contact_files find_primary point_to strays group_entry
    group_all absorb merge_pass all_strays persist_all is_keeper unlink_orphans list_contacts
    find_among find_contact_by_hash identity_keys transport_keys contact_dedup_keys share_one
    should_merge_contacts merge_contact_entries write_contact unlink_contact_file unlink_all_but
    purge_stale_contact_files get put pop has_key insert_sorted sorted str_le find_by_identity
    find_by_name existing_contact save_mode put_name put_endpoint put_lan_identity
    put_serial_identity put_dual serial_target settle_serial put_serial put_lan put_transport
    updated_contact saved_key
peer_in_rows = refl

delete_contact_stays_example :
    sync_contact_from_discovery lan_peer none none (delete_contact (some (codes "aa01")) book).0
    ≡ ((delete_contact (some (codes "aa01")) book).0, none)
delete_contact_stays_example =
    delete_contact_stays (some (codes "aa01")) book lan_peer none none delete_hash delete_fresh
      peer_hash_real peer_in_rows

file_in_rows : rows_name (codes "aa01") (targets_of (clean_arg (some (codes "aa01"))) book) ≡ true
unfolding rows_name delete_targets related_contact_files select_related codes str_eq str_mem strip
    lstrip rstrip without keep is_space lower lower_code starts_with take length split split_on
    clean clean_arg is_entry normalize_contact stored_hashes contact_hashes stored_primary
    contact_primary_hash matches_a_hash name_is_hash_like resolve_contact_name names_related
    is_serial_via read_body load_contact iter_contact_files find_primary point_to strays group_entry
    group_all absorb merge_pass all_strays persist_all is_keeper unlink_orphans list_contacts
    find_among find_contact_by_hash identity_keys transport_keys contact_dedup_keys share_one
    should_merge_contacts merge_contact_entries write_contact unlink_contact_file unlink_all_but
    purge_stale_contact_files get put pop has_key insert_sorted sorted str_le find_by_identity
    find_by_name existing_contact save_mode put_name put_endpoint put_lan_identity
    put_serial_identity put_dual serial_target settle_serial put_serial put_lan put_transport
    updated_contact saved_key
file_in_rows = refl

delete_contact-files_example :
    get (codes "aa01") (delete_contact (some (codes "aa01")) book).0.files ≡ none
delete_contact-files_example =
    delete_contact-files (some (codes "aa01")) book (codes "aa01") delete_hash delete_fresh
      file_in_rows

is_listed : any_has (codes "1d01") (list_contacts book).1 ≡ true
unfolding any_has codes str_eq str_mem strip lstrip rstrip without keep is_space lower lower_code
    starts_with take length split split_on clean clean_arg is_entry normalize_contact stored_hashes
    contact_hashes stored_primary contact_primary_hash matches_a_hash name_is_hash_like
    resolve_contact_name names_related is_serial_via read_body load_contact iter_contact_files
    find_primary point_to strays group_entry group_all absorb merge_pass all_strays persist_all
    is_keeper unlink_orphans list_contacts find_among find_contact_by_hash identity_keys
    transport_keys contact_dedup_keys share_one should_merge_contacts merge_contact_entries
    write_contact unlink_contact_file unlink_all_but purge_stale_contact_files get put pop has_key
    insert_sorted sorted str_le find_by_identity find_by_name existing_contact save_mode put_name
    put_endpoint put_lan_identity put_serial_identity put_dual serial_target settle_serial
    put_serial put_lan put_transport updated_contact saved_key
is_listed = refl

list_contacts-hashes_example :
    any_has (codes "1d01") (map (λ (r : Str × Contact). r.1) (iter_contact_files book)) ≡ true
list_contacts-hashes_example = list_contacts-hashes (codes "1d01") book is_listed

merged_has : str_mem (codes "bb02") (contact_hashes (merge_contact_entries ann ann_usb)) ≡ true
unfolding codes str_eq str_mem strip lstrip rstrip without keep is_space lower lower_code
    starts_with take length split split_on clean clean_arg is_entry normalize_contact stored_hashes
    contact_hashes stored_primary contact_primary_hash matches_a_hash name_is_hash_like
    resolve_contact_name names_related is_serial_via read_body load_contact iter_contact_files
    find_primary point_to strays group_entry group_all absorb merge_pass all_strays persist_all
    is_keeper unlink_orphans list_contacts find_among find_contact_by_hash identity_keys
    transport_keys contact_dedup_keys share_one should_merge_contacts merge_contact_entries
    write_contact unlink_contact_file unlink_all_but purge_stale_contact_files get put pop has_key
    insert_sorted sorted str_le find_by_identity find_by_name existing_contact save_mode put_name
    put_endpoint put_lan_identity put_serial_identity put_dual serial_target settle_serial
    put_serial put_lan put_transport updated_contact saved_key
merged_has = refl

over_usb : is_serial_via usb_peer.via ≡ true
unfolding codes str_eq str_mem strip lstrip rstrip without keep is_space lower lower_code
    starts_with take length split split_on clean clean_arg is_entry normalize_contact stored_hashes
    contact_hashes stored_primary contact_primary_hash matches_a_hash name_is_hash_like
    resolve_contact_name names_related is_serial_via read_body load_contact iter_contact_files
    find_primary point_to strays group_entry group_all absorb merge_pass all_strays persist_all
    is_keeper unlink_orphans list_contacts find_among find_contact_by_hash identity_keys
    transport_keys contact_dedup_keys share_one should_merge_contacts merge_contact_entries
    write_contact unlink_contact_file unlink_all_but purge_stale_contact_files get put pop has_key
    insert_sorted sorted str_le find_by_identity find_by_name existing_contact save_mode put_name
    put_endpoint put_lan_identity put_serial_identity put_dual serial_target settle_serial
    put_serial put_lan put_transport updated_contact saved_key
over_usb = refl

over_lan : is_serial_via lan_peer.via ≡ false
unfolding codes str_eq str_mem strip lstrip rstrip without keep is_space lower lower_code
    starts_with take length split split_on clean clean_arg is_entry normalize_contact stored_hashes
    contact_hashes stored_primary contact_primary_hash matches_a_hash name_is_hash_like
    resolve_contact_name names_related is_serial_via read_body load_contact iter_contact_files
    find_primary point_to strays group_entry group_all absorb merge_pass all_strays persist_all
    is_keeper unlink_orphans list_contacts find_among find_contact_by_hash identity_keys
    transport_keys contact_dedup_keys share_one should_merge_contacts merge_contact_entries
    write_contact unlink_contact_file unlink_all_but purge_stale_contact_files get put pop has_key
    insert_sorted sorted str_le find_by_identity find_by_name existing_contact save_mode put_name
    put_endpoint put_lan_identity put_serial_identity put_dual serial_target settle_serial
    put_serial put_lan put_transport updated_contact saved_key
over_lan = refl

abbrev here : Option Str
here = some (codes "192.168.1.2")

found_elsewhere : same_lan_scope (stripped lan_peer.ip) (stripped here) ≡ false
unfolding same_lan_scope quad same_quads parse_int codes str_eq strip lstrip rstrip is_space split
    split_on
found_elsewhere = refl

saved_here : same_lan_scope (stripped ann.ip) (stripped here) ≡ true
unfolding same_lan_scope quad same_quads parse_int codes str_eq strip lstrip rstrip is_space split
    split_on
saved_here = refl

refreshed_local_example : (refreshed lan_peer here ann).entry.ip ≡ ann.ip
unfolding codes strip lstrip rstrip is_space
refreshed_local_example =
    refreshed_local lan_peer here ann over_lan refl refl found_elsewhere saved_here

ip_settled :
    should_update_contact_ip
      (some (codes "10.0.0.1"))
      (some (codes "192.168.1.5"))
      (some (codes "192.168.1.2"))
    ≡ true
unfolding should_update_contact_ip same_lan_scope quad same_quads parse_int codes str_eq strip
    lstrip rstrip is_space split split_on
ip_settled = refl

same_identity : clean lan_peer.identity_hash ≡ clean (normalize_contact ann).identity_hash
unfolding codes str_eq str_mem strip lstrip rstrip without keep is_space lower lower_code
    starts_with take length split split_on clean clean_arg is_entry normalize_contact stored_hashes
    contact_hashes stored_primary contact_primary_hash matches_a_hash name_is_hash_like
    resolve_contact_name names_related is_serial_via read_body load_contact iter_contact_files
    find_primary point_to strays group_entry group_all absorb merge_pass all_strays persist_all
    is_keeper unlink_orphans list_contacts find_among find_contact_by_hash identity_keys
    transport_keys contact_dedup_keys share_one should_merge_contacts merge_contact_entries
    write_contact unlink_contact_file unlink_all_but purge_stale_contact_files get put pop has_key
    insert_sorted sorted str_le find_by_identity find_by_name existing_contact save_mode put_name
    put_endpoint put_lan_identity put_serial_identity put_dual serial_target settle_serial
    put_serial put_lan put_transport updated_contact saved_key
same_identity = refl

identity_real : truthy (clean lan_peer.identity_hash) ≡ true
unfolding clean without keep codes
identity_real = refl
