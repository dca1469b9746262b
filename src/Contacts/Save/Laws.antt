-- ===== src/Contacts/Save/Laws.antt =====
-- What saving a contact guarantees.
use chatxz.Contacts.Save.Files.{saved_key, saved_key_tidy, get-store_contact, deleted-store_contact}
use chatxz.Contacts.Store.Load.{load_of_file}
use chatxz.Contacts.Record.{is_entry}
use chatxz.Contacts.Record.Laws.{
  clean-none, IsNormal, normalize_contact-IsNormal, normalize_contact_fixed,
}
use chatxz.Contacts.Save.{put_name, put_transport, existing_contact, updated_contact, save_contact}
use chatxz.Contacts.Store.{load_contact, load_contact, read_body}
use chatxz.Contacts.Store.{or_default}
use chatxz.Contacts.Record.{contact_primary_hash}
use chatxz.Contacts.Blocklist.{cleared_targets}
use chatxz.Contacts.Merge.Laws.{hashes_twice}
use chatxz.Contacts.Record.Entry.{normalize_contact_alias}
use chatxz.Contacts.Merge.Laws.{hashes_twice}
use chatxz.Contacts.Record.Laws.{clean-none}
use chatxz.Contacts.Save.Entry.{blank_is_nil}
use chatxz.Contacts.Blocklist.Laws.{clear_contact_deleted_lem}
use chatxz.Contacts.Blocklist.{clear_contact_deleted}
use chatxz.Contacts.Record.{clean}
use chatxz.Contacts.Record.{stored_primary}
use chatxz.Prelude.{
  ◌≡◌, refl, sym, ap, ◌∙◌, inl, inr, true, false, ◌||◌, Option, none, some, arith, if◌then◌else◌,
  Option-cases, is_some, Str, str_eq, truthy, str_mem, str_eq_refl, str_eq_iff,
}
use chatxz.Dict.{get}
use chatxz.Contacts.Record.{
  Contact, clean_arg, normalize_contact, contact_hashes, contact_primary_hash,
}
use chatxz.Contacts.Record.Laws.{IsNormal}
use chatxz.Contacts.Store.{Store, object, file_name}
use chatxz.Contacts.Save.Entry.{existing_contact-flagged, put_name-flagged, put_transport-flagged}
use chatxz.Contacts.Store.Files.{is_tidy, all_tidy}
use chatxz.Contacts.Save.{SaveArgs, store_contact, drop_twin}

-- The last test on the two hashes never finds anything, since the record is in normal form.
drop_twin-normalize_contact : (c : Contact) → IsNormal c → drop_twin c ≡ c
unfolding drop_twin
drop_twin-normalize_contact c n = ground (arith, n.no_twins)

updated_contact-IsNormal :
    (a : SaveArgs) (c : Contact) → is_some c.custom_name ≡ true → IsNormal (updated_contact a c)
unfolding updated_contact
updated_contact-IsNormal a c flag =
    let d = put_transport a (put_name a c) in
    let kept = put_transport-flagged a (put_name a c) (put_name-flagged a c flag) in
    let normal = normalize_contact-IsNormal d (unfold is_entry in ground (arith, kept)) in
    rw (drop_twin-normalize_contact (normalize_contact d) normal) normal

-- The record that a save makes of what it found.
abbrev pub saved_contact : SaveArgs → Store → Contact
saved_contact a s = updated_contact a (existing_contact a s).1

saved_contact_fixed :
    (a : SaveArgs) (s : Store) → normalize_contact (saved_contact a s) ≡ saved_contact a s
saved_contact_fixed a s =
    normalize_contact_fixed (saved_contact a s)
      (updated_contact-IsNormal a (existing_contact a s).1 (existing_contact-flagged a s))

-- A save with a hash that is not blank succeeds, and the record that it returns is in normal
-- form.
pub save_contact-IsNormal :
    (a : SaveArgs) (s : Store)
    → truthy (clean_arg a.peer_hash) ≡ true
    → ((save_contact a s).1 ≡ some (saved_contact a s)) × IsNormal (saved_contact a s)
unfolding save_contact
save_contact-IsNormal a s real = (
  ground (arith, saved_contact_fixed a s),
  updated_contact-IsNormal a (existing_contact a s).1 (existing_contact-flagged a s),
)

-- A save with a hash, where the hash that was passed and all hashes of the saved record are the
-- names of their own files, leaves under the record's key the record, no file under any other of
-- its hashes nor under the hash that was passed, and every other file as the search for an
-- existing contact left it.
pub get-save_contact :
    (a : SaveArgs) (s : Store) (j : Str)
    → truthy (clean_arg a.peer_hash) ≡ true
    → all_tidy (contact_hashes (saved_contact a s)) ≡ true
    → is_tidy (clean_arg a.peer_hash) ≡ true
    → truthy j ≡ true
    → get j (save_contact a s).0.files ≡ (
        if str_eq j (saved_key a (saved_contact a s))
        then some (object (saved_contact a s))
        else if str_mem j (contact_hashes (saved_contact a s)) || str_eq j (clean_arg a.peer_hash)
        then none
        else get j (existing_contact a s).0.files)
unfolding save_contact
get-save_contact a s j real tidy here real_j =
    let c = saved_contact a s in
    ground (
      arith,
      get-store_contact a c (existing_contact a s).0 j,
      saved_contact_fixed a s,
      saved_key_tidy a c,
    )

none_default : (o : Option Str) (k : Str) → o ≡ none → or_default o k ≡ some k
none_default o k e = rw e refl

some_default : (o : Option Str) (k h : Str) → o ≡ some h → or_default o k ≡ o
some_default none k h e = cc
some_default (some x) k h e = refl

serial_key :
    (c : Contact)
    → IsNormal c
    → c.hash ≡ none
    → truthy (clean c.lan_hash) ≡ false
    → contact_primary_hash c ≡ clean c.serial_hash
unfolding contact_primary_hash stored_primary
serial_key c n e lan =
    ground (arith, normalize_contact_fixed c n, clean-none, blank_is_nil (clean c.serial_hash))

load_saved :
    (c : Contact)
    → IsNormal c
    → truthy (contact_primary_hash c) ≡ true
    → read_body (contact_primary_hash c) (object c)
      ≡ record c { name = or_default c.name (contact_primary_hash c) }
unfolding read_body
load_saved c n real =
    let k = contact_primary_hash c in
    let d = record c { name = or_default c.name k } in
    let fixed = normalize_contact_fixed d (record {
      no_twins = n.no_twins;
      lan_has_hash = n.lan_has_hash;
      hash_is_placed = n.hash_is_placed;
      no_alias = n.no_alias;
      lan_has_identity = n.lan_has_identity;
      flagged = n.flagged;
    }) in
    elim (Option-cases c.hash) [
      | inl e ↦
          let lan : truthy (clean c.lan_hash) ≡ false = ground (arith, n.lan_has_hash) in
          let key : k ≡ clean c.serial_hash = serial_key c n e lan in
          ap (λ x. normalize_contact (record d { hash = x }))
            (none_default c.hash k e ∙ ap some key)
          ∙ normalize_contact_alias d e lan (ap truthy (sym key) ∙ real)
          ∙ fixed
      | inr (h, e) ↦
          ap (λ x. normalize_contact (record d { hash = x })) (some_default c.hash k h e) ∙ fixed
    ]

mem-cleared_targets :
    (t h : Str) (c : Contact)
    → truthy h ≡ true
    → is_tidy h ≡ true
    → str_mem t (contact_hashes c) || str_eq t h ≡ true
    → str_mem t (cleared_targets (some c) (some h)) ≡ true
unfolding cleared_targets str_mem clean_arg
mem-cleared_targets t h c real here there =
    ground (arith, hashes_twice c, str_eq_iff (file_name h) h)

-- After a save with a hash that is the name of its own file, neither this hash nor any hash of
-- the saved record is on the blocklist of hashes or of identities.
pub save_contact_unblocks :
    (a : SaveArgs) (s : Store) (t : Str)
    → truthy (clean_arg a.peer_hash) ≡ true
    → is_tidy (clean_arg a.peer_hash) ≡ true
    → str_mem t (contact_hashes (saved_contact a s)) || str_eq t (clean_arg a.peer_hash) ≡ true
    → (str_mem t (save_contact a s).0.deleted.hashes ≡ false)
      × (str_mem t (save_contact a s).0.deleted.identities ≡ false)
unfolding save_contact store_contact
save_contact_unblocks a s t real here there =
    let c = saved_contact a s in
    let h = clean_arg a.peer_hash in
    let idx = (existing_contact a s).0.deleted in
    let cleared = clear_contact_deleted_lem (some c) (some h) idx t in
    let target = mem-cleared_targets t h c real here there in
    let same : (save_contact a s).0.deleted ≡ clear_contact_deleted (some c) (some h) idx =
      ground (arith, deleted-store_contact a c (existing_contact a s).0, saved_contact_fixed a s) in
    rw same (ground (arith, cleared.0), ground (arith, cleared.1))

-- After a save with a hash, where the hash that was passed and all hashes of the saved record are
-- the names of their own files and the record has a key, loading the key gives the saved record
-- back; a missing name is read as the key.
pub load_contact-save_contact :
    (a : SaveArgs) (s : Store)
    → truthy (clean_arg a.peer_hash) ≡ true
    → all_tidy (contact_hashes (saved_contact a s)) ≡ true
    → is_tidy (clean_arg a.peer_hash) ≡ true
    → truthy (contact_primary_hash (saved_contact a s)) ≡ true
    → load_contact (contact_primary_hash (saved_contact a s)) (save_contact a s).0
      ≡ some (record (saved_contact a s) {
        name = or_default (saved_contact a s).name (contact_primary_hash (saved_contact a s));
      })
unfolding saved_key
load_contact-save_contact a s real tidy here keyed =
    let c = saved_contact a s in
    let k = contact_primary_hash c in
    let file : get k (save_contact a s).0.files ≡ some (object c) =
      ground (arith, get-save_contact a s k real tidy here keyed, str_eq_refl k) in
    load_of_file k (save_contact a s).0 (object c) file
    ∙ ap some (load_saved c (save_contact-IsNormal a s real).1 keyed)
