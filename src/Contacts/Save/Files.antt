-- ===== src/Contacts/Save/Files.antt =====
-- The files and the blocklist after `save_contact` stored a record.
use chatxz.Contacts.Store.{write_contact}
use chatxz.Contacts.Record.Hashes.{contact_primary_hash-mem}
use chatxz.Contacts.Record.{contact_primary_hash}
use chatxz.Contacts.Blocklist.{clear_contact_deleted}
use chatxz.Contacts.Store.Files.{deleted-unlink}
use chatxz.Contacts.Store.Files.{deleted-unlink_all_but}
use chatxz.Prelude.{
  ◌≡◌, sym, ap, ◌∙◌, true, ◌||◌, none, some, List, [], ◌∷◌, arith, if◌then◌else◌, Str, str_eq,
  truthy, or_else, str_mem, without, strip, str_eq_iff, without-without,
}
use chatxz.Dict.{get}
use chatxz.Contacts.Record.{
  Contact, clean_arg, normalize_contact, contact_hashes, contact_primary_hash,
}
use chatxz.Contacts.Store.{Store, object, file_name, write_contact, purge_stale_contact_files}
use chatxz.Contacts.Store.Files.{
  is_tidy, all_tidy, get-write_contact, get-unlink, get-unlink_all_but,
}
use chatxz.Contacts.Save.{SaveArgs, store_contact}

-- The key under which a save stores the record.
unfoldable pub saved_key : SaveArgs → Contact → Str
saved_key a c = or_else (contact_primary_hash c) (clean_arg a.peer_hash)

-- A tidy file name has no colon.
without_tidy : (k : Str) → is_tidy k ≡ true → without 58 k ≡ k
without_tidy k h =
    let e : file_name k ≡ k = ground (arith, str_eq_iff (file_name k) k) in
    ap (without 58) (sym e) ∙ without-without 58 (strip k) ∙ e

tidy_mem : (t : Str) (hs : List Str) → all_tidy hs ≡ true → str_mem t hs ≡ true → is_tidy t ≡ true
unfolding all_tidy str_mem
tidy_mem t [] h m = cc
tidy_mem t (x ∷ hs) h m = ground (arith, tidy_mem t hs, str_eq_iff t x)

pub saved_key_tidy :
    (a : SaveArgs) (c : Contact)
    → all_tidy (contact_hashes c) ≡ true
    → is_tidy (clean_arg a.peer_hash) ≡ true
    → is_tidy (saved_key a c) ≡ true
unfolding saved_key
saved_key_tidy a c h here =
    ground (arith, contact_primary_hash-mem c, tidy_mem (contact_primary_hash c) (contact_hashes c))

module _ (a : SaveArgs) (c : Contact) (s : Store) where
  pub get-store_contact :
      (j : Str)
      → all_tidy (contact_hashes (normalize_contact c)) ≡ true
      → is_tidy (clean_arg a.peer_hash) ≡ true
      → is_tidy (saved_key a c) ≡ true
      → truthy j ≡ true
      → get j (store_contact a c s).files ≡ (
          if str_eq j (saved_key a c)
          then some (object (normalize_contact c))
          else if str_mem j (contact_hashes (normalize_contact c))
              || str_eq j (clean_arg a.peer_hash)
          then none
          else get j s.files)
  unfolding store_contact purge_stale_contact_files saved_key
  get-store_contact j tidy here key real =
      let entry = normalize_contact c in
      let k = saved_key a c in
      let s₁ = write_contact k entry s in
      let s₂ = purge_stale_contact_files entry k s₁ in
      ground (
        arith,
        get-write_contact k j entry s,
        get-unlink_all_but (without 58 k) j (contact_hashes entry) s₁ tidy real,
        get-unlink (clean_arg a.peer_hash) j s₂,
        without_tidy k key,
        str_eq_iff (file_name k) k,
        str_eq_iff j k,
        str_eq_iff k j,
        str_eq_iff (clean_arg a.peer_hash) k,
        str_eq_iff (file_name (clean_arg a.peer_hash)) (clean_arg a.peer_hash),
        str_eq_iff (clean_arg a.peer_hash) j,
        str_eq_iff j (clean_arg a.peer_hash),
      )

pub deleted-store_contact :
    (a : SaveArgs) (c : Contact) (s : Store)
    → (store_contact a c s).deleted
      ≡ clear_contact_deleted (some (normalize_contact c)) (some (clean_arg a.peer_hash)) s.deleted
unfolding store_contact purge_stale_contact_files write_contact
deleted-store_contact a c s =
    let h = clean_arg a.peer_hash in
    let e = normalize_contact c in
    let k = or_else (contact_primary_hash c) h in
    let s₁ = write_contact k e s in
    ground (
      arith,
      deleted-unlink h (purge_stale_contact_files e k s₁),
      deleted-unlink_all_but (without 58 k) (contact_hashes e) s₁,
    )
