-- ===== src/Contacts/Remove/Laws.antt =====
-- What `delete_contact` of chatxz/core/contacts.py leaves behind.
use chatxz.Prelude.{
  ◌≡◌, refl, Bool, true, false, not, ◌&&◌, ◌||◌, Option, none, some, List, [], ◌∷◌, arith, Str,
  str_eq, truthy, str_mem, str_eq_iff,
}
use chatxz.Dict.{get}
use chatxz.Contacts.Record.{Contact, clean, clean_arg, contact_hashes}
use chatxz.Contacts.Blocklist.{Peer, Index, peer_is_deleted, record_contact_deleted}
use chatxz.Contacts.Blocklist.Laws.{hashes-record_contact_deleted, clear_of_mem}
use chatxz.Contacts.Store.{Store, file_name, unlink_contact_file}
use chatxz.Contacts.Store.Files.{get-unlink, deleted-unlink}
use chatxz.Contacts.Merge.Laws.{hashes_twice}
use chatxz.Contacts.Listing.{find_contact_by_hash}
use chatxz.Contacts.Sync.Match.{Equivalence}
use chatxz.Contacts.Sync.Refresh.{sync_contact_from_discovery}
use chatxz.Contacts.Remove.{remove_targets, delete_contact, delete_targets, delete_rows}

-- One of the rows has the hash.
unfoldable pub rows_have : Str → List (Str × Contact) → Bool
rows_have t [] = false
rows_have t ((name, c) ∷ rows) = str_mem t (contact_hashes c) || rows_have t rows

-- One of the rows is the file.
unfoldable pub rows_name : Str → List (Str × Contact) → Bool
rows_name j [] = false
rows_name j ((name, c) ∷ rows) = str_eq j (file_name name) || rows_name j rows

-- A hash that is blocked stays blocked while rows are removed.
remove_targets_keeps :
    (t : Str) (rows : List (Str × Contact)) (seen : List Str) (removed : Bool) (s : Store)
    → str_mem t s.deleted.hashes ≡ true
    → str_mem t (remove_targets rows seen removed s).0.deleted.hashes ≡ true
unfolding remove_targets
remove_targets_keeps t [] seen removed s h = h
remove_targets_keeps t ((name, c) ∷ rows) seen removed s h =
    let (s', gone) = unlink_contact_file name s in
    let s₁ = record s' { deleted = record_contact_deleted c s'.deleted } in
    ground (
      arith,
      remove_targets_keeps t rows seen removed s,
      remove_targets_keeps t rows (name ∷ seen) (gone || removed) s₁,
      hashes-record_contact_deleted c s'.deleted t,
      deleted-unlink name s,
    )

-- Whatever was there, a removed file is not there afterwards.
remove_targets_absent :
    (j : Str) (rows : List (Str × Contact)) (seen : List Str) (removed : Bool) (s : Store)
    → get j s.files ≡ none
    → get j (remove_targets rows seen removed s).0.files ≡ none
unfolding remove_targets
remove_targets_absent j [] seen removed s h = h
remove_targets_absent j ((name, c) ∷ rows) seen removed s h =
    let (s', gone) = unlink_contact_file name s in
    let s₁ = record s' { deleted = record_contact_deleted c s'.deleted } in
    ground (
      arith,
      remove_targets_absent j rows seen removed s,
      remove_targets_absent j rows (name ∷ seen) (gone || removed) s₁,
      get-unlink name j s,
    )

-- Rows with different names are all removed: their files go, and their hashes are blocked.
unfoldable pub is_fresh : List (Str × Contact) → List Str → Bool
is_fresh [] seen = true
is_fresh ((name, c) ∷ rows) seen = not (str_mem name seen) && is_fresh rows (name ∷ seen)

remove_targets-hashes :
    (t : Str) (rows : List (Str × Contact)) (seen : List Str) (removed : Bool) (s : Store)
    → is_fresh rows seen ≡ true
    → truthy t ≡ true
    → rows_have t rows ≡ true
    → str_mem t (remove_targets rows seen removed s).0.deleted.hashes ≡ true
unfolding remove_targets is_fresh rows_have
remove_targets-hashes t [] seen removed s fresh real h = cc
remove_targets-hashes t ((name, c) ∷ rows) seen removed s fresh real h =
    let (s', gone) = unlink_contact_file name s in
    let s₁ = record s' { deleted = record_contact_deleted c s'.deleted } in
    ground (
      arith,
      remove_targets-hashes t rows (name ∷ seen) (gone || removed) s₁,
      remove_targets_keeps t rows (name ∷ seen) (gone || removed) s₁,
      hashes-record_contact_deleted c s'.deleted t,
      hashes_twice c,
    )

remove_targets-files :
    (j : Str) (rows : List (Str × Contact)) (seen : List Str) (removed : Bool) (s : Store)
    → is_fresh rows seen ≡ true
    → rows_name j rows ≡ true
    → get j (remove_targets rows seen removed s).0.files ≡ none
unfolding remove_targets is_fresh rows_name
remove_targets-files j [] seen removed s fresh h = cc
remove_targets-files j ((name, c) ∷ rows) seen removed s fresh h =
    let (s', gone) = unlink_contact_file name s in
    let s₁ = record s' { deleted = record_contact_deleted c s'.deleted } in
    ground (
      arith,
      remove_targets-files j rows (name ∷ seen) (gone || removed) s₁,
      remove_targets_absent j rows (name ∷ seen) (gone || removed) s₁,
      get-unlink name j s,
      str_eq_iff j (file_name name),
      str_eq_iff (file_name name) j,
    )

blocked_by_hash :
    (p : Peer) (idx : Index)
    → truthy (clean p.hash) ≡ true
    → str_mem (clean p.hash) idx.hashes ≡ true
    → peer_is_deleted p idx ≡ true
unfolding peer_is_deleted
blocked_by_hash p idx real m = ground (arith, clear_of_mem (clean p.hash) idx.hashes m)

sync_of_deleted :
    (p : Peer) (eqv : Equivalence) (scope : Option Str) (s : Store)
    → peer_is_deleted p s.deleted ≡ true
    → sync_contact_from_discovery p eqv scope s ≡ (s, none)
unfolding sync_contact_from_discovery
sync_of_deleted p eqv scope s e = ground arith

-- The rows that a deletion removes.
abbrev pub targets_of : Str → Store → List (Str × Contact)
targets_of h s =
    delete_targets h (find_contact_by_hash (some h) s).1 (find_contact_by_hash (some h) s).0

delete_rows_some :
    (h : Str) (rows : List (Str × Contact)) (t : Str) (s : Store)
    → rows_have t rows ≡ true
    → delete_rows h rows s ≡ remove_targets rows [] false s
unfolding delete_rows rows_have
delete_rows_some h [] t s e = cc
delete_rows_some h (r ∷ rows) t s e = refl

delete_rows_named :
    (h : Str) (rows : List (Str × Contact)) (j : Str) (s : Store)
    → rows_name j rows ≡ true
    → delete_rows h rows s ≡ remove_targets rows [] false s
unfolding delete_rows rows_name
delete_rows_named h [] j s e = cc
delete_rows_named h (r ∷ rows) j s e = refl

module _ (peer_hash : Option Str) (s : Store) where
  -- After a deletion by a hash that is not blank, where the rows that it removes have different
  -- names, there is no file under the name that the code makes of the name of any of these rows.
  pub delete_contact-files :
      (j : Str)
      → truthy (clean_arg peer_hash) ≡ true
      → is_fresh (targets_of (clean_arg peer_hash) s) [] ≡ true
      → rows_name j (targets_of (clean_arg peer_hash) s) ≡ true
      → get j (delete_contact peer_hash s).0.files ≡ none
  unfolding delete_contact
  delete_contact-files j real fresh there =
      let h = clean_arg peer_hash in
      let s' = (find_contact_by_hash (some h) s).0 in
      let rows = targets_of h s in
      rw (real, delete_rows_named h rows j s' there)
        (remove_targets-files j rows [] false s' fresh there)

  delete_contact-hashes :
      (t : Str)
      → truthy (clean_arg peer_hash) ≡ true
      → is_fresh (targets_of (clean_arg peer_hash) s) [] ≡ true
      → truthy t ≡ true
      → rows_have t (targets_of (clean_arg peer_hash) s) ≡ true
      → str_mem t (delete_contact peer_hash s).0.deleted.hashes ≡ true
  unfolding delete_contact
  delete_contact-hashes t real fresh real_t there =
      let h = clean_arg peer_hash in
      let s' = (find_contact_by_hash (some h) s).0 in
      let rows = targets_of h s in
      rw (real, delete_rows_some h rows t s' there)
        (remove_targets-hashes t rows [] false s' fresh real_t there)

  -- After a deletion by a hash that is not blank, where the rows that it removes have different
  -- names, the discovery of a peer with a hash of one of these rows saves nothing and changes
  -- nothing.
  pub delete_contact_stays :
      (p : Peer) (eqv : Equivalence) (scope : Option Str)
      → truthy (clean_arg peer_hash) ≡ true
      → is_fresh (targets_of (clean_arg peer_hash) s) [] ≡ true
      → truthy (clean p.hash) ≡ true
      → rows_have (clean p.hash) (targets_of (clean_arg peer_hash) s) ≡ true
      → sync_contact_from_discovery p eqv scope (delete_contact peer_hash s).0
        ≡ ((delete_contact peer_hash s).0, none)
  delete_contact_stays p eqv scope real fresh real_p there =
      let out = (delete_contact peer_hash s).0 in
      sync_of_deleted p eqv scope out (
        blocked_by_hash p out.deleted real_p
          (delete_contact-hashes (clean p.hash) real fresh real_p there))
