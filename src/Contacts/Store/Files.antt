-- ===== src/Contacts/Store/Files.antt =====
-- What writing and purging do to the files of chatxz/core/contacts.py, file by file.
use chatxz.Prelude.{
  ◌≡◌, refl, Bool, true, not, ◌&&◌, none, some, List, [], ◌∷◌, arith, if◌then◌else◌, keep, Str,
  str_eq, truthy, str_mem, str_eq_iff,
}
use chatxz.Dict.{get}
use chatxz.Dict.Laws.{get-pop, get-put, get_of_absent}
use chatxz.Contacts.Record.{Contact}
use chatxz.Contacts.Store.{
  Store, object, file_name, write_contact, unlink_contact_file, unlink_all_but,
}

-- A hash that is the name of its own file.
abbrev pub is_tidy : Str → Bool
is_tidy h = str_eq (file_name h) h

unfoldable pub all_tidy : List Str → Bool
all_tidy [] = true
all_tidy (h ∷ hs) = is_tidy h && all_tidy hs

pub get-write_contact :
    (key j : Str) (c : Contact) (s : Store)
    → get j (write_contact key c s).files
      ≡ (if str_eq (file_name key) j then some (object c) else get j s.files)
unfolding write_contact
get-write_contact key j c s = get-put (file_name key) j (object c) s.files

pub get-unlink :
    (key j : Str) (s : Store)
    → get j (unlink_contact_file key s).0.files
      ≡ (if str_eq (file_name key) j then none else get j s.files)
unfolding unlink_contact_file
get-unlink key j s = ground (
  arith,
  get-pop (file_name key) j s.files,
  get_of_absent j s.files,
  str_eq_iff (file_name key) j,
)

pub deleted-unlink : (key : Str) (s : Store) → (unlink_contact_file key s).0.deleted ≡ s.deleted
unfolding unlink_contact_file
deleted-unlink key s = ground arith

pub deleted-unlink_all_but :
    (keep : Str) (hs : List Str) (s : Store) → (unlink_all_but keep hs s).deleted ≡ s.deleted
unfolding unlink_all_but
deleted-unlink_all_but keep [] s = refl
deleted-unlink_all_but keep (h ∷ hs) s = ground (
  arith,
  deleted-unlink_all_but keep hs
      (if truthy h && not (str_eq h keep) then (unlink_contact_file h s).0 else s),
  deleted-unlink h s,
)

-- Purging takes the files of exactly the given hashes away, but for the one that is kept.
pub get-unlink_all_but :
    (keep j : Str) (hs : List Str) (s : Store)
    → all_tidy hs ≡ true
    → truthy j ≡ true
    → get j (unlink_all_but keep hs s).files
      ≡ (if str_mem j hs && not (str_eq j keep) then none else get j s.files)
unfolding unlink_all_but all_tidy str_mem
get-unlink_all_but keep j [] s tidy real = refl
get-unlink_all_but keep j (h ∷ hs) s tidy real = ground (
  arith,
  get-unlink_all_but keep j hs
      (if truthy h && not (str_eq h keep) then (unlink_contact_file h s).0 else s),
  get-unlink h j s,
  str_eq_iff (file_name h) h,
  str_eq_iff h j,
  str_eq_iff j h,
  str_eq_iff j keep,
  str_eq_iff h keep,
)
