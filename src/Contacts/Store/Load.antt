-- ===== src/Contacts/Store/Load.antt =====
-- What `load_contact` of chatxz/core/contacts.py makes of a file.
use chatxz.Prelude.{◌≡◌, refl, inl, inr, true, some, arith, Option-cases, Str}
use chatxz.Dict.{get}
use chatxz.Contacts.Record.{Contact, is_entry}
use chatxz.Contacts.Record.Entry.{is_entry-normalize_contact}
use chatxz.Contacts.Store.{
  Store, Body, blank, object, bare, broken, named, or_default, load_contact, read_body,
}

read_body-IsEntry : (k : Str) (b : Body) → is_entry (read_body k b) ≡ true
unfolding read_body
read_body-IsEntry k blank = is_entry-normalize_contact (named k k) (unfold is_entry in refl)
read_body-IsEntry k (object c) =
    is_entry-normalize_contact (record c { hash = or_default c.hash k; name = or_default c.name k })
      (unfold is_entry in ground (arith, Option-cases c.hash))
read_body-IsEntry k (bare raw) = is_entry-normalize_contact (named k raw) (unfold is_entry in refl)
read_body-IsEntry k broken = is_entry-normalize_contact (named k k) (unfold is_entry in refl)

pub load_contact-IsEntry :
    (k : Str) (s : Store) (c : Contact) → load_contact k s ≡ some c → is_entry c ≡ true
unfolding load_contact
load_contact-IsEntry k s c e = elim (Option-cases (get k s.files)) [
  | inl n ↦ ground arith
  | inr (b, n) ↦ ground (arith, read_body-IsEntry k b)
]

pub load_of_file :
    (k : Str) (s : Store) (b : Body)
    → get k s.files ≡ some b
    → load_contact k s ≡ some (read_body k b)
unfolding load_contact
load_of_file k s b e = ground arith
