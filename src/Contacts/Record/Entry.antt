-- ===== src/Contacts/Record/Entry.antt =====
-- Contacts that are not an empty dict.
use chatxz.Contacts.Record.{settle_twins}
use chatxz.Contacts.Record.{drop_serial_alias}
use chatxz.Contacts.Record.{clean}
use chatxz.Prelude.{
  ◌≡◌, true, false, none, some, arith, Option-cases, Str, truthy, str_mem, strip, str_eq_refl,
}
use chatxz.Contacts.Record.{Contact, is_entry, normalize_contact, contact_hashes, stripped}
use chatxz.Contacts.Record.Laws.{clean-none, clean-clean, normalize_contact-IsNormal}
use chatxz.Contacts.Record.Hashes.{str_mem-contact_hashes, str_mem-stored_hashes}

-- A contact that has a hash, or a name, is not an empty dict.
pub entry_of_hash :
    (t : Str) (c : Contact) → str_mem t (contact_hashes c) ≡ true → is_entry c ≡ true
unfolding is_entry
entry_of_hash t c h = ground (
  arith,
  str_mem-contact_hashes t c,
  str_mem-stored_hashes t c,
  clean-none,
  Option-cases c.hash,
  Option-cases c.lan_hash,
  Option-cases c.serial_hash,
  Option-cases c.identity_hash,
  Option-cases c.lan_identity_hash,
  Option-cases c.serial_identity_hash,
)

pub entry_of_name : (c : Contact) → truthy (stripped c.name) ≡ true → is_entry c ≡ true
unfolding is_entry strip
entry_of_name c h = ground (arith, Option-cases c.name)

pub is_entry-normalize_contact :
    (c : Contact) → is_entry c ≡ true → is_entry (normalize_contact c) ≡ true
unfolding is_entry
is_entry-normalize_contact c h = ground (arith, (normalize_contact-IsNormal c h).flagged)

-- A serial contact that repeats its hash has the normal form of the one that does not.
pub normalize_contact_alias :
    (c : Contact)
    → c.hash ≡ none
    → truthy (clean c.lan_hash) ≡ false
    → truthy (clean c.serial_hash) ≡ true
    → normalize_contact (record c { hash = some (clean c.serial_hash) }) ≡ normalize_contact c
unfolding normalize_contact settle_twins drop_serial_alias is_entry
normalize_contact_alias c h l r = ground (
  arith,
  clean-clean c.serial_hash,
  str_eq_refl (clean c.serial_hash),
  clean-none,
  Option-cases c.serial_hash,
)
