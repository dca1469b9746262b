-- ===== src/Contacts/Record.antt =====
-- A contact record of chatxz/core/contacts.py, its normal form and its hashes.
pub mod Laws
pub mod Hashes
pub mod Fields
pub mod Entry
use chatxz.Prelude.{
  Bool, false, not, ◌&&◌, ◌||◌, Option, none, some, List, [], ◌∷◌, if◌then◌else◌, is_some, Str,
  str_eq, truthy, or_empty, or_else, without, strip,
}
use chatxz.Prelude.Int.{ℤ}

-- A port as JSON holds it: a number, or text that `int` may read.
pub data Port : Type 0 where
  num : ℤ → Port
  txt : Str → Port

-- The dict of one contact; `none` is an absent key.
pub record Contact : Type 0 where
  pub hash : Option Str
  pub lan_hash : Option Str
  pub serial_hash : Option Str
  pub identity_hash : Option Str
  pub lan_identity_hash : Option Str
  pub serial_identity_hash : Option Str
  pub ip : Option Str
  pub port : Option Port
  pub name : Option Str
  pub custom_name : Option Bool

abbrev pub empty_contact : Contact
empty_contact = record {
  hash = none;
  lan_hash = none;
  serial_hash = none;
  identity_hash = none;
  lan_identity_hash = none;
  serial_identity_hash = none;
  ip = none;
  port = none;
  name = none;
  custom_name = none;
}

-- `(value or "").replace(":", "")`
unfoldable pub clean : Option Str → Str
clean o = without 58 (or_empty o)

-- `(value or "").strip().replace(":", "")`
unfoldable pub clean_arg : Option Str → Str
clean_arg o = without 58 (strip (or_empty o))

-- `(value or "").strip()`
abbrev pub stripped : Option Str → Str
stripped o = strip (or_empty o)

-- `bool(value)`
abbrev pub holds : Option Str → Bool
holds o = truthy (or_empty o)

-- `bool(entry)`: an entry with no key is false.
unfoldable pub is_entry : Contact → Bool
is_entry c =
    is_some c.hash
    || (is_some c.lan_hash
        || (is_some c.serial_hash
            || (is_some c.identity_hash
                || (is_some c.lan_identity_hash
                    || (is_some c.serial_identity_hash
                        || (is_some c.ip
                            || (is_some c.port || (is_some c.name || is_some c.custom_name))))))))

-- The same hash for both transports: an IP address decides which one it is.
settle_twins : Contact → Contact
settle_twins c =
    if truthy (clean c.serial_hash)
      && (truthy (clean c.lan_hash) && str_eq (clean c.lan_hash) (clean c.serial_hash))
    then (if truthy (stripped c.ip)
        then record c { serial_hash = none }
        else if str_eq (clean c.hash) (clean c.serial_hash)
        then record c { lan_hash = none; hash = none }
        else record c { lan_hash = none })
    else c

drop_serial_alias : Contact → Contact
drop_serial_alias c =
    if truthy (clean c.serial_hash)
      && (str_eq (clean c.hash) (clean c.serial_hash) && not (truthy (clean c.lan_hash)))
    then record c { hash = none }
    else c

adopt_as_lan : Contact → Contact
adopt_as_lan c =
    if truthy (clean c.hash)
      && (not (truthy (clean c.lan_hash)) && not (truthy (clean c.serial_hash)))
    then record c { lan_hash = some (clean c.hash) }
    else c

fill_hash : Contact → Contact
fill_hash c =
    if truthy (clean c.lan_hash) && not (holds c.hash)
    then record c { hash = some (clean c.lan_hash) }
    else c

fill_identity : Contact → Contact
fill_identity c =
    if truthy (clean c.lan_hash) && (not (holds c.identity_hash) && holds c.lan_identity_hash)
    then record c { identity_hash = c.lan_identity_hash }
    else c

fill_custom : Contact → Contact
fill_custom c = elim c.custom_name [ none ↦ record c { custom_name = some false } | some b ↦ c ]

unfoldable pub normalize_contact : Contact → Contact
unfolding settle_twins drop_serial_alias adopt_as_lan fill_hash fill_identity fill_custom
normalize_contact c =
    if is_entry c
    then fill_custom (fill_identity (fill_hash (adopt_as_lan (drop_serial_alias (settle_twins c)))))
    else c

-- `if h: out.add(h)`
abbrev pub cons_hash : Str → List Str → List Str
cons_hash h hs = if truthy h then h ∷ hs else hs

-- The set of `_contact_hashes`, of an entry that is in normal form.
unfoldable pub stored_hashes : Contact → List Str
stored_hashes c = cons_hash (clean c.hash) (
    cons_hash (clean c.lan_hash) (
      cons_hash (clean c.serial_hash) (
        cons_hash (clean c.identity_hash)
          (cons_hash (clean c.lan_identity_hash) (cons_hash (clean c.serial_identity_hash) [])))))

unfoldable pub contact_hashes : Contact → List Str
unfolding stored_hashes
contact_hashes c = stored_hashes (normalize_contact c)

-- `contact_primary_hash` of an entry that is in normal form.
unfoldable pub stored_primary : Contact → Str
stored_primary c = or_else (clean c.lan_hash) (or_else (clean c.serial_hash) (clean c.hash))

unfoldable pub contact_primary_hash : Contact → Str
unfolding stored_primary
contact_primary_hash c = stored_primary (normalize_contact c)
