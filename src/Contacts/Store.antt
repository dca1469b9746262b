-- ===== src/Contacts/Store.antt =====
-- The contact files of chatxz/core/contacts.py.
pub mod Files
pub mod Load
use chatxz.Prelude.{
  Bool, true, false, not, ◌&&◌, Option, none, some, List, [], ◌∷◌, if◌then◌else◌, keep, Str, codes,
  str_eq, truthy, starts_with, without, strip,
}
use chatxz.Prelude.Int.{sorted}
use chatxz.Dict.{Dict, get, has_key, pop, put}
use chatxz.Contacts.Record.{Contact, empty_contact, normalize_contact, contact_hashes}
use chatxz.Contacts.Blocklist.{Index}

-- What a file holds: only white space, a JSON object without nulls, other text, or what cannot be
-- read. The code writes no null.
pub data Body : Type 0 where
  blank : Body
  object : Contact → Body
  bare : Str → Body
  broken : Body

-- The directory of contacts: its files by name, and the blocklist.
pub record Store : Type 0 where
  pub files : Dict Body
  pub deleted : Index

-- The name of a peer's file, as `_contact_path` makes it.
abbrev pub file_name : Str → Str
file_name key = without 58 (strip key)

abbrev pub or_default : Option Str → Str → Option Str
or_default none s = some s
or_default (some t) s = some t

named : Str → Str → Contact
named hash name = record empty_contact { hash = some hash; name = some name }

-- What `load_contact` makes of a file.
unfoldable pub read_body : Str → Body → Contact
unfolding named
read_body filename blank = normalize_contact (named filename filename)
read_body filename (object c) =
    normalize_contact
      (record c { hash = or_default c.hash filename; name = or_default c.name filename })
read_body filename (bare raw) = normalize_contact (named filename raw)
read_body filename broken = normalize_contact (named filename filename)

unfoldable pub load_contact : Str → Store → Option Contact
load_contact filename s = elim (get filename s.files) [
  | none ↦ none
  | some b ↦ some (read_body filename b)
]

-- `json.dump(entry, fh)` to the file of a key
unfoldable pub write_contact : Str → Contact → Store → Store
write_contact key c s = record s { files = put (file_name key) (object c) s.files }

unfoldable pub unlink_contact_file : Str → Store → Store × Bool
unlink_contact_file key s =
    if has_key (file_name key) s.files
    then (record s { files = pop (file_name key) s.files }, true)
    else (s, false)

-- `for h in hashes: if h and h != keep: unlink`
unfoldable pub unlink_all_but : Str → List Str → Store → Store
unlink_all_but keep [] s = s
unlink_all_but keep (h ∷ hs) s =
    unlink_all_but keep hs
      (if truthy h && not (str_eq h keep) then (unlink_contact_file h s).0 else s)

-- `_purge_stale_contact_files`
unfoldable pub purge_stale_contact_files : Contact → Str → Store → Store
unfolding unlink_all_but
purge_stale_contact_files c keep_key s = unlink_all_but (without 58 keep_key) (contact_hashes c) s

keys_of : Dict Body → List Str
keys_of [] = []
keys_of ((k, b) ∷ d) = k ∷ keys_of d

is_hidden : Str → Bool
is_hidden name = starts_with name (codes ".")

read_each : List Str → Store → List (Str × Contact)
unfolding is_hidden
read_each [] s = []
read_each (name ∷ names) s =
    let rest = read_each names s in
    if is_hidden name
    then rest
    else elim (load_contact name s) [ none ↦ rest | some c ↦ (name, c) ∷ rest ]

-- `_iter_contact_files`: the visible files in the order of their names.
unfoldable pub iter_contact_files : Store → List (Str × Contact)
unfolding keys_of read_each
iter_contact_files s = read_each (sorted (keys_of s.files)) s
