-- ===== src/Contacts/Names/Laws.antt =====
-- Which display name a contact keeps.
use chatxz.Prelude.{
  ◌≡◌, refl, Bool, true, false, ◌||◌, Option, some, List, [], arith, Str, truthy, strip, lower,
  str_eq_iff,
}
use chatxz.Contacts.Record.{Contact, stripped, normalize_contact, contact_hashes}
use chatxz.Contacts.Names.{
  folded, name_is_hash_like, is_custom, resolve_contact_name, names_related,
}

-- Related names are related both ways.
pub names_related_sym : (a b : Option Str) → names_related a b ≡ names_related b a
unfolding names_related
names_related_sym a b =
    ground (arith, str_eq_iff (folded a) (folded b), str_eq_iff (folded b) (folded a))

-- A name that the user chose stays, whatever a discovery calls the peer.
pub resolve_contact_name_custom :
    (c : Contact) (name : Option Str)
    → is_custom (normalize_contact c) ≡ true
    → truthy (stripped (normalize_contact c).name) ≡ true
    → resolve_contact_name c name false ≡ stripped (normalize_contact c).name
unfolding resolve_contact_name
resolve_contact_name_custom c name custom named = ground arith

-- The resolved name is empty exactly if there is neither a saved nor an incoming one.
pub truthy-resolve_contact_name :
    (c : Contact) (name : Option Str) (custom : Bool)
    → truthy (resolve_contact_name c name custom)
      ≡ truthy (stripped name) || truthy (stripped (normalize_contact c).name)
unfolding resolve_contact_name
truthy-resolve_contact_name c name custom = ground arith

hash_like_blank : (hashes : List Str) → name_is_hash_like (some []) hashes ≡ true
unfolding name_is_hash_like strip lower
hash_like_blank hashes = refl

-- Without a user's choice, the resolved name looks like a hash only if the saved and the incoming name
-- both do.
pub name_is_hash_like-resolve_contact_name :
    (c : Contact) (name : Option Str)
    → is_custom (normalize_contact c) ≡ false
    → name_is_hash_like
        (some (resolve_contact_name c name false))
        (contact_hashes (normalize_contact c))
      ≡ true
    → (name_is_hash_like (some (stripped name)) (contact_hashes (normalize_contact c)) ≡ true)
      × (name_is_hash_like
            (some (stripped (normalize_contact c).name))
            (contact_hashes (normalize_contact c))
          ≡ true)
unfolding resolve_contact_name
name_is_hash_like-resolve_contact_name c name free h =
    let hashes = contact_hashes (normalize_contact c) in
    (ground (arith, hash_like_blank hashes), ground (arith, hash_like_blank hashes))
