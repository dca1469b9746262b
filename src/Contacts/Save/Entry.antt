-- ===== src/Contacts/Save/Entry.antt =====
-- The record that `save_contact` of chatxz/core/contacts.py works on.
use chatxz.Contacts.Record.{stripped, is_entry}
use chatxz.Contacts.Record.Laws.{normalize_contact-IsNormal}
use chatxz.Contacts.Names.{names_related}
use chatxz.Contacts.Listing.{find_among}
use chatxz.Contacts.Save.{
  find_by_name, find_by_identity, put_dual, put_serial, put_lan, settle_serial, serial_target,
  put_endpoint, put_lan_identity, put_serial_identity, save_mode, port_number, put_name,
  put_transport, existing_contact,
}
use chatxz.Contacts.Store.{load_contact}
use chatxz.Prelude.{
  ◌≡◌, refl, inl, inr, true, false, ◌||◌, Option, none, some, List, [], ◌∷◌, arith, Bool-cases,
  is_some, Str, str_eq, truthy, strip, lower, str_eq_iff,
}
use chatxz.Contacts.Record.{Contact, clean_arg}
use chatxz.Contacts.Store.{Store}
use chatxz.Contacts.Save.{SaveArgs}
use chatxz.Contacts.Record.{empty_contact}
use chatxz.Contacts.Record.Entry.{entry_of_hash, entry_of_name, is_entry-normalize_contact}
use chatxz.Contacts.Store.Load.{load_contact-IsEntry}
use chatxz.Contacts.Listing.{list_contacts, find_contact_by_hash}
use chatxz.Contacts.Save.{by_identity, by_name, first_entry}

pub blank_is_nil : (t : Str) → truthy t ≡ false → t ≡ []
blank_is_nil [] h = refl
blank_is_nil (x ∷ t) h = cc

names_related_blank : (d : Option Str) → names_related (some []) d ≡ false
unfolding names_related strip lower
names_related_blank d = refl

truthy-lower : (d : Str) → truthy (lower d) ≡ truthy d
unfolding lower
truthy-lower [] = refl
truthy-lower (c ∷ d) = refl

-- What the three searches find is not an empty dict.
named_entry :
    (display : Str) (c : Contact)
    → truthy display ≡ true
    → (str_eq (lower (stripped c.name)) (lower display)
        || names_related (some (stripped c.name)) (some display))
      ≡ true
    → is_entry c ≡ true
unfolding lower
named_entry display c real h = elim (Bool-cases (truthy (stripped c.name))) [
  | inl e ↦ entry_of_name c e
  | inr e ↦
      let blank_name : stripped c.name ≡ [] = ground (arith, blank_is_nil (stripped c.name)) in
      ground (
        arith,
        names_related_blank (some display),
        truthy-lower display,
        str_eq_iff [] (lower display),
      )
]

find_by_name-IsEntry :
    (display : Str) (cs : List Contact) (c : Contact)
    → truthy display ≡ true
    → find_by_name display cs ≡ some c
    → is_entry c ≡ true
unfolding find_by_name
find_by_name-IsEntry display [] c real e = cc
find_by_name-IsEntry display (x ∷ cs) c real e = ground (
  arith,
  find_by_name-IsEntry display cs c,
  named_entry display x real,
  is_entry-normalize_contact x,
)

find_by_identity-IsEntry :
    (ident : Str) (cs : List Contact) (c : Contact)
    → find_by_identity ident cs ≡ some c
    → is_entry c ≡ true
unfolding find_by_identity
find_by_identity-IsEntry ident [] c e = cc
find_by_identity-IsEntry ident (x ∷ cs) c e = ground (
  arith,
  find_by_identity-IsEntry ident cs c,
  entry_of_hash ident x,
  is_entry-normalize_contact x,
)

find_among-IsEntry :
    (h : Str) (cs : List Contact) (c : Contact) → find_among h cs ≡ some c → is_entry c ≡ true
unfolding find_among
find_among-IsEntry h [] c e = cc
find_among-IsEntry h (x ∷ cs) c e =
    ground (arith, find_among-IsEntry h cs c, entry_of_hash h x, is_entry-normalize_contact x)

by_identity-IsEntry :
    (o : Option Contact) (ident : Option Str) (s : Store) (c : Contact)
    → ((x : Contact) → o ≡ some x → is_entry x ≡ true)
    → (by_identity o ident s).1 ≡ some c
    → is_entry c ≡ true
unfolding by_identity
by_identity-IsEntry none ident s c found e =
    ground (arith, find_by_identity-IsEntry (clean_arg ident) (list_contacts s).1 c)
by_identity-IsEntry (some x) ident s c found e = found c e

by_name-IsEntry :
    (o : Option Contact) (display : Str) (s : Store) (c : Contact)
    → ((x : Contact) → o ≡ some x → is_entry x ≡ true)
    → (by_name o display s).1 ≡ some c
    → is_entry c ≡ true
unfolding by_name
by_name-IsEntry none display s c found e = elim (Bool-cases (truthy display)) [
  | inl r ↦ ground (arith, find_by_name-IsEntry display (list_contacts s).1 c)
  | inr r ↦ ground arith
]
by_name-IsEntry (some x) display s c found e = found c e

find_contact_by_hash-IsEntry :
    (h : Option Str) (s : Store) (c : Contact)
    → (find_contact_by_hash h s).1 ≡ some c
    → is_entry c ≡ true
unfolding find_contact_by_hash
find_contact_by_hash-IsEntry h s c e =
    ground (arith, find_among-IsEntry (clean_arg h) (list_contacts s).1 c)

first_entry-IsEntry :
    (o p : Option Contact) (d : Contact)
    → ((x : Contact) → o ≡ some x → is_entry x ≡ true)
    → ((x : Contact) → p ≡ some x → is_entry x ≡ true)
    → is_entry d ≡ true
    → is_entry (first_entry o p d) ≡ true
first_entry-IsEntry (some x) p d ho hp hd = ho x refl
first_entry-IsEntry none (some x) d ho hp hd = hp x refl
first_entry-IsEntry none none d ho hp hd = hd

-- The record that a save starts from has its flag set.
pub existing_contact-flagged :
    (a : SaveArgs) (s : Store) → is_some (existing_contact a s).1.custom_name ≡ true
unfolding existing_contact
existing_contact-flagged a s =
    let h = clean_arg a.peer_hash in
    let (s₁, by_hash) = find_contact_by_hash (some h) s in
    let (s₂, by_ident) = by_identity by_hash a.identity_hash s₁ in
    let (s₃, merged) = by_name by_ident (stripped a.name) s₂ in
    let d = record empty_contact { hash = some h; name = some h } in
    let entry =
      first_entry-IsEntry merged (load_contact h s₃) d
        (λ x. by_name-IsEntry by_ident (stripped a.name) s₂ x (λ y.
          by_identity-IsEntry by_hash a.identity_hash s₁ y
            (find_contact_by_hash-IsEntry (some h) s)))
        (load_contact-IsEntry h s₃) (unfold is_entry in refl) in
    (normalize_contact-IsNormal (first_entry merged (load_contact h s₃) d) entry).flagged

pub put_name-flagged :
    (a : SaveArgs) (c : Contact)
    → is_some c.custom_name ≡ true
    → is_some (put_name a c).custom_name ≡ true
unfolding put_name
put_name-flagged a c h = ground arith

pub put_transport-flagged :
    (a : SaveArgs) (c : Contact)
    → is_some c.custom_name ≡ true
    → is_some (put_transport a c).custom_name ≡ true
unfolding put_transport put_dual put_serial put_lan settle_serial serial_target put_endpoint
    put_lan_identity put_serial_identity
put_transport-flagged a c h = ground (arith, save_mode a, port_number a.port)
