-- ===== src/Contacts/Record/Laws.antt =====
-- The normal form of a contact.
use chatxz.Prelude.{
  ◌≡◌, refl, ◌∙◌, inl, inr, Bool, true, false, not, ◌&&◌, Option, none, some, [], ◌∷◌, arith,
  Bool-cases, is_some, keep, Str, str_eq, truthy, or_empty, without, str_eq_iff, without-without,
}
use chatxz.Contacts.Record.{
  Contact, clean, holds, is_entry, settle_twins, drop_serial_alias, adopt_as_lan, fill_hash,
  fill_identity, fill_custom, normalize_contact,
}

-- A cleaned hash is clean.
pub clean-clean : (o : Option Str) → clean (some (clean o)) ≡ clean o
unfolding clean
clean-clean o = without-without 58 (or_empty o)

-- The two transports have different hashes, a LAN contact has a hash, a contact with a hash for
-- neither transport has none at all, a serial contact does not repeat its hash, and the flag is set.
pub record IsNormal (c : Contact) : Type 0 where
  pub no_twins :
      (truthy (clean c.lan_hash) && str_eq (clean c.lan_hash) (clean c.serial_hash)) ≡ false
  pub lan_has_hash : (truthy (clean c.lan_hash) && not (holds c.hash)) ≡ false
  pub hash_is_placed :
      (truthy (clean c.hash)
        && (not (truthy (clean c.lan_hash)) && not (truthy (clean c.serial_hash))))
      ≡ false
  pub no_alias :
      (truthy (clean c.serial_hash)
        && (str_eq (clean c.hash) (clean c.serial_hash) && not (truthy (clean c.lan_hash))))
      ≡ false
  pub lan_has_identity :
      (truthy (clean c.lan_hash) && (not (holds c.identity_hash) && holds c.lan_identity_hash))
      ≡ false
  pub flagged : is_some c.custom_name ≡ true

-- The fields of `IsNormal`, as tests.
abbrev twins : Contact → Bool
twins c = truthy (clean c.lan_hash) && str_eq (clean c.lan_hash) (clean c.serial_hash)

abbrev lacks_hash : Contact → Bool
lacks_hash c = truthy (clean c.lan_hash) && not (holds c.hash)

abbrev unplaced : Contact → Bool
unplaced c =
    truthy (clean c.hash) && (not (truthy (clean c.lan_hash)) && not (truthy (clean c.serial_hash)))

abbrev alias : Contact → Bool
alias c =
    truthy (clean c.serial_hash)
    && (str_eq (clean c.hash) (clean c.serial_hash) && not (truthy (clean c.lan_hash)))

pub clean-none : clean none ≡ []
unfolding clean without keep
clean-none = refl

pub clean-holds : (o : Option Str) → truthy (clean o) ≡ true → holds o ≡ true
unfolding clean without keep
clean-holds none h = cc
clean-holds (some []) h = cc
clean-holds (some (x ∷ s)) h = refl

holds-clean : (o : Option Str) → truthy (clean o) ≡ true → holds (some (clean o)) ≡ true
holds-clean o h = h

settle_twins-twins : (c : Contact) → twins (settle_twins c) ≡ false
unfolding settle_twins
settle_twins-twins c = ground (
  arith,
  clean-none,
  str_eq_iff (clean c.lan_hash) (clean c.serial_hash),
  str_eq_iff (clean c.lan_hash) [],
)

drop_serial_alias-alias : (c : Contact) → alias (drop_serial_alias c) ≡ false
unfolding drop_serial_alias
drop_serial_alias-alias c = ground (arith, clean-none, str_eq_iff [] (clean c.serial_hash))

drop_serial_alias-twins : (c : Contact) → twins (drop_serial_alias c) ≡ twins c
unfolding drop_serial_alias
drop_serial_alias-twins c = ground arith

adopt_as_lan-twins : (c : Contact) → twins c ≡ false → twins (adopt_as_lan c) ≡ false
unfolding adopt_as_lan
adopt_as_lan-twins c h =
    ground (arith, clean-clean c.hash, str_eq_iff (clean c.hash) (clean c.serial_hash))

adopt_as_lan-alias : (c : Contact) → alias c ≡ false → alias (adopt_as_lan c) ≡ false
unfolding adopt_as_lan
adopt_as_lan-alias c h = ground (arith, clean-clean c.hash)

adopt_as_lan-unplaced : (c : Contact) → unplaced (adopt_as_lan c) ≡ false
unfolding adopt_as_lan
adopt_as_lan-unplaced c = ground (arith, clean-clean c.hash)

fill_hash-lacks_hash : (c : Contact) → lacks_hash (fill_hash c) ≡ false
unfolding fill_hash
fill_hash-lacks_hash c = ground arith

fill_hash-alias : (c : Contact) → alias c ≡ false → alias (fill_hash c) ≡ false
unfolding fill_hash
fill_hash-alias c h = ground (arith, clean-clean c.lan_hash)

fill_hash-unplaced : (c : Contact) → unplaced c ≡ false → unplaced (fill_hash c) ≡ false
unfolding fill_hash
fill_hash-unplaced c h = ground (arith, clean-clean c.lan_hash)

fill_hash-twins : (c : Contact) → twins (fill_hash c) ≡ twins c
unfolding fill_hash
fill_hash-twins c = ground arith

finish-IsNormal :
    (c : Contact)
    → twins c ≡ false
    → lacks_hash c ≡ false
    → unplaced c ≡ false
    → alias c ≡ false
    → IsNormal (fill_custom (fill_identity c))
unfolding fill_custom fill_identity
finish-IsNormal c t l u a = record {
  no_twins = ground arith;
  lan_has_hash = ground arith;
  hash_is_placed = ground arith;
  no_alias = ground arith;
  lan_has_identity = ground arith;
  flagged = ground arith;
}

-- Normalising a contact that is not an empty dict brings it into normal form: two different
-- transport hashes, a hash where there is a LAN hash, a transport for every hash, no hash
-- repeated by a serial contact, an identity where there are a LAN hash and a LAN identity, and
-- the flag set.
pub normalize_contact-IsNormal : (c : Contact) → is_entry c ≡ true → IsNormal (normalize_contact c)
unfolding normalize_contact
normalize_contact-IsNormal c h =
    let c₁ = settle_twins c in
    let c₂ = drop_serial_alias c₁ in
    let c₃ = adopt_as_lan c₂ in
    let t₃ = adopt_as_lan-twins c₂ (drop_serial_alias-twins c₁ ∙ settle_twins-twins c) in
    let a₃ = adopt_as_lan-alias c₂ (drop_serial_alias-alias c₁) in
    rw h (
      finish-IsNormal (fill_hash c₃) (fill_hash-twins c₃ ∙ t₃) (fill_hash-lacks_hash c₃)
        (fill_hash-unplaced c₃ (adopt_as_lan-unplaced c₂)) (fill_hash-alias c₃ a₃))

settle_twins_fixed : (c : Contact) → twins c ≡ false → settle_twins c ≡ c
unfolding settle_twins
settle_twins_fixed c h = ground arith

drop_serial_alias_fixed : (c : Contact) → alias c ≡ false → drop_serial_alias c ≡ c
unfolding drop_serial_alias
drop_serial_alias_fixed c h = ground arith

adopt_as_lan_fixed : (c : Contact) → unplaced c ≡ false → adopt_as_lan c ≡ c
unfolding adopt_as_lan
adopt_as_lan_fixed c h = ground arith

fill_hash_fixed : (c : Contact) → lacks_hash c ≡ false → fill_hash c ≡ c
unfolding fill_hash
fill_hash_fixed c h = ground arith

finish_fixed : (c : Contact) → IsNormal c → fill_custom (fill_identity c) ≡ c
unfolding fill_custom fill_identity
finish_fixed c n = ground (arith, n.lan_has_identity, n.flagged)

-- A contact in normal form is its own normal form.
pub normalize_contact_fixed : (c : Contact) → IsNormal c → normalize_contact c ≡ c
unfolding normalize_contact
normalize_contact_fixed c n = ground (
  arith,
  settle_twins_fixed c n.no_twins,
  drop_serial_alias_fixed c n.no_alias,
  adopt_as_lan_fixed c n.hash_is_placed,
  fill_hash_fixed c n.lan_has_hash,
  finish_fixed c n,
)

blank_twice :
    (c : Contact)
    → is_entry c ≡ false
    → normalize_contact (normalize_contact c) ≡ normalize_contact c
unfolding normalize_contact
blank_twice c e = rw (e, e) refl

-- Normalising twice is normalising once.
pub normalize_contact_twice :
    (c : Contact) → normalize_contact (normalize_contact c) ≡ normalize_contact c
normalize_contact_twice c = elim (Bool-cases (is_entry c)) [
  | inl e ↦ normalize_contact_fixed (normalize_contact c) (normalize_contact-IsNormal c e)
  | inr e ↦ blank_twice c e
]
