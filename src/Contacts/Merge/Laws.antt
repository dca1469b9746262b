-- ===== src/Contacts/Merge/Laws.antt =====
-- Laws of merging contact records in chatxz/core/contacts.py.
use mathlib.Core.Path.{ap₂}
use chatxz.Prelude.{
  ◌≡◌, refl, sym, ap, ◌∙◌, Bool, true, false, ◌&&◌, ◌||◌, Option, List, [], ◌∷◌, arith,
  if◌then◌else◌, is_some, Str, str_eq, truthy, str_mem, str_eq_iff,
}
use chatxz.Contacts.Record.{
  Contact, clean, stripped, is_entry, normalize_contact, contact_hashes, stored_hashes,
}
use chatxz.Contacts.Record.Laws.{IsNormal, normalize_contact-IsNormal, normalize_contact_twice}
use chatxz.Contacts.Record.Hashes.{is_at, is_in, str_mem-stored_hashes, str_mem-contact_hashes}
use chatxz.Contacts.Record.Fields.{normalize_contact-SameLabels}
use chatxz.Contacts.Names.{folded, names_related, is_custom}
use chatxz.Contacts.Names.Laws.{names_related_sym}
use chatxz.Contacts.Merge.{
  share_one, lan_or_hash, complementary, belong_together, should_merge_contacts, fill, fill_fields,
  take_custom, take_lan, merge_contact_entries,
}

share_one-nil : (xs : List Str) → share_one xs [] ≡ false
unfolding share_one str_mem
share_one-nil [] = refl
share_one-nil (x ∷ xs) = share_one-nil xs

share_one-cons :
    (y : Str) (xs ys : List Str) → share_one xs (y ∷ ys) ≡ str_mem y xs || share_one xs ys
unfolding share_one str_mem
share_one-cons y [] ys = refl
share_one-cons y (x ∷ xs) ys =
    ground (arith, share_one-cons y xs ys, str_eq_iff x y, str_eq_iff y x)

share_one_sym : (xs ys : List Str) → share_one xs ys ≡ share_one ys xs
unfolding share_one
share_one_sym [] ys = sym (share_one-nil ys)
share_one_sym (x ∷ xs) ys = ground (arith, share_one_sym xs ys, share_one-cons x ys xs)

-- The last test of `_should_merge_contacts` adds nothing: equal names are related names.
related_of_equal :
    (a b : Option Str)
    → truthy (folded a) ≡ true
    → truthy (folded b) ≡ true
    → str_eq (folded a) (folded b) ≡ true
    → names_related a b ≡ true
unfolding names_related
related_of_equal a b ha hb e = ground arith

tests_lem :
    (shares idents compl related na nb same other : Bool)
    → (na ≡ true → nb ≡ true → same ≡ true → related ≡ true)
    → (if shares
        then true
        else if idents
        then true
        else if compl && related
        then true
        else compl && (na && (nb && (same && other))))
      ≡ shares || (idents || (compl && related))
tests_lem true idents compl related na nb same other h = refl
tests_lem false true compl related na nb same other h = refl
tests_lem false false false related na nb same other h = refl
tests_lem false false true true na nb same other h = refl
tests_lem false false true false false nb same other h = refl
tests_lem false false true false true false same other h = refl
tests_lem false false true false true true false other h = refl
tests_lem false false true false true true true other h = cc (h refl refl refl)

either_lem : (a b c a' b' c' : Bool) → a ≡ a' → b ≡ b' → c ≡ c' → a || (b || c) ≡ a' || (b' || c')
either_lem a b c a' b' c' p q r = cc (p, q, r)

idents_sym :
    (a b : Str) → truthy a && (truthy b && str_eq a b) ≡ truthy b && (truthy a && str_eq b a)
idents_sym a b = ground (arith, str_eq_iff a b, str_eq_iff b a)

belong_together_lem :
    (a b : Contact)
    → belong_together a b
      ≡ share_one (contact_hashes a) (contact_hashes b)
        || ((truthy (clean a.identity_hash)
              && (truthy (clean b.identity_hash)
                  && str_eq (clean a.identity_hash) (clean b.identity_hash)))
            || (complementary
                  (lan_or_hash a)
                  (clean a.serial_hash)
                  (lan_or_hash b)
                  (clean b.serial_hash)
                && names_related a.name b.name))
unfolding belong_together
belong_together_lem a b =
    let compl =
      complementary (lan_or_hash a) (clean a.serial_hash) (lan_or_hash b) (clean b.serial_hash) in
    tests_lem (share_one (contact_hashes a) (contact_hashes b)) _ compl
      (names_related a.name b.name) (truthy (folded a.name)) (truthy (folded b.name))
      (str_eq (folded a.name) (folded b.name)) _ (related_of_equal a.name b.name)

complementary_sym : (a b c d : Str) → complementary a b c d ≡ complementary c d a b
complementary_sym a b c d = ground arith

-- Whether two records are merged does not depend on their order.
pub should_merge_contacts_sym :
    (a b : Contact) → should_merge_contacts a b ≡ should_merge_contacts b a
unfolding should_merge_contacts
should_merge_contacts_sym a b =
    let x = normalize_contact a in
    let y = normalize_contact b in
    belong_together_lem x y
    ∙ either_lem _ _ _ _ _ _ (share_one_sym (contact_hashes x) (contact_hashes y))
        (idents_sym (clean x.identity_hash) (clean y.identity_hash))
        (ap₂ ◌&&◌
          (complementary_sym (lan_or_hash x) (clean x.serial_hash) (lan_or_hash y)
            (clean y.serial_hash))
          (names_related_sym x.name y.name))
    ∙ sym (belong_together_lem y x)

or_join :
    {f rest : Bool} (a b as' bs : Bool)
    → (f ≡ true → a || b ≡ true)
    → (rest ≡ true → as' || bs ≡ true)
    → f || rest ≡ true
    → (a || as') || (b || bs) ≡ true
or_join {f = true} {rest} a b as' bs p q h = let e = p refl in ground arith
or_join {f = false} {rest} a b as' bs p q h = let e = q h in ground arith

module _ (t : Str) where
  is_at-fill : (a b : Option Str) → is_at t (fill a b) ≡ true → is_at t a || is_at t b ≡ true
  is_at-fill a b h = ground arith

  is_in-fill_fields :
      (a b : Contact) → is_in t (fill_fields a b) ≡ true → is_in t a || is_in t b ≡ true
  unfolding fill_fields
  is_in-fill_fields a b h =
      or_join (is_at t a.hash) (is_at t b.hash)
        (is_at t a.lan_hash
          || (is_at t a.serial_hash
              || (is_at t a.identity_hash
                  || (is_at t a.lan_identity_hash || (is_at t a.serial_identity_hash)))))
        (is_at t b.lan_hash
          || (is_at t b.serial_hash
              || (is_at t b.identity_hash
                  || (is_at t b.lan_identity_hash || (is_at t b.serial_identity_hash)))))
        (is_at-fill a.hash b.hash)
        (or_join (is_at t a.lan_hash) (is_at t b.lan_hash)
          (is_at t a.serial_hash
            || (is_at t a.identity_hash
                || (is_at t a.lan_identity_hash || (is_at t a.serial_identity_hash))))
          (is_at t b.serial_hash
            || (is_at t b.identity_hash
                || (is_at t b.lan_identity_hash || (is_at t b.serial_identity_hash))))
          (is_at-fill a.lan_hash b.lan_hash)
          (or_join (is_at t a.serial_hash) (is_at t b.serial_hash)
            (is_at t a.identity_hash
              || (is_at t a.lan_identity_hash || (is_at t a.serial_identity_hash)))
            (is_at t b.identity_hash
              || (is_at t b.lan_identity_hash || (is_at t b.serial_identity_hash)))
            (is_at-fill a.serial_hash b.serial_hash)
            (or_join (is_at t a.identity_hash) (is_at t b.identity_hash)
              (is_at t a.lan_identity_hash || (is_at t a.serial_identity_hash))
              (is_at t b.lan_identity_hash || (is_at t b.serial_identity_hash))
              (is_at-fill a.identity_hash b.identity_hash)
              (or_join (is_at t a.lan_identity_hash) (is_at t b.lan_identity_hash)
                (is_at t a.serial_identity_hash) (is_at t b.serial_identity_hash)
                (is_at-fill a.lan_identity_hash b.lan_identity_hash)
                (is_at-fill a.serial_identity_hash b.serial_identity_hash)))))
        h

  is_in-take_custom : (a b : Contact) → is_in t (take_custom a b) ≡ is_in t a
  unfolding take_custom
  is_in-take_custom a b = ground arith

  is_in-take_lan : (a : Contact) → is_in t (take_lan a) ≡ true → is_in t a ≡ true
  unfolding take_lan
  is_in-take_lan a h = ground arith

hashes_of_normal :
    (t : Str) (a : Contact) → str_mem t (contact_hashes a) ≡ is_in t (normalize_contact a)
unfolding contact_hashes
hashes_of_normal t a = str_mem-stored_hashes t (normalize_contact a)

pub hashes_twice : (a : Contact) → contact_hashes (normalize_contact a) ≡ contact_hashes a
unfolding contact_hashes
hashes_twice a = ap stored_hashes (normalize_contact_twice a)

hashes_of_stored :
    (t : Str) (a : Contact) → str_mem t (contact_hashes (normalize_contact a)) ≡ is_in t a
hashes_of_stored t a =
    ap (str_mem t) (hashes_twice a) ∙ str_mem-contact_hashes t a ∙ str_mem-stored_hashes t a

-- A merged record has no hash that neither of the two had.
pub contact_hashes-merge_contact_entries :
    (t : Str) (a b : Contact)
    → str_mem t (contact_hashes (merge_contact_entries a b)) ≡ true
    → str_mem t (contact_hashes a) || str_mem t (contact_hashes b) ≡ true
unfolding merge_contact_entries
contact_hashes-merge_contact_entries t a b h =
    let x = normalize_contact a in
    let y = normalize_contact b in
    let filled = fill_fields x y in
    let named = take_custom filled y in
    let h₁ = is_in-take_lan t named (sym (hashes_of_stored t (take_lan named)) ∙ h) in
    let h₂ = is_in-fill_fields t x y (sym (is_in-take_custom t filled y) ∙ h₁) in
    ap₂ ◌||◌ (hashes_of_normal t a) (hashes_of_normal t b) ∙ h₂

flagged_entry : (c : Contact) → is_some c.custom_name ≡ true → is_entry c ≡ true
unfolding is_entry
flagged_entry c h = ground arith

flag_stays :
    (x y : Contact)
    → is_some x.custom_name ≡ true
    → is_some (take_lan (take_custom (fill_fields x y) y)).custom_name ≡ true
unfolding fill_fields take_custom take_lan
flag_stays x y h = ground arith

-- A record merged into one that has a key is in normal form.
pub merge_contact_entries-IsNormal :
    (a b : Contact) → is_entry a ≡ true → IsNormal (merge_contact_entries a b)
unfolding merge_contact_entries
merge_contact_entries-IsNormal a b h =
    let x = normalize_contact a in
    let y = normalize_contact b in
    let n = normalize_contact-IsNormal a h in
    normalize_contact-IsNormal (take_lan (take_custom (fill_fields x y) y))
      (flagged_entry (take_lan (take_custom (fill_fields x y) y)) (flag_stays x y n.flagged))

-- A merged record has the name that the user gave to the second one; otherwise that of the first one,
-- and the second one's only where the first has none. It is marked as user-named if one of them is.
pub merge_contact_entries_name :
    (a b : Contact)
    → ((merge_contact_entries a b).name
        ≡ (if is_custom b && truthy (stripped b.name) then b.name else fill a.name b.name))
      × (is_custom (merge_contact_entries a b) ≡ is_custom a || is_custom b)
unfolding merge_contact_entries fill_fields take_custom take_lan
merge_contact_entries_name a b =
    let x = normalize_contact a in
    let y = normalize_contact b in
    let la = normalize_contact-SameLabels a in
    let lb = normalize_contact-SameLabels b in
    let l = normalize_contact-SameLabels (take_lan (take_custom (fill_fields x y) y)) in
    (
      l.name ∙ ground (arith, la.name, lb.name, lb.custom),
      l.custom ∙ ground (arith, la.custom, lb.custom),
    )
