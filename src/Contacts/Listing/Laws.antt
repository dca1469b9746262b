-- ===== src/Contacts/Listing/Laws.antt =====
-- What `list_contacts` and `find_contact_by_hash` of chatxz/core/contacts.py return.
use chatxz.Prelude.{
  ℕ, zero, suc, ◌≤◌, ◌≡◌, refl, inl, inr, Bool, true, false, ◌||◌, Option, some, List, [], ◌∷◌, map,
  arith, Option-cases, is_some, length, Str, truthy, str_mem,
}
use chatxz.Dict.{Dict, get, put}
use chatxz.Contacts.Record.{Contact, clean_arg, normalize_contact, contact_hashes}
use chatxz.Contacts.Store.{Store, iter_contact_files}
use chatxz.Contacts.Merge.{contact_dedup_keys, merge_contact_entries}
use chatxz.Contacts.Merge.Laws.{hashes_twice, contact_hashes-merge_contact_entries}
use chatxz.Contacts.Listing.{
  Groups, group_entry, group_all, merged_with, find_primary, first_key, values, absorb, merge_pass,
  list_contacts, find_among, find_contact_by_hash,
}

-- One of the contacts has the hash.
unfoldable pub any_has : Str → List Contact → Bool
any_has t [] = false
any_has t (c ∷ cs) = str_mem t (contact_hashes c) || any_has t cs

-- A look-up among contacts finds one exactly if some contact has the hash, and then it has the hash.
find_among_lem : (h : Str) (cs : List Contact) → is_some (find_among h cs) ≡ any_has h cs
unfolding find_among any_has
find_among_lem h [] = refl
find_among_lem h (c ∷ cs) = ground (arith, find_among_lem h cs)

find_among-has :
    (h : Str) (cs : List Contact) (c : Contact)
    → find_among h cs ≡ some c
    → str_mem h (contact_hashes c) ≡ true
unfolding find_among
find_among-has h [] c e = cc
find_among-has h (x ∷ cs) c e = ground (arith, find_among-has h cs c, hashes_twice x)

-- Looking a hash up lists the contacts, finds a contact exactly if a listed one has the hash, and what
-- it finds has it.
pub find_contact_by_hash_lem :
    (h : Option Str) (s : Store)
    → truthy (clean_arg h) ≡ true
    → (is_some (find_contact_by_hash h s).1 ≡ any_has (clean_arg h) (list_contacts s).1)
      × ((find_contact_by_hash h s).0 ≡ (list_contacts s).0)
unfolding find_contact_by_hash
find_contact_by_hash_lem h s real = rw real (find_among_lem (clean_arg h) (list_contacts s).1, refl)

pub find_contact_by_hash-has :
    (h : Option Str) (s : Store) (c : Contact)
    → (find_contact_by_hash h s).1 ≡ some c
    → str_mem (clean_arg h) (contact_hashes c) ≡ true
unfolding find_contact_by_hash
find_contact_by_hash-has h s c e =
    ground (arith, find_among-has (clean_arg h) (list_contacts s).1 c)

-- An absorbing turn leaves no more entries than it found.
length-absorb : (c : Contact) (cs : List Contact) → length (absorb c cs).left ≤ length cs
unfolding absorb
length-absorb c [] = omega arith
length-absorb c (x ∷ cs) =
    ground (arith, length-absorb c cs, length-absorb (merge_contact_entries c x) cs)

-- The second pass of a listing gives the same result for any two numbers of turns that are not
-- below the number of entries, so the number of entries is enough.
merge_pass_enough :
    (n m : ℕ) (cs : List Contact)
    → length cs ≤ n
    → length cs ≤ m
    → merge_pass n cs ≡ merge_pass m cs
unfolding merge_pass
merge_pass_enough zero zero cs h k = refl
merge_pass_enough zero (suc m) [] h k = refl
merge_pass_enough zero (suc m) (c ∷ cs) h k = absurd (omega arith)
merge_pass_enough (suc n) zero [] h k = refl
merge_pass_enough (suc n) zero (c ∷ cs) h k = absurd (omega arith)
merge_pass_enough (suc n) (suc m) [] h k = refl
merge_pass_enough (suc n) (suc m) (c ∷ cs) h k =
    let shorter = length-absorb (normalize_contact c) cs in
    cc (merge_pass_enough n m (absorb (normalize_contact c) cs).left (omega arith) (omega arith))

module _ (t : Str) where
  any_has-absorb :
      (c : Contact) (cs : List Contact)
      → any_has t ((absorb c cs).current ∷ (absorb c cs).left) ≡ true
      → any_has t (c ∷ cs) ≡ true
  unfolding absorb any_has
  any_has-absorb c [] h = h
  any_has-absorb c (x ∷ cs) h = ground (
    arith,
    any_has-absorb c cs,
    any_has-absorb (merge_contact_entries c x) cs,
    contact_hashes-merge_contact_entries t c x,
  )

  any_has-merge_pass :
      (n : ℕ) (cs : List Contact) → any_has t (merge_pass n cs).0 ≡ true → any_has t cs ≡ true
  unfolding merge_pass any_has
  any_has-merge_pass zero cs h = cc
  any_has-merge_pass (suc n) [] h = cc
  any_has-merge_pass (suc n) (c ∷ cs) h = ground (
    arith,
    any_has-absorb (normalize_contact c) cs,
    any_has-merge_pass n (absorb (normalize_contact c) cs).left,
    hashes_twice c,
  )

  any_has-values-put :
      (k : Str) (c : Contact) (d : Dict Contact)
      → any_has t (values (put k c d)) ≡ true
      → str_mem t (contact_hashes c) || any_has t (values d) ≡ true
  unfolding values put any_has
  any_has-values-put k c [] h = h
  any_has-values-put k c ((j, x) ∷ d) h = ground (arith, any_has-values-put k c d)

  has-get :
      (k : Str) (c : Contact) (d : Dict Contact)
      → get k d ≡ some c
      → str_mem t (contact_hashes c) ≡ true
      → any_has t (values d) ≡ true
  unfolding values get any_has
  has-get k c [] e h = cc
  has-get k c ((j, x) ∷ d) e h = ground (arith, has-get k c d)

  has-merged_with :
      (k : Str) (c : Contact) (d : Dict Contact)
      → str_mem t (contact_hashes (merged_with (get k d) c)) ≡ true
      → str_mem t (contact_hashes c) || any_has t (values d) ≡ true
  has-merged_with k c d h = elim (Option-cases (get k d)) [
    | inl e ↦ ground arith
    | inr (x, e) ↦ ground (arith, contact_hashes-merge_contact_entries t x c, has-get k x d e)
  ]

  any_has-group_entry :
      (c : Contact) (g : Groups)
      → any_has t (values (group_entry c g).deduped) ≡ true
      → str_mem t (contact_hashes c) || any_has t (values g.deduped) ≡ true
  unfolding group_entry
  any_has-group_entry c g h =
      let keys = contact_dedup_keys (normalize_contact c) in
      elim (Option-cases (find_primary keys g.key_to_primary)) [
        | inl e ↦ ground (
          arith,
          any_has-values-put (first_key keys) (normalize_contact c) g.deduped,
          hashes_twice c,
        )
        | inr (primary, e) ↦ ground (
          arith,
          any_has-values-put primary (merged_with (get primary g.deduped) (normalize_contact c))
              g.deduped,
          has-merged_with primary (normalize_contact c) g.deduped,
          hashes_twice c,
        )
      ]

  any_has-group_all :
      (raw : List (Str × Contact)) (g : Groups)
      → any_has t (values (group_all raw g).deduped) ≡ true
      → any_has t (map (λ (r : Str × Contact). r.1) raw) || any_has t (values g.deduped) ≡ true
  unfolding group_all any_has
  any_has-group_all [] g h = h
  any_has-group_all ((name, c) ∷ raw) g h =
      ground (arith, any_has-group_all raw (group_entry c g), any_has-group_entry c g)

-- Every hash of a listed contact is a hash of a contact that was read from a file.
pub list_contacts-hashes :
    (t : Str) (s : Store)
    → any_has t (list_contacts s).1 ≡ true
    → any_has t (map (λ (r : Str × Contact). r.1) (iter_contact_files s)) ≡ true
unfolding list_contacts any_has
list_contacts-hashes t s h =
    let g =
      group_all (iter_contact_files s)
        (record { deduped = []; key_to_primary = []; orphans = [] }) in
    let entries = values g.deduped in
    ground (
      arith,
      any_has-merge_pass t (length entries) entries,
      any_has-group_all t (iter_contact_files s)
          (record { deduped = []; key_to_primary = []; orphans = [] }),
    )
