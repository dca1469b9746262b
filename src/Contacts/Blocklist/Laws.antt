-- ===== src/Contacts/Blocklist/Laws.antt =====
-- Who is on the blocklist of chatxz/core/contacts.py after deleting and saving.
use chatxz.Contacts.Blocklist.{is_nil}
use chatxz.Contacts.Blocklist.{peer_is_deleted}
use chatxz.Contacts.Record.{Contact}
use chatxz.Contacts.Blocklist.{Index}
use chatxz.Contacts.Blocklist.{Peer}
use chatxz.Contacts.Blocklist.{clear_contact_deleted}
use chatxz.Contacts.Blocklist.{record_contact_deleted}
use chatxz.Contacts.Blocklist.{save_deleted_index}
use chatxz.Contacts.Names.{folded}
use chatxz.Contacts.Record.{clean}
use chatxz.Contacts.Blocklist.{cleared_targets}
use chatxz.Contacts.Record.{contact_hashes}
use chatxz.Contacts.Record.{normalize_contact}
use chatxz.Contacts.Blocklist.{is_clear}
use chatxz.Prelude.{
  ◌≡◌, refl, ◌∙◌, ◌⊎◌, inl, inr, true, false, not, ◌&&◌, ◌||◌, Option, List, [], ◌∷◌, ◌++◌, arith,
  Bool-cases, keep, Str, str_eq, truthy, str_mem, str_eq_iff,
}
use chatxz.Prelude.Int.{sorted, insert_sorted}
use chatxz.Contacts.Blocklist.{dedup, append_new, append_all}

str_mem-dedup : (t : Str) (ss : List Str) → str_mem t (dedup ss) ≡ str_mem t ss
unfolding dedup str_mem
str_mem-dedup t [] = refl
str_mem-dedup t (s ∷ ss) = ground (arith, str_mem-dedup t ss, str_eq_iff t s)

str_mem-insert_sorted :
    (t s : Str) (ss : List Str) → str_mem t (insert_sorted s ss) ≡ str_eq t s || str_mem t ss
unfolding insert_sorted str_mem
str_mem-insert_sorted t s [] = refl
str_mem-insert_sorted t s (u ∷ ss) = ground (arith, str_mem-insert_sorted t s ss)

str_mem-sorted : (t : Str) (ss : List Str) → str_mem t (sorted ss) ≡ str_mem t ss
unfolding sorted str_mem
str_mem-sorted t [] = refl
str_mem-sorted t (s ∷ ss) =
    ground (arith, str_mem-insert_sorted t s (sorted ss), str_mem-sorted t ss)

saved_lem : (t : Str) (ss : List Str) → str_mem t (sorted (dedup ss)) ≡ str_mem t ss
saved_lem t ss = str_mem-sorted t (dedup ss) ∙ str_mem-dedup t ss

str_mem-append : (t : Str) (xs ys : List Str) → str_mem t (xs ++ ys) ≡ str_mem t xs || str_mem t ys
unfolding str_mem
str_mem-append t [] ys = refl
str_mem-append t (x ∷ xs) ys = ground (arith, str_mem-append t xs ys)

mem_one : (t h : Str) → str_mem t (h ∷ []) ≡ str_eq t h
unfolding str_mem
mem_one t h = ground arith

str_mem-append_new :
    (t h : Str) (items : List Str)
    → str_mem t (append_new h items) ≡ (truthy h && str_eq t h) || str_mem t items
unfolding append_new
str_mem-append_new t h items =
    ground (arith, str_mem-append t items (h ∷ []), str_eq_iff t h, mem_one t h)

str_mem-append_all :
    (t : Str) (hs items : List Str)
    → str_mem t (append_all hs items) ≡ (truthy t && str_mem t hs) || str_mem t items
unfolding append_all str_mem
str_mem-append_all t [] items = ground arith
str_mem-append_all t (h ∷ hs) items = ground (
  arith,
  str_mem-append_all t hs (append_new h items),
  str_mem-append_new t h items,
  str_eq_iff t h,
)

str_mem-keep_out :
    (t : Str) (targets hs : List Str)
    → str_mem t (keep (λ h. not (str_mem h targets)) hs) ≡ not (str_mem t targets) && str_mem t hs
unfolding keep str_mem
str_mem-keep_out t targets [] = ground arith
str_mem-keep_out t targets (h ∷ hs) = ground (arith, str_mem-keep_out t targets hs, str_eq_iff t h)

module _ (c : Contact) (idx : Index) (t : Str) where
  pub hashes-record_contact_deleted :
      str_mem t (record_contact_deleted c idx).hashes
      ≡ (truthy t && str_mem t (contact_hashes (normalize_contact c))) || str_mem t idx.hashes
  unfolding record_contact_deleted save_deleted_index
  hashes-record_contact_deleted =
      saved_lem t _ ∙ str_mem-append_all t (contact_hashes (normalize_contact c)) idx.hashes

  identities-record_contact_deleted :
      str_mem t (record_contact_deleted c idx).identities
      ≡ (truthy (clean (normalize_contact c).identity_hash)
          && str_eq t (clean (normalize_contact c).identity_hash))
        || str_mem t idx.identities
  unfolding record_contact_deleted save_deleted_index
  identities-record_contact_deleted =
      saved_lem t _
      ∙ str_mem-append_new t (clean (normalize_contact c).identity_hash) idx.identities

pub clear_of_mem : (t : Str) (hs : List Str) → str_mem t hs ≡ true → is_nil hs ≡ false
unfolding str_mem
clear_of_mem t [] h = cc
clear_of_mem t (x ∷ hs) h = refl

-- Deleting a contact blocks every discovered peer that carries one of the contact's hashes.
pub record_contact_deleted-blocks_hash :
    (c : Contact) (idx : Index) (peer : Peer)
    → truthy (clean peer.hash) ≡ true
    → str_mem (clean peer.hash) (contact_hashes (normalize_contact c)) ≡ true
    → peer_is_deleted peer (record_contact_deleted c idx) ≡ true
unfolding peer_is_deleted
record_contact_deleted-blocks_hash c idx peer real shared =
    let idx' = record_contact_deleted c idx in
    let there = hashes-record_contact_deleted c idx (clean peer.hash) in
    let m : str_mem (clean peer.hash) idx'.hashes ≡ true = ground arith in
    ground (arith, clear_of_mem (clean peer.hash) idx'.hashes m)

-- Deleting a contact blocks every discovered peer that has an identity hash and whose identity
-- hash is the contact's.
pub record_contact_deleted-blocks_identity :
    (c : Contact) (idx : Index) (peer : Peer)
    → truthy (clean peer.identity_hash) ≡ true
    → clean peer.identity_hash ≡ clean (normalize_contact c).identity_hash
    → peer_is_deleted peer (record_contact_deleted c idx) ≡ true
unfolding peer_is_deleted
record_contact_deleted-blocks_identity c idx peer real same =
    let idx' = record_contact_deleted c idx in
    let there = identities-record_contact_deleted c idx (clean peer.identity_hash) in
    let m : str_mem (clean peer.identity_hash) idx'.identities ≡ true =
      ground (
        arith,
        str_eq_iff (clean peer.identity_hash) (clean (normalize_contact c).identity_hash),
      ) in
    ground (arith, clear_of_mem (clean peer.identity_hash) idx'.identities m)

-- A deletion unblocks nobody by hash or identity.
pub record_contact_deleted_mono :
    (c : Contact) (idx : Index) (t : Str)
    → ((str_mem t idx.hashes ≡ true) ⊎ (str_mem t idx.identities ≡ true))
    → (str_mem t (record_contact_deleted c idx).hashes ≡ true)
      ⊎ (str_mem t (record_contact_deleted c idx).identities ≡ true)
record_contact_deleted_mono c idx t (inl h) =
    inl (ground (arith, hashes-record_contact_deleted c idx t))
record_contact_deleted_mono c idx t (inr h) =
    inr (ground (arith, identities-record_contact_deleted c idx t))

nil_mem : (t : Str) (hs : List Str) → is_nil hs ≡ true → str_mem t hs ≡ false
unfolding str_mem
nil_mem t [] h = refl
nil_mem t (x ∷ hs) h = cc

module _ (contact : Option Contact) (peer_hash : Option Str) (idx : Index) (t : Str) where
  -- An explicit save takes the contact's hashes and its key off the lists of hashes and identities, and
  -- nothing else off any list.
  pub clear_contact_deleted_lem :
      (str_mem t (clear_contact_deleted contact peer_hash idx).hashes
        ≡ not (str_mem t (cleared_targets contact peer_hash)) && str_mem t idx.hashes)
      × (str_mem t (clear_contact_deleted contact peer_hash idx).identities
          ≡ not (str_mem t (cleared_targets contact peer_hash)) && str_mem t idx.identities)
      × (str_mem t (clear_contact_deleted contact peer_hash idx).names ≡ str_mem t idx.names)
  unfolding clear_contact_deleted save_deleted_index
  clear_contact_deleted_lem =
      let targets = cleared_targets contact peer_hash in
      elim (Bool-cases (is_clear idx)) [
        | inl e ↦ (
          ground (arith, nil_mem t idx.hashes),
          ground (arith, nil_mem t idx.identities),
          ground arith,
        )
        | inr e ↦ elim (Bool-cases (is_nil targets)) [
          | inl n ↦
              (ground (arith, nil_mem t targets), ground (arith, nil_mem t targets), ground arith)
          | inr n ↦ (
            ground (
              arith,
              saved_lem t (keep (λ h. not (str_mem h targets)) idx.hashes),
              str_mem-keep_out t targets idx.hashes,
            ),
            ground (
              arith,
              saved_lem t (keep (λ h. not (str_mem h targets)) idx.identities),
              str_mem-keep_out t targets idx.identities,
            ),
            ground (arith, saved_lem t idx.names),
          )
        ]
      ]

-- A peer with a name that is on the blocklist of names is still blocked after the blocklist was
-- cleared for any contact and hash: names are never cleared.
pub clear_contact_deleted_leaves_name :
    (contact : Option Contact) (peer_hash : Option Str) (idx : Index) (peer : Peer)
    → truthy (folded peer.name) ≡ true
    → str_mem (folded peer.name) idx.names ≡ true
    → peer_is_deleted peer (clear_contact_deleted contact peer_hash idx) ≡ true
unfolding peer_is_deleted
clear_contact_deleted_leaves_name contact peer_hash idx peer named blocked =
    let idx' = clear_contact_deleted contact peer_hash idx in
    let same = (clear_contact_deleted_lem contact peer_hash idx (folded peer.name)).2 in
    let m : str_mem (folded peer.name) idx'.names ≡ true = ground arith in
    ground (arith, clear_of_mem (folded peer.name) idx'.names m)
