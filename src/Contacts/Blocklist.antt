-- ===== src/Contacts/Blocklist.antt =====
-- The blocklist of deleted contacts in chatxz/core/contacts.py (`.deleted.json`).
pub mod Laws
use chatxz.Prelude.{
  Bool, true, false, not, ◌&&◌, Option, none, some, List, [], ◌∷◌, ◌++◌, if◌then◌else◌, keep, Str,
  truthy, str_mem,
}
use chatxz.Prelude.Int.{sorted}
use chatxz.Contacts.Record.{Port, Contact, clean, clean_arg, normalize_contact, contact_hashes}
use chatxz.Contacts.Names.{folded, name_is_hash_like, names_related}

-- What the file holds; a file that is missing or cannot be read counts as empty.
pub record Index : Type 0 where
  pub hashes : List Str
  pub identities : List Str
  pub names : List Str

-- A discovered peer, as far as contacts look at it.
pub record Peer : Type 0 where
  pub hash : Option Str
  pub identity_hash : Option Str
  pub name : Option Str
  pub ip : Option Str
  pub port : Option Port
  pub via : Option Str

-- `set(items)`
unfoldable pub dedup : List Str → List Str
dedup [] = []
dedup (s ∷ ss) = let rest = dedup ss in if str_mem s rest then rest else s ∷ rest

-- `_save_deleted_index`: what is read back afterwards.
unfoldable pub save_deleted_index : Index → Index
unfolding dedup
save_deleted_index i = record {
  hashes = sorted (dedup i.hashes);
  identities = sorted (dedup i.identities);
  names = sorted (dedup i.names);
}

-- `if h and h not in items: items.append(h)`
unfoldable pub append_new : Str → List Str → List Str
append_new h items = if truthy h && not (str_mem h items) then items ++ h ∷ [] else items

unfoldable pub append_all : List Str → List Str → List Str
append_all [] items = items
append_all (h ∷ hs) items = append_all hs (append_new h items)

-- `_record_contact_deleted`
unfoldable pub record_contact_deleted : Contact → Index → Index
unfolding append_all
record_contact_deleted contact idx =
    let c = normalize_contact contact in
    let name = folded c.name in
    save_deleted_index (record {
      hashes = append_all (contact_hashes c) idx.hashes;
      identities = append_new (clean c.identity_hash) idx.identities;
      names =
          if truthy name && not (name_is_hash_like c.name (contact_hashes c))
          then append_new name idx.names
          else idx.names;
    })

abbrev pub is_nil : List Str → Bool
is_nil [] = true
is_nil (s ∷ ss) = false

-- `not any((hashes, identities, names))`
abbrev pub is_clear : Index → Bool
is_clear idx = is_nil idx.hashes && (is_nil idx.identities && is_nil idx.names)

-- `targets.add(h)` where `h` is not empty
abbrev add_target : Str → List Str → List Str
add_target h ts = if truthy h then h ∷ ts else ts

-- The targets that `clear_contact_deleted` takes off the list.
unfoldable pub cleared_targets : Option Contact → Option Str → List Str
cleared_targets none peer_hash = add_target (clean_arg peer_hash) []
cleared_targets (some c) peer_hash =
    add_target (clean_arg peer_hash) (
      add_target (clean (normalize_contact c).identity_hash) (contact_hashes (normalize_contact c)))

-- `clear_contact_deleted`
unfoldable pub clear_contact_deleted : Option Contact → Option Str → Index → Index
clear_contact_deleted contact peer_hash idx =
    let targets = cleared_targets contact peer_hash in
    if is_clear idx
    then idx
    else if is_nil targets
    then idx
    else save_deleted_index (record idx {
      hashes = keep (λ h. not (str_mem h targets)) idx.hashes;
      identities = keep (λ h. not (str_mem h targets)) idx.identities;
    })

-- `for blocked in idx["names"]: if blocked and _names_related(blocked, peer_name)`
unfoldable pub names_block : Str → List Str → Bool
names_block peer_name [] = false
names_block peer_name (b ∷ bs) =
    let rest = names_block peer_name bs in
    if truthy b && names_related (some b) (some peer_name) then true else rest

-- `peer_is_deleted`
unfoldable pub peer_is_deleted : Peer → Index → Bool
unfolding names_block
peer_is_deleted peer idx =
    let hash = clean peer.hash in
    let ident = clean peer.identity_hash in
    let name = folded peer.name in
    if is_clear idx
    then false
    else if truthy hash && str_mem hash idx.hashes
    then true
    else if truthy ident && str_mem ident idx.identities
    then true
    else if truthy name && str_mem name idx.names
    then true
    else names_block name idx.names
