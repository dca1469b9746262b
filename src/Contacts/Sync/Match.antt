-- ===== src/Contacts/Sync/Match.antt =====
-- Which saved contact a discovered peer is, and whether its address replaces the saved one.
use chatxz.Prelude.{
  ◌≡◌, Bool, true, false, not, ◌&&◌, ◌||◌, Option, none, some, arith, if◌then◌else◌, Str, str_eq,
  truthy, or_empty, str_mem, str_eq_refl, strip-strip,
}
use chatxz.Scope.{same_lan_scope}
use chatxz.Contacts.Record.{Contact, clean, stripped, normalize_contact, contact_hashes}
use chatxz.Contacts.Names.{names_related}
use chatxz.Contacts.Blocklist.{Peer}
use chatxz.Contacts.Merge.{either}

-- `peers_equivalent`, a callback of the caller, if there is one.
abbrev pub Equivalence : Type 0
Equivalence = Option (Str → Str → Bool)

-- The tests under `if peers_equivalent:`
abbrev pub are_equivalent : Equivalence → Contact → Str → Str → Bool
are_equivalent none c hash ident = false
are_equivalent (some eqv) c hash ident =
    (eqv (clean (either c.lan_hash c.hash)) hash || eqv (clean c.serial_hash) hash)
    || (truthy ident && (truthy (clean c.identity_hash) && eqv (clean c.identity_hash) ident))

-- The tests on addresses and names.
abbrev pub looks_alike : Contact → Peer → Bool
looks_alike c p =
    let p_ip = stripped p.ip in
    let c_ip = stripped c.ip in
    let p_name = stripped p.name in
    let related = names_related (some (stripped c.name)) (some p_name) in
    let lan = clean (either c.lan_hash c.hash) in
    if truthy p_ip && (truthy c_ip && str_eq p_ip c_ip)
    then true
    else if truthy p_ip && related
    then true
    else truthy p_name && (related && (str_eq lan (clean c.serial_hash) && truthy lan))

-- `_contact_matches_discovery_peer`
unfoldable pub contact_matches_discovery_peer : Contact → Peer → Equivalence → Bool
contact_matches_discovery_peer contact p eqv =
    let c = normalize_contact contact in
    let hash = clean p.hash in
    let ident = clean p.identity_hash in
    if not (truthy hash)
    then false
    else if str_mem hash (contact_hashes c)
    then true
    else if truthy ident && str_mem ident (contact_hashes c)
    then true
    else if are_equivalent eqv c hash ident
    then true
    else looks_alike c p

-- `should_update_contact_ip`
unfoldable pub should_update_contact_ip : Option Str → Option Str → Option Str → Bool
should_update_contact_ip contact_ip new_ip local_scope_ip =
    let new = stripped new_ip in
    let old = stripped contact_ip in
    let scope = stripped local_scope_ip in
    if not (truthy new)
    then false
    else if not (truthy old)
    then true
    else if str_eq old new
    then false
    else if not (truthy scope)
    then true
    else if same_lan_scope new scope && not (same_lan_scope old scope)
    then true
    else if same_lan_scope new scope && same_lan_scope old scope
    then true
    else if not (same_lan_scope new scope) && same_lan_scope old scope
    then false
    else true

-- With a scope given, a new address of that scope always replaces another one, and an address outside
-- the scope never replaces one inside it.
pub should_update_contact_ip_lem :
    (old new scope : Option Str)
    → truthy (stripped new) ≡ true
    → truthy (stripped old) ≡ true
    → truthy (stripped scope) ≡ true
    → should_update_contact_ip old new scope
      ≡ not (str_eq (stripped old) (stripped new))
        && (same_lan_scope (stripped new) (stripped scope)
            || not (same_lan_scope (stripped old) (stripped scope)))
unfolding should_update_contact_ip
should_update_contact_ip_lem old new scope n o s = ground arith

-- An address that replaces another one is not empty, and does not replace itself afterwards.
pub should_update_contact_ip_settled :
    (old new scope : Option Str)
    → should_update_contact_ip old new scope ≡ true
    → (truthy (stripped new) ≡ true)
      × (should_update_contact_ip (some (stripped new)) new scope ≡ false)
unfolding should_update_contact_ip
should_update_contact_ip_settled old new scope h =
    (ground arith, ground (arith, strip-strip (or_empty new), str_eq_refl (stripped new)))
