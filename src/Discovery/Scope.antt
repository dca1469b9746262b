-- ===== src/Discovery/Scope.antt =====
-- Which peers may be stored or shown under a LAN scope, in chatxz/core/discovery.py.
use chatxz.Prelude.{
  Bool, false, not, ◌&&◌, ◌||◌, Option, none, some, [], ◌∷◌, if◌then◌else◌, is_some, Str, str_eq,
  truthy, or_empty, strip,
}
use chatxz.Dict.{Dict}
use chatxz.Scope.{peer_in_scope}
use chatxz.Contacts.Record.{Port, num}
use chatxz.Discovery.State.{Row, World, normalize_hash, is_serial, row_ip, scope_of}
use chatxz.Prelude.Int.{pos}

abbrev pub port_or : Option Port → Port → Option Port
port_or none p = some p
port_or (some q) p = some q

-- `peer["ip"] = existing_ip`, and the port
abbrev pub take_endpoint : Row → Row → Row
take_endpoint existing peer = record peer {
  ip = some (row_ip existing);
  port = port_or existing.port (num (pos 8742));
}

-- `name and existing.get("name") == name`, or the same identity
abbrev pub is_namesake : Str → Str → Row → Bool
is_namesake name ident existing =
    (truthy name && str_eq (or_empty existing.name) name)
    || (truthy ident && str_eq (normalize_hash existing.identity_hash) ident)

-- The loop over the stored peers; an empty scope is no scope.
unfoldable pub borrow_endpoint : Str → Row → Dict Row → Row
borrow_endpoint scope peer [] = peer
borrow_endpoint scope peer ((k, existing) ∷ d) =
    let rest = borrow_endpoint scope peer d in
    if not (truthy (row_ip existing))
    then rest
    else if truthy scope && not (peer_in_scope (some (row_ip existing)) (some scope))
    then rest
    else if is_namesake (strip (or_empty peer.name)) (normalize_hash peer.identity_hash) existing
    then (if is_serial existing then peer else take_endpoint existing peer)
    else rest

-- `_attach_peer_ip`
unfoldable pub attach_peer_ip : Str → Dict Row → Row → Row
attach_peer_ip scope peers peer =
    if is_serial peer
    then record peer { ip = none }
    else if truthy (row_ip peer)
    then peer
    else borrow_endpoint scope peer peers

-- The last tests of `_sanitize_peer_scope`.
abbrev pub in_scope_only : Str → Row → Option Row
in_scope_only scope r =
    if not (truthy (row_ip r))
    then none
    else if peer_in_scope (some (row_ip r)) (some scope)
    then some r
    else none

-- `_sanitize_peer_scope`
unfoldable pub sanitize_peer_scope : World → Dict Row → Row → Option Row
sanitize_peer_scope w peers peer =
    if is_serial peer
    then (if not w.usb then none else some (record peer { ip = none }))
    else if not (truthy (scope_of w))
    then some peer
    else in_scope_only (scope_of w)
        (if truthy (row_ip peer) then peer else attach_peer_ip (scope_of w) peers peer)

-- `_peer_allowed`
abbrev pub peer_allowed : World → Dict Row → Row → Bool
peer_allowed w peers peer = is_some (sanitize_peer_scope w peers peer)

-- `_peer_viable`; the scope is an argument of its own.
unfoldable pub peer_viable : World → Option Str → Row → Bool
peer_viable w scope_ip peer =
    if is_serial peer
    then w.usb
    else if not (truthy (row_ip peer))
    then false
    else not (truthy (strip (or_empty scope_ip)))
      || peer_in_scope (some (row_ip peer)) (some (strip (or_empty scope_ip)))
