-- ===== src/Discovery/Ranking.antt =====
-- Which of two rows is the better one, and how duplicates collapse, in chatxz/core/discovery.py.
pub mod Laws
pub mod Settled
use chatxz.Prelude.{
  ℕ, ◌+◌, Bool, true, false, not, ◌&&◌, ◌||◌, Option, none, some, [], ◌∷◌, ◌++◌, ltb, leb, ◌==◌,
  if◌then◌else◌, length, take, Str, codes, str_eq, truthy, or_empty, or_else, str_mem, starts_with,
  strip,
}
use chatxz.Dict.{Dict, get, put}
use chatxz.Discovery.State.{Row, PeerDiscovery, World, normalize_hash, scope_of, row_via, raw_via}
use chatxz.Discovery.Scope.{peer_viable}
use chatxz.Discovery.Store.{same_text, bool_eq}
use chatxz.Discovery.Remove.{remove_peer_entry, purge_out_of_scope, purge_misclassified_serial}

-- `peer.get("via") == ...`, with no blanks cut off
abbrev via_is : Str → Row → Bool
via_is name r = str_eq (or_empty r.via) name

abbrev number_if : Bool → ℕ → ℕ
number_if b n = if b then n else 0

-- A name that does not start like the hash.
abbrev has_own_name : Row → Bool
has_own_name r =
    truthy (or_empty r.name) && not (starts_with (or_empty r.name) (take 8 (normalize_hash r.hash)))

-- `_peer_rank`
unfoldable pub peer_rank : Row → ℕ
peer_rank r =
    (if via_is (codes "serial") r
      then 22
      else number_if (via_is (codes "rns") r || via_is (codes "beacon") r) 20)
    + number_if (truthy (or_empty r.pubkey)) 8
    + number_if (leb 32 (length (normalize_hash r.hash))) 5
    + number_if (truthy (or_empty r.ip)) 2
    + number_if (has_own_name r) 3

abbrev pub seen_at : Row → ℕ
seen_at r = elim r.last_seen as (λ o. ℕ) [ none ↦ 0 | some t ↦ t ]

abbrev by_rank : Row → Row → Bool
by_rank a b =
    if peer_rank a == peer_rank b
    then leb (seen_at b) (seen_at a)
    else ltb (peer_rank b) (peer_rank a)

abbrev by_rtt : Option ℕ → Option ℕ → Bool → Bool
by_rtt none none rest = rest
by_rtt (some x) none rest = true
by_rtt none (some y) rest = false
by_rtt (some x) (some y) rest = if x == y then rest else ltb x y

-- Whether `_prefer_peer` gives its first argument back.
unfoldable pub prefers : World → Option Str → Row → Row → Bool
prefers w scope_ip a b =
    if not (bool_eq (peer_viable w scope_ip a) (peer_viable w scope_ip b))
    then peer_viable w scope_ip a
    else by_rtt a.rtt_avg_ms b.rtt_avg_ms (by_rank a b)

-- `_prefer_peer`
unfoldable pub prefer_peer : World → Option Str → Row → Row → Row
prefer_peer w scope_ip a b = if prefers w scope_ip a b then a else b

-- `_same_ip_preferred`
unfoldable pub same_ip_preferred : World → Option Str → Row → Row → Row
same_ip_preferred w scope_ip a b =
    if not (bool_eq (truthy (or_empty a.pubkey)) (truthy (or_empty b.pubkey)))
    then (if truthy (or_empty a.pubkey) then a else b)
    else if not (seen_at a == seen_at b)
    then (if leb (seen_at b) (seen_at a) then a else b)
    else if str_eq (row_via a) (codes "rns") && str_eq (row_via b) (codes "beacon")
    then a
    else if str_eq (row_via b) (codes "rns") && str_eq (row_via a) (codes "beacon")
    then b
    else prefer_peer w scope_ip a b

-- `_same_peer_identity`
unfoldable pub same_peer_identity : Row → Row → Bool
same_peer_identity a b =
    (truthy (normalize_hash a.identity_hash)
      && (truthy (normalize_hash b.identity_hash)
          && str_eq (normalize_hash a.identity_hash) (normalize_hash b.identity_hash)))
    || (truthy (or_empty b.pubkey) && same_text a.pubkey b.pubkey)

-- The transport in a key of duplicates.
unfoldable pub via_label : Row → Str
via_label r =
    let via = raw_via r.via in
    if str_mem via (codes "rns" ∷ codes "beacon" ∷ [] ∷ [])
    then codes "lan"
    else if str_eq via (codes "serial")
    then codes "usb"
    else via

-- `_peer_dedup_key`
unfoldable pub peer_dedup_key : Row → Str
peer_dedup_key r =
    let tail = codes ":via:" ++ via_label r in
    if truthy (normalize_hash r.hash)
    then codes "dest:" ++ normalize_hash r.hash ++ tail
    else if truthy (normalize_hash r.identity_hash)
    then codes "ident:" ++ normalize_hash r.identity_hash ++ tail
    else if truthy (strip (or_empty r.pubkey))
    then codes "pk:" ++ take 48 (strip (or_empty r.pubkey)) ++ tail
    else codes "hash:unknown" ++ tail

-- `grouped.setdefault(key, []).append((key, peer))` for all items
unfoldable pub group_rows : Dict Row → Dict (Dict Row) → Dict (Dict Row)
group_rows [] grouped = grouped
group_rows ((k, r) ∷ d) grouped =
    let key = peer_dedup_key r in
    let old = elim (get key grouped) as (λ o. Dict Row) [ none ↦ [] | some rows ↦ rows ] in
    group_rows d (put key (old ++ (k, r) ∷ []) grouped)

-- The winner of a group, while the others go.
unfoldable pub compete :
    World → Option Str → Str → Row → Dict Row → PeerDiscovery → ℕ → Str × Row × PeerDiscovery × ℕ
compete w scope winner_key winner [] d removed = (winner_key, winner, d, removed)
compete w scope winner_key winner ((k, r) ∷ rest) d removed =
    let keep = compete w scope winner_key winner rest (remove_peer_entry k d) (removed + 1) in
    let change = compete w scope k r rest (remove_peer_entry winner_key d) (removed + 1) in
    if prefers w scope winner r then keep else change

abbrev pub settle_winner : World → Option Str → Str × Row × PeerDiscovery × ℕ → PeerDiscovery × ℕ
settle_winner w scope (winner_key, winner, d, removed) =
    if peer_viable w scope winner
    then (d, removed)
    else (remove_peer_entry winner_key d, removed + 1)

unfoldable pub settle_group : World → Option Str → Dict Row → PeerDiscovery → ℕ → PeerDiscovery × ℕ
settle_group w scope [] d removed = (d, removed)
settle_group w scope ((k, r) ∷ []) d removed = (d, removed)
settle_group w scope ((k, r) ∷ q ∷ rest) d removed =
    settle_winner w scope (compete w scope k r (q ∷ rest) d removed)

unfoldable pub settle_groups :
    World → Option Str → Dict (Dict Row) → PeerDiscovery → ℕ → PeerDiscovery × ℕ
settle_groups w scope [] d removed = (d, removed)
settle_groups w scope ((key, rows) ∷ groups) d removed =
    let (d', removed') = settle_group w scope rows d removed in
    settle_groups w scope groups d' removed'

-- `(scope_ip or self._scope_ip() or "").strip() or None`
abbrev pub chosen_scope : World → Option Str → Option Str
chosen_scope w scope_ip =
    let scope = strip (or_else (or_empty scope_ip) (scope_of w)) in
    if truthy scope then some scope else none

-- `dedupe_identities`
unfoldable pub dedupe_identities : World → Option Str → PeerDiscovery → PeerDiscovery × ℕ
dedupe_identities w scope_ip d =
    settle_groups w (chosen_scope w scope_ip) (group_rows d.peers []) d 0

-- `refresh_paths_for_scope`
unfoldable pub refresh_paths_for_scope : World → Option Str → PeerDiscovery → PeerDiscovery × ℕ
refresh_paths_for_scope w scope_ip d =
    let (d₁, n₁) = purge_out_of_scope (chosen_scope w scope_ip) d in
    let (d₂, n₂) = purge_misclassified_serial d₁ in
    let (d₃, n₃) = dedupe_identities w (chosen_scope w scope_ip) d₂ in (d₃, n₁ + n₂ + n₃)
